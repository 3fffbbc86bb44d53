-- ===== src/Market/Timeframe.antt =====
-- The timeframe contract: src/trading_bot/market_data/timeframe.py. A candle enters by its timestamp,
-- the one field that this module reads. Timestamps, intervals and durations are integers; the
-- one float, 0.3 of a duration, is compared exactly as a ratio of integers.
pub mod Infer
mod Tests
use bot_crypto.Prelude.{
  ℕ, zero, suc, ◌+◌, ◌-◌, ◌*◌, ◌/◌, String, Bool, true, false, Option, none, some, List, [], ◌∷◌,
  ltb, str_eq, if◌then◌else◌, length, get_elem?,
}
use bot_crypto.Prelude.Int.{ℤ, pos, negsuc, ◌-ℤ◌, leb_ℤ}

-- The keys of `TIMEFRAME_SECONDS`.
pub data Timeframe : Type 0 where
  m1 m2 m3 m5 m10 m15 m30 h1 h4 d1 : Timeframe

unfoldable pub seconds : Timeframe → ℕ
seconds m1 = 60
seconds m2 = 120
seconds m3 = 180
seconds m5 = 300
seconds m10 = 600
seconds m15 = 900
seconds m30 = 1800
seconds h1 = 3600
seconds h4 = 14400
seconds d1 = 86400

unfoldable pub name : Timeframe → String
name m1 = "1m"
name m2 = "2m"
name m3 = "3m"
name m5 = "5m"
name m10 = "10m"
name m15 = "15m"
name m30 = "30m"
name h1 = "1h"
name h4 = "4h"
name d1 = "1d"

-- `TIMEFRAME_SECONDS.items()`, in its order
abbrev pub timeframes : List Timeframe
timeframes = m1 ∷ m2 ∷ m3 ∷ m5 ∷ m10 ∷ m15 ∷ m30 ∷ h1 ∷ h4 ∷ d1 ∷ []

-- The differences of consecutive timestamps.
pub intervals : List ℤ → List ℤ
intervals [] = []
intervals (a ∷ []) = []
intervals (a ∷ b ∷ ts) = (b -ℤ a) ∷ intervals (b ∷ ts)

pub insert_sorted : ℤ → List ℤ → List ℤ
insert_sorted a [] = a ∷ []
insert_sorted a (b ∷ l) = if leb_ℤ a b then a ∷ b ∷ l else b ∷ insert_sorted a l

-- `list.sort()`
pub sort : List ℤ → List ℤ
unfolding insert_sorted
sort [] = []
sort (a ∷ l) = insert_sorted a (sort l)

-- `intervals[len(intervals) // 2]` of the sorted intervals
pub median : List ℤ → Option ℤ
median l = get_elem? (sort l) (length l / 2)

-- An interval above 100,000 is taken for milliseconds. (A negative one stays as it is.)
pub to_seconds : ℤ → ℤ
to_seconds (pos n) = if ltb 100000 n then pos (n / 1000) else pos n
to_seconds (negsuc n) = negsuc n

-- `abs(interval - seconds)`
pub distance : ℤ → ℕ → ℕ
distance (pos n) s = if ltb n s then s - n else n - s
distance (negsuc n) s = n + 1 + s

-- The loop over the table: the first timeframe at the least distance.
pub closest : ℤ → List Timeframe → Option (Timeframe × ℕ) → Option (Timeframe × ℕ)
closest i [] best = best
closest i (tf ∷ tfs) none = closest i tfs (some (tf, distance i (seconds tf)))
closest i (tf ∷ tfs) (some (b, d)) =
    closest i tfs
      (if ltb (distance i (seconds tf)) d then some (tf, distance i (seconds tf)) else some (b, d))

-- The tolerance: `best_diff > expected_seconds * 0.3` gives None.
pub within_tolerance : Option (Timeframe × ℕ) → Option Timeframe
within_tolerance none = none
within_tolerance (some (tf, d)) = if ltb (seconds tf * 3) (d * 10) then none else some tf

pub classify : ℤ → Option Timeframe
classify i = within_tolerance (closest (to_seconds i) timeframes none)

classify_median : Option ℤ → Option Timeframe
classify_median none = none
classify_median (some i) = classify i

pub infer_timeframe_from_candles : List ℤ → Option Timeframe
unfolding classify_median
infer_timeframe_from_candles ts =
    if ltb (length ts) 2 then none else classify_median (median (intervals ts))

-- `TimeframeMismatch`, or the value that is returned.
pub data Validation : Type 0 where
  valid : Option Timeframe → Validation
  mismatch : (symbol expected : String) → (actual : Timeframe) → Validation

check_expected : String → String → Bool → Option Timeframe → Validation
check_expected expected symbol strict none = valid none
check_expected expected symbol strict (some tf) =
    if str_eq (name tf) expected
    then valid (some tf)
    else if strict
    then mismatch symbol expected tf
    else valid (some tf)

pub validate_timeframe : List ℤ → String → String → Bool → Validation
unfolding check_expected
validate_timeframe ts expected symbol strict =
    check_expected expected symbol strict (infer_timeframe_from_candles ts)
