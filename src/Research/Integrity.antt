-- ===== src/Research/Integrity.antt =====
-- The checks of a series of candles: src/trading_bot/research/data_integrity.py. The symbol and the texts of the details
-- are left out. A gap of half an interval is compared in whole milliseconds: 2 * diff with 3 * interval.
pub mod Sound
mod Tests
use bot_crypto.Prelude.{
  ℕ, suc, ◌+◌, ◌-◌, ◌*◌, String, Bool, true, false, not, ◌&&◌, ◌||◌, Option, none, some, List, [],
  ◌∷◌, ◌++◌, ltb, leb, ◌==◌, length, filter, is_empty, get_last?, if◌then◌else◌,
}
use bot_crypto.Float.{Float, whole, ◌<F◌}
use bot_crypto.Dict.{Dict, lookup}
use bot_crypto.Market.Candles.{Ohlcv}

pub data CheckName : Type 0 where
  missing_bars duplicates monotonicity ohlcv_validity warmup completeness : CheckName

pub record IntegrityCheck : Type 0 where
  pub check_name : CheckName
  pub passed : Bool
  pub issue_count : ℕ
  pub affected_timestamps : List ℕ

pub record IntegrityReport : Type 0 where
  pub timeframe : String
  pub total_candles : ℕ
  pub checks : List IntegrityCheck

pub data Issue : Type 0 where
  high_below_low negative_price negative_volume high_below_body low_above_body : Issue

pub data BoundIssue : Type 0 where
  starts_late ends_early : BoundIssue

-- `_TIMEFRAME_MS`
abbrev timeframe_ms : Dict ℕ
timeframe_ms =
    ("1m", 60000)
    ∷ ("5m", 300000)
    ∷ ("15m", 900000)
    ∷ ("1h", 3600000)
    ∷ ("4h", 14400000)
    ∷ ("1d", 86400000)
    ∷ []

pub expected_interval_ms : String → Option ℕ
expected_interval_ms timeframe = lookup timeframe timeframe_ms

-- `all(c.passed for c in self.checks)`
abbrev all_of : List IntegrityCheck → Bool
all_of [] = true
all_of (c ∷ cs) = c.passed && all_of cs

abbrev sum_of : List IntegrityCheck → ℕ
sum_of [] = 0
sum_of (c ∷ cs) = c.issue_count + sum_of cs

pub all_passed : IntegrityReport → Bool
all_passed r = all_of r.checks

pub failed_checks : IntegrityReport → List IntegrityCheck
failed_checks r = filter (λ c. not c.passed) r.checks

pub total_issues : IntegrityReport → ℕ
total_issues r = sum_of r.checks

abbrev found : {A : Type 0} → CheckName → List A → List ℕ → IntegrityCheck
found name issues affected = record {
  check_name = name;
  passed = is_empty issues;
  issue_count = length issues;
  affected_timestamps = affected;
}

-- `xs[:20]`
abbrev capped : ℕ → List ℕ → List ℕ
capped n [] = []
capped n (x ∷ xs) = if n == 0 then [] else x ∷ capped (n - 1) xs

pub contains_ts : ℕ → List ℕ → Bool
contains_ts t [] = false
contains_ts t (s ∷ seen) = t == s || contains_ts t seen

abbrev one_if : {A : Type 0} → Bool → A → List A
one_if b a = if b then a ∷ [] else []

module _ {F : Type 0} where
  pub gaps_from : ℕ → ℕ → List (Ohlcv F) → List ℕ
  gaps_from interval previous [] = []
  gaps_from interval previous (c ∷ cs) =
      let rest = gaps_from interval c.timestamp cs in
      if ltb (3 * interval) (2 * (c.timestamp - previous)) then previous ∷ rest else rest

  pub gaps : ℕ → List (Ohlcv F) → List ℕ
  gaps interval [] = []
  gaps interval (c ∷ cs) = gaps_from interval c.timestamp cs

  pub check_missing_bars : List (Ohlcv F) → String → IntegrityCheck
  check_missing_bars candles timeframe =
      let found_gaps : IntegrityCheck = elim (expected_interval_ms timeframe) [
        | none ↦ found {A = ℕ} missing_bars [] []
        | some interval ↦
            found missing_bars (gaps interval candles) (capped 20 (gaps interval candles))
      ] in
      if ltb (length candles) 2 then found {A = ℕ} missing_bars [] [] else found_gaps

  pub duplicates_from : List ℕ → List (Ohlcv F) → List ℕ
  duplicates_from seen [] = []
  duplicates_from seen (c ∷ cs) =
      let known = contains_ts c.timestamp seen in
      let rest = duplicates_from (if known then seen else c.timestamp ∷ seen) cs in
      if known then c.timestamp ∷ rest else rest

  pub check_duplicates : List (Ohlcv F) → IntegrityCheck
  check_duplicates candles =
      found duplicates (duplicates_from [] candles) (capped 20 (duplicates_from [] candles))

  pub violations_from : ℕ → ℕ → List (Ohlcv F) → List ℕ
  violations_from i previous [] = []
  violations_from i previous (c ∷ cs) =
      let rest = violations_from (i + 1) c.timestamp cs in
      if leb c.timestamp previous then i ∷ rest else rest

  pub violations : List (Ohlcv F) → List ℕ
  violations [] = []
  violations (c ∷ cs) = violations_from 1 c.timestamp cs

  pub check_monotonicity : List (Ohlcv F) → IntegrityCheck
  check_monotonicity candles = found monotonicity (violations candles) []

  pub check_warmup : List (Ohlcv F) → ℕ → IntegrityCheck
  check_warmup candles n = record {
    check_name = warmup;
    passed = leb n (length candles);
    issue_count = if leb n (length candles) then 0 else 1;
    affected_timestamps = [];
  }

  bound_issues : ℕ → ℕ → Ohlcv F → Option (Ohlcv F) → List BoundIssue
  bound_issues start end first none = []
  bound_issues start end first (some final) =
      one_if (ltb start first.timestamp) starts_late ++ one_if (ltb final.timestamp end) ends_early

  pub check_completeness : List (Ohlcv F) → ℕ → ℕ → IntegrityCheck
  unfolding bound_issues
  check_completeness [] start end = record {
    check_name = completeness;
    passed = false;
    issue_count = 1;
    affected_timestamps = [];
  }
  check_completeness (c ∷ cs) start end =
      found completeness (bound_issues start end c (get_last? (c ∷ cs))) []

  abbrev completeness_checks : List (Ohlcv F) → Option ℕ → Option ℕ → List IntegrityCheck
  completeness_checks candles (some start) (some end) = check_completeness candles start end ∷ []
  completeness_checks candles start end = []

module _ {F : Type 0} ⦃fl : Float F⦄ where
  pub issues_of : Ohlcv F → List Issue
  issues_of c =
      one_if (c.high <F c.low) high_below_low
      ++ one_if (c.close <F whole 0 || c.open_price <F whole 0) negative_price
      ++ one_if (c.volume <F whole 0) negative_volume
      ++ one_if (c.high <F c.close || c.high <F c.open_price) high_below_body
      ++ one_if (c.close <F c.low || c.open_price <F c.low) low_above_body

  pub issues : List (Ohlcv F) → List Issue
  issues [] = []
  issues (c ∷ cs) = issues_of c ++ issues cs

  pub check_ohlcv_validity : List (Ohlcv F) → IntegrityCheck
  check_ohlcv_validity candles = found ohlcv_validity (issues candles) []

  pub check : List (Ohlcv F) → String → Option ℕ → Option ℕ → ℕ → IntegrityReport
  check candles timeframe expected_start expected_end warmup_candles = record {
    timeframe = timeframe;
    total_candles = length candles;
    checks =
        check_missing_bars candles timeframe
        ∷ check_duplicates candles
        ∷ check_monotonicity candles
        ∷ check_ohlcv_validity candles
        ∷ check_warmup candles warmup_candles
        ∷ completeness_checks candles expected_start expected_end;
  }
