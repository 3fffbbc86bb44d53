-- ===== src/Market/Timeframe/Infer.antt =====
-- What the inference returns: the nearest timeframe within the tolerance, and the answer on evenly
-- spaced candles in both of the units that occur.
use bot_crypto.Prelude.{
  ℕ, zero, suc, ◌+◌, ◌*◌, ◌/◌, ◌≤◌, String, ◌≡◌, ◌≢◌, ◌⊎◌, refl, ap, true, false, Option, none,
  some, List, [], ◌∷◌, arith, ltb, length, All, Bool-cases, inl, inr, get_elem?, replicate,
  length-replicate, str_eq, ◌∙◌, if◌then◌else◌,
}
use mathlib.Core.List.{tail}
use bot_crypto.Prelude.Int.{ℤ, pos}
use bot_crypto.Market.Timeframe.{
  Timeframe, m1, seconds, name, timeframes, intervals, sort, median, to_seconds, distance, closest,
  within_tolerance, classify, infer_timeframe_from_candles, valid, mismatch, validate_timeframe,
}

closest-le :
    (i : ℤ) (tfs : List Timeframe) (b : Timeframe) (d : ℕ) (c : Timeframe) (e : ℕ)
    → d ≡ distance i (seconds b)
    → closest i tfs (some (b, d)) ≡ some (c, e)
    → (e ≡ distance i (seconds c)) × (e ≤ d) × All (λ tf. e ≤ distance i (seconds tf)) tfs
unfolding closest
closest-le i [] b d c e h k = (ground arith, ground arith, tt)
closest-le i (tf ∷ tfs) b d c e h k = elim (Bool-cases (ltb (distance i (seconds tf)) d)) [
  | inl nearer ↦
      let (x, y, z) = closest-le i tfs tf (distance i (seconds tf)) c e refl (rw nearer at k) in
      (x, ground arith, (y, z))
  | inr farther ↦
      let (x, y, z) = closest-le i tfs b d c e h (rw farther at k) in (x, y, (ground arith, z))
]

nearest-of :
    (i : ℤ) (tf : Timeframe) (best : Option (Timeframe × ℕ))
    → closest i timeframes none ≡ best
    → within_tolerance best ≡ some tf
    → (distance i (seconds tf) * 10 ≤ seconds tf * 3)
      × All (λ other. distance i (seconds tf) ≤ distance i (seconds other)) timeframes
unfolding within_tolerance closest
nearest-of i tf none c w = cc
nearest-of i tf (some (b, d)) c w =
    let (x, y, z) = closest-le i (tail timeframes) m1 (distance i (seconds m1)) b d refl c in
    ground arith

-- What the inference returns lies within 30% of the interval, and no timeframe of the table is nearer.
pub classify_nearest :
    (i : ℤ) (tf : Timeframe)
    → classify i ≡ some tf
    → (distance (to_seconds i) (seconds tf) * 10 ≤ seconds tf * 3)
      × All
          (λ other. distance (to_seconds i) (seconds tf) ≤ distance (to_seconds i) (seconds other))
          timeframes
unfolding classify
classify_nearest i tf h = nearest-of (to_seconds i) tf _ refl h

-- Candles `step` apart, the first at `start`.
abbrev pub spaced : ℕ → ℕ → ℕ → List ℤ
spaced start step zero = []
spaced start step (suc n) = pos start ∷ spaced (start + step) step n

intervals-spaced :
    (start step n : ℕ) → intervals (spaced start step (suc n)) ≡ replicate n (pos step)
unfolding intervals
intervals-spaced start step zero = refl
intervals-spaced start step (suc n) = ground (arith, intervals-spaced (start + step) step n)

sort-replicate : (n : ℕ) (a : ℕ) → sort (replicate n (pos a)) ≡ replicate n (pos a)
unfolding sort
sort-replicate zero a = refl
sort-replicate (suc zero) a = refl
sort-replicate (suc (suc n)) a = rw (sort-replicate (suc n) a) (ground arith)

get_elem?-replicate {ℓ} :
    {A : Type ℓ} (n i : ℕ) (a : A) → suc i ≤ n → get_elem? (replicate n a) i ≡ some a
get_elem?-replicate zero i a h = absurd (omega arith)
get_elem?-replicate (suc n) zero a h = refl
get_elem?-replicate (suc n) (suc i) a h = get_elem?-replicate n i a (omega arith)

length-spaced : (start step n : ℕ) → length (spaced start step n) ≡ n
length-spaced start step zero = refl
length-spaced start step (suc n) = ap suc (length-spaced (start + step) step n)

median-replicate : (n step : ℕ) → median (replicate (suc n) (pos step)) ≡ some (pos step)
unfolding median
median-replicate n step =
    simp (sort-replicate, length-replicate)
      (get_elem?-replicate (suc n) (suc n / 2) (pos step) (omega arith))

spaced_not_short : (start step n : ℕ) → ltb (length (spaced start step (suc (suc n)))) 2 ≡ false
spaced_not_short start step n = ground (arith, length-spaced start step (suc (suc n)))

-- On evenly spaced candles the inference classifies the spacing.
pub infer-spaced :
    (start step n : ℕ)
    → infer_timeframe_from_candles (spaced start step (suc (suc n))) ≡ classify (pos step)
unfolding infer_timeframe_from_candles
infer-spaced start step n = rw spaced_not_short (rw intervals-spaced (rw median-replicate))

classify-seconds : (tf : Timeframe) → classify (pos (seconds tf)) ≡ some tf
unfolding classify to_seconds closest distance within_tolerance seconds
classify-seconds m1 = refl
classify-seconds _ = refl

classify-minute : classify (pos 60000) ≡ none
unfolding classify to_seconds closest distance within_tolerance seconds
classify-minute = refl

-- The spacing in milliseconds: only that of one minute is not classified.
classify-thousand :
    (tf : Timeframe)
    → ((tf ≡ m1) × (classify (pos (seconds tf * 1000)) ≡ none))
      ⊎ ((tf ≢ m1) × (classify (pos (seconds tf * 1000)) ≡ some tf))
unfolding classify to_seconds closest distance within_tolerance seconds
classify-thousand m1 = inl (refl, refl)
classify-thousand _ = inr (λ e. cc e, refl)

-- Two or more candles spaced by any timeframe of the table, with timestamps in seconds, are recognised. With timestamps
-- in milliseconds they are recognised too, but for one-minute candles, of which the inference returns None.
pub infer_round_trip :
    (tf : Timeframe) (start n : ℕ)
    → (infer_timeframe_from_candles (spaced start (seconds tf) (suc (suc n))) ≡ some tf)
      × (((tf ≡ m1)
            × (infer_timeframe_from_candles (spaced start (seconds tf * 1000) (suc (suc n)))
                ≡ none))
          ⊎ ((tf ≢ m1)
              × (infer_timeframe_from_candles (spaced start (seconds tf * 1000) (suc (suc n)))
                  ≡ some tf)))
infer_round_trip tf start n = (
  infer-spaced start (seconds tf) n ∙ classify-seconds tf,
  elim (classify-thousand tf) [
    | inl (e, h) ↦ inl (e, infer-spaced start (seconds tf * 1000) n ∙ h)
    | inr (e, h) ↦ inr (e, infer-spaced start (seconds tf * 1000) n ∙ h)
  ],
)

-- One-minute candles in milliseconds pass every strict validation: their timeframe is not recognised.
pub validate_minute_milliseconds :
    (start n : ℕ) (expected symbol : String)
    → validate_timeframe (spaced start 60000 (suc (suc n))) expected symbol true ≡ valid none
unfolding validate_timeframe
validate_minute_milliseconds start n expected symbol =
    rw (infer-spaced start 60000 n) (rw classify-minute)

-- A strict validation raises exactly if a timeframe is inferred that is not the expected one.
pub validate_strict :
    (ts : List ℤ) (expected symbol : String) (tf : Timeframe)
    → infer_timeframe_from_candles ts ≡ some tf
    → validate_timeframe ts expected symbol true
      ≡ (if str_eq (name tf) expected then valid (some tf) else mismatch symbol expected tf)
unfolding validate_timeframe
validate_strict ts expected symbol tf h = rw h (ground arith)
