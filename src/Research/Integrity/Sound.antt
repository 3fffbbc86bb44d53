-- ===== src/Research/Integrity/Sound.antt =====
-- What a series that passes every check is.
use bot_crypto.Prelude.{
  ℕ, ◌+◌, ◌-◌, ◌*◌, ◌≤◌, ◌<◌, String, ◌≡◌, refl, true, false, Option, none, some, List, [], ◌∷◌,
  ◌++◌, arith, ltb, length, is_empty, All, Chain, get_last?,
}
use bot_crypto.Float.{Float, whole, ◌<F◌}
use bot_crypto.Market.Candles.{Ohlcv}
use bot_crypto.Research.Integrity.{
  expected_interval_ms, gaps, gaps_from, check_missing_bars, violations, violations_from,
  check_monotonicity, check_warmup, bound_issues, check_completeness, issues_of, issues,
  check_ohlcv_validity, check, all_passed,
}

module _ {F : Type 0} where
  -- The second candle is after the first, by at most one and a half intervals.
  abbrev pub Follows : ℕ → Ohlcv F → Ohlcv F → Type 0
  Follows interval a b =
      (a.timestamp < b.timestamp) × (2 * (b.timestamp - a.timestamp) ≤ 3 * interval)

  -- Each candle follows the one before.
  abbrev pub IsRegular : ℕ → List (Ohlcv F) → Type 0
  IsRegular interval [] = Unit
  IsRegular interval (c ∷ cs) = Chain (Follows interval) c cs

  -- The series reaches from the start to the end.
  abbrev pub IsCovering : ℕ → ℕ → List (Ohlcv F) → Type 0
  IsCovering start end [] = ⊥
  IsCovering start end (c ∷ cs) =
      (c.timestamp ≤ start)
      × ((final : Ohlcv F) × (get_last? (c ∷ cs) ≡ some final) × (end ≤ final.timestamp))

  regular_from :
      (interval i : ℕ) (a : Ohlcv F) (cs : List (Ohlcv F))
      → is_empty (gaps_from interval a.timestamp cs) ≡ true
      → is_empty (violations_from i a.timestamp cs) ≡ true
      → Chain (Follows interval) a cs
  unfolding gaps_from violations_from
  regular_from interval i a [] h k = tt
  regular_from interval i a (c ∷ cs) h k = grind (arith, regular_from interval (i + 1) c cs)

  regular :
      (interval : ℕ) (cs : List (Ohlcv F))
      → is_empty (gaps interval cs) ≡ true
      → is_empty (violations cs) ≡ true
      → IsRegular interval cs
  unfolding gaps violations
  regular interval [] h k = tt
  regular interval (c ∷ cs) h k = regular_from interval 1 c cs h k

  gaps-short :
      (interval : ℕ) (cs : List (Ohlcv F))
      → ltb (length cs) 2 ≡ true
      → is_empty (gaps interval cs) ≡ true
  unfolding gaps gaps_from
  gaps-short interval [] h = refl
  gaps-short interval (c ∷ []) h = refl
  gaps-short interval (c ∷ d ∷ cs) h = ground arith

  -- The check of the gaps passes exactly if there is none.
  missing_bars-none :
      (cs : List (Ohlcv F)) (timeframe : String) (interval : ℕ)
      → expected_interval_ms timeframe ≡ some interval
      → (check_missing_bars cs timeframe).passed ≡ true
      → is_empty (gaps interval cs) ≡ true
  unfolding check_missing_bars
  missing_bars-none cs timeframe interval e h = ground (arith, e, gaps-short interval cs)

  covered_last :
      (start end : ℕ) (c : Ohlcv F) (final : Option (Ohlcv F)) (x : Ohlcv F)
      → final ≡ some x
      → is_empty (bound_issues start end c final) ≡ true
      → (c.timestamp ≤ start) × (end ≤ x.timestamp)
  unfolding bound_issues
  covered_last start end c none x e h = ground (arith, e)
  covered_last start end c (some f) x e h = ground (arith, e)

  get_last?-cons :
      (c : Ohlcv F) (cs : List (Ohlcv F)) → (x : Ohlcv F) × (get_last? (c ∷ cs) ≡ some x)
  get_last?-cons c [] = (c, refl)
  get_last?-cons c (d ∷ cs) = get_last?-cons d cs

  covering :
      (start end : ℕ) (cs : List (Ohlcv F))
      → (check_completeness cs start end).passed ≡ true
      → IsCovering start end cs
  unfolding check_completeness
  covering start end [] h = ground arith
  covering start end (c ∷ cs) h =
      let (x, e) = get_last?-cons c cs in
      let (s, t) = covered_last start end c (get_last? (c ∷ cs)) x e h in (s, (x, e, t))

is_empty-split :
    {A : Type 0} (xs ys : List A)
    → is_empty (xs ++ ys) ≡ true
    → (is_empty xs ≡ true) × (is_empty ys ≡ true)
is_empty-split [] ys h = (refl, h)
is_empty-split (x ∷ xs) ys h = ground arith

module _ {F : Type 0} ⦃fl : Float F⦄ where
  -- High is not below low, the body lies between them, and neither open, close nor volume is negative.
  abbrev pub IsSane : Ohlcv F → Type 0
  IsSane c =
      (c.high <F c.low ≡ false)
      × (c.close <F whole 0 ≡ false)
      × (c.open_price <F whole 0 ≡ false)
      × (c.volume <F whole 0 ≡ false)
      × (c.high <F c.close ≡ false)
      × (c.high <F c.open_price ≡ false)
      × (c.close <F c.low ≡ false)
      × (c.open_price <F c.low ≡ false)

  issues_of-IsSane : (c : Ohlcv F) → is_empty (issues_of c) ≡ true → IsSane c
  unfolding issues_of
  issues_of-IsSane c h = ground (arith, h)

  issues-IsSane : (cs : List (Ohlcv F)) → is_empty (issues cs) ≡ true → All IsSane cs
  unfolding issues
  issues-IsSane [] h = tt
  issues-IsSane (c ∷ cs) h =
      let (here, later) = is_empty-split (issues_of c) (issues cs) h in
      (issues_of-IsSane c here, issues-IsSane cs later)

  -- A series of a known timeframe that passes all the checks, the bounds of the series included: each timestamp is after the
  -- one before, by at most one and a half intervals; no candle's high is below its low, its open and close lie between
  -- the two, and its open, close and volume are not negative, of which nothing is said of low; there are
  -- candles enough for the warm-up; and they reach from the start to the end expected.
  pub check_sound :
      (candles : List (Ohlcv F)) (timeframe : String) (interval start end warmup_candles : ℕ)
      → expected_interval_ms timeframe ≡ some interval
      → all_passed (check candles timeframe (some start) (some end) warmup_candles) ≡ true
      → IsRegular interval candles
        × All IsSane candles
        × (warmup_candles ≤ length candles)
        × IsCovering start end candles
  unfolding all_passed check check_monotonicity check_ohlcv_validity check_warmup
  check_sound candles timeframe interval start end n e h = (
    regular interval candles (missing_bars-none candles timeframe interval e (ground (arith, h)))
        (ground (arith, h)),
    issues-IsSane candles (ground (arith, h)),
    ground (arith, h),
    covering start end candles (ground (arith, h)),
  )
