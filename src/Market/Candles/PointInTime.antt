-- ===== src/Market/Candles/PointInTime.antt =====
-- The higher-timeframe state at a signal is that of the newest closed candle, and nothing later shows in it.
use bot_crypto.Prelude.{
  Occurs, ℕ, ◌+◌, ◌*◌, ◌≤◌, ◌<◌, String, ◌≡◌, ◌≢◌, refl, true, Option, none, some, List, [], ◌∷◌,
  arith, filter, All, All-map, ltb, ◌&&◌, if◌then◌else◌, inl, inr, ◌⊎◌, Option-cases,
}
use bot_crypto.Market.Candles.{
  Ohlcv, ok, timeframe_seconds_or_raise, ends_by, is_newer, newest_closed, htf_state, state_of,
  get_completed_htf_state_at,
}

module _ {F : Type 0} where
  newest-filter :
      (n s : ℕ) (cs : List (Ohlcv F)) (best : Option (Ohlcv F))
      → newest_closed n s (filter (ends_by n s) cs) best ≡ newest_closed n s cs best
  unfolding newest_closed
  newest-filter n s [] best = refl
  newest-filter n s (c ∷ cs) best = ground (
    arith,
    newest-filter n s cs best,
    newest-filter n s cs (if is_newer c best then some c else best),
  )

  newest-ge :
      (n s : ℕ) (cs : List (Ohlcv F)) (b r : Ohlcv F)
      → newest_closed n s cs (some b) ≡ some r
      → b.timestamp ≤ r.timestamp
  unfolding newest_closed
  newest-ge n s [] b r e = ground arith
  newest-ge n s (c ∷ cs) b r e = ground (arith, newest-ge n s cs b r, newest-ge n s cs c r)

  newest-covers :
      (n s : ℕ) (cs : List (Ohlcv F)) (best : Option (Ohlcv F)) (r : Ohlcv F)
      → newest_closed n s cs best ≡ some r
      → All (λ c. ends_by n s c ≡ true → c.timestamp ≤ r.timestamp) cs
  unfolding newest_closed
  newest-covers n s [] best r e = tt
  newest-covers n s (c ∷ cs) none r e =
      ground
        (arith, newest-covers n s cs none r, newest-covers n s cs (some c) r, newest-ge n s cs c r)
  newest-covers n s (c ∷ cs) (some b) r e = ground (
    arith,
    newest-covers n s cs (some b) r,
    newest-covers n s cs (some c) r,
    newest-ge n s cs c r,
    newest-ge n s cs b r,
  )

  newest-closed :
      (n s : ℕ) (cs : List (Ohlcv F)) (best : Option (Ohlcv F)) (r : Ohlcv F)
      → newest_closed n s cs best ≡ some r
      → (best ≡ some r) ⊎ (Occurs r cs × (r.timestamp + n ≤ s))
  unfolding newest_closed
  newest-closed n s [] best r e = inl e
  newest-closed n s (c ∷ cs) best r e =
      ground (arith, newest-closed n s cs best r, newest-closed n s cs (some c) r)

  newest_lem :
      (n s : ℕ) (cs : List (Ohlcv F)) (r : Ohlcv F)
      → newest_closed n s cs none ≡ some r
      → Occurs r cs × (r.timestamp + n ≤ s)
  newest_lem n s cs r e = ground (arith, newest-closed n s cs none r e)

  newest-ne-none :
      (n s : ℕ) (cs : List (Ohlcv F)) (b : Ohlcv F) → newest_closed n s cs (some b) ≢ none
  unfolding newest_closed
  newest-ne-none n s [] b e = cc
  newest-ne-none n s (c ∷ cs) b e = ground (arith, newest-ne-none n s cs b, newest-ne-none n s cs c)

  newest-none :
      (n s : ℕ) (cs : List (Ohlcv F))
      → newest_closed n s cs none ≡ none
      → All (λ c. s < c.timestamp + n) cs
  unfolding newest_closed
  newest-none n s [] e = tt
  newest-none n s (c ∷ cs) e = ground (arith, newest-none n s cs, newest-ne-none n s cs c)

  -- The state is that of the closed candles alone, in any mixture with candles that end after the signal.
  pub htf_state-filter :
      (lower : String → String) (cs : List (Ohlcv F)) (timeframe : String) (n s : ℕ)
      → timeframe_seconds_or_raise lower timeframe ≡ ok n
      → get_completed_htf_state_at lower cs timeframe s
        ≡ get_completed_htf_state_at lower (filter (ends_by n s) cs) timeframe s
  unfolding get_completed_htf_state_at
  htf_state-filter lower cs timeframe n s e = ground (arith, newest-filter n s cs none)

  -- A candle that is n past its opening and, where timestamps count milliseconds, still forming, shows that a newer one
  -- that is n past its opening is forming too.
  forming-newer :
      (n s : ℕ) (r : Ohlcv F) (cs : List (Ohlcv F))
      → All (λ c. ends_by n s c ≡ true → c.timestamp ≤ r.timestamp) cs
      → All
          (λ c.
            (ends_by n s c && ltb s (c.timestamp + 1000 * n)) ≡ true → s < r.timestamp + 1000 * n)
          cs
  forming-newer n s r cs h =
      All-map (λ c. ends_by n s c ≡ true → c.timestamp ≤ r.timestamp)
        (λ c. (ends_by n s c && ltb s (c.timestamp + 1000 * n)) ≡ true → s < r.timestamp + 1000 * n)
        cs (λ c k e. ground (arith, k, e)) h

  -- For a timeframe of n seconds and a signal at s, in the numbers as they are: there is no state exactly if every
  -- timestamp plus n is after s. Otherwise the state is that of a candle of the list whose timestamp plus n is at most
  -- s, and no candle of the list for which this holds is newer. That n after the timestamp is the candle's end
  -- where both count seconds. Where both count milliseconds, the canonical unit, a candle ends 1000 n after its
  -- timestamp, and the state does look ahead: as soon as one candle of the list is n past its timestamp and still
  -- forming, the candle of the state is still forming.
  pub htf_state_lem :
      (lower : String → String) (cs : List (Ohlcv F)) (timeframe : String) (n s : ℕ)
      → timeframe_seconds_or_raise lower timeframe ≡ ok n
      → ((get_completed_htf_state_at lower cs timeframe s ≡ ok none)
          × All (λ c. s < c.timestamp + n) cs)
        ⊎ ((r : Ohlcv F) × (get_completed_htf_state_at lower cs timeframe s
              ≡ ok (some (state_of timeframe n r)))
            × Occurs r cs
            × (r.timestamp + n ≤ s)
            × All (λ c. ends_by n s c ≡ true → c.timestamp ≤ r.timestamp) cs
            × All
                (λ c.
                  (ends_by n s c && ltb s (c.timestamp + 1000 * n)) ≡ true
                  → s < r.timestamp + 1000 * n)
                cs)
  unfolding get_completed_htf_state_at htf_state
  htf_state_lem lower cs timeframe n s e = elim (Option-cases (newest_closed n s cs none)) [
    | inl none_closed ↦ inl (ground arith, newest-none n s cs none_closed)
    | inr (r, found) ↦
        let (member, ended) = newest_lem n s cs r found in
        let newest = newest-covers n s cs none r found in
        inr (r, ground arith, member, ended, newest, forming-newer n s r cs newest)
  ]

  -- A candle with a timestamp in milliseconds counts as closed as many milliseconds after its opening as its timeframe
  -- has seconds: long before its end.
  pub htf_milliseconds :
      (lower : String → String) (c : Ohlcv F) (timeframe : String) (n s : ℕ)
      → timeframe_seconds_or_raise lower timeframe ≡ ok n
      → c.timestamp + n ≤ s
      → s < c.timestamp + 1000 * n
      → get_completed_htf_state_at lower (c ∷ []) timeframe s ≡ ok (some (state_of timeframe n c))
  unfolding get_completed_htf_state_at htf_state newest_closed
  htf_milliseconds lower c timeframe n s e ended forming = ground arith
