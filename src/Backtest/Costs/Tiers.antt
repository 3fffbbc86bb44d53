-- ===== src/Backtest/Costs/Tiers.antt =====
-- Which tier a commission is computed with.
use bot_crypto.Prelude.{
  Occurs, All-map, ◌≡◌, refl, true, false, none, some, List, [], ◌∷◌, arith, All, ◌⊎◌, inl, inr,
  Bool-cases, get_last?,
}
use bot_crypto.Float.{Float, IsOrdered, whole, ◌+F◌, ◌*F◌, ◌≤F◌, le_refl, le_of_not_lt}
use bot_crypto.Backtest.Costs.{
  Tier, CommissionModel, tiered, ok, check_order, create_tiered, last_rate, select_rate,
  calculate_commission,
}

module _ {F : Type 0} ⦃fl : Float F⦄ where
  -- The tier takes the notional.
  abbrev pub Takes : F → Tier F → Type 0
  Takes notional t = (notional ≤F t.max_notional) ≡ true

  -- The rate is that of the smallest tier that takes the notional, or, when none does, that of the last tier.
  pub data Selected (notional : F) (tiers : List (Tier F)) : F → Type 0 where
    smallest :
        (t : Tier F)
        → Occurs t tiers
        → Takes notional t
        → All (λ u. Takes notional u → (t.max_notional ≤F u.max_notional) ≡ true) tiers
        → Selected notional tiers t.rate
    beyond :
        (t : Tier F)
        → get_last? tiers ≡ some t
        → All (λ u. (notional ≤F u.max_notional) ≡ false) tiers
        → Selected notional tiers t.rate

  last_lem :
      (t : Tier F) (ts : List (Tier F)) (d : F)
      → (u : Tier F) × (get_last? (t ∷ ts) ≡ some u) × (last_rate d (t ∷ ts) ≡ u.rate)
  unfolding last_rate
  last_lem t [] d = (t, refl, refl)
  last_lem t (u ∷ us) d = last_lem u us t.rate

module _ {F : Type 0} ⦃fl : Float F⦄ (o : IsOrdered fl) where
  -- In ascending order, every later tier has at least the bound of the first.
  above_first :
      (t : Tier F) (ts : List (Tier F))
      → check_order t ts ≡ none
      → All (λ u. (t.max_notional ≤F u.max_notional) ≡ true) ts
  unfolding check_order
  above_first t [] h = tt
  above_first t (u ∷ us) h = (
    ground (arith, le_of_not_lt o u.max_notional t.max_notional),
    All-map (λ v. (u.max_notional ≤F v.max_notional) ≡ true)
        (λ v. (t.max_notional ≤F v.max_notional) ≡ true) us
        (λ v k. ground (
          arith,
          le_of_not_lt o u.max_notional t.max_notional,
          o.le_trans t.max_notional u.max_notional v.max_notional,
        ))
        (above_first u us (ground arith)),
  )

  select_lem :
      (notional fallback : F) (t : Tier F) (ts : List (Tier F))
      → check_order t ts ≡ none
      → ((u : Tier F) × (select_rate fallback notional (t ∷ ts) ≡ u.rate)
          × Occurs u (t ∷ ts)
          × Takes notional u
          × All (λ v. Takes notional v → (u.max_notional ≤F v.max_notional) ≡ true) (t ∷ ts))
        ⊎ ((select_rate fallback notional (t ∷ ts) ≡ fallback)
            × All (λ v. (notional ≤F v.max_notional) ≡ false) (t ∷ ts))
  unfolding select_rate check_order
  select_lem notional fallback t [] h = elim (Bool-cases (notional ≤F t.max_notional)) [
    | inl e ↦ inl (t, ground arith, inl refl, e, ((λ k. le_refl o t.max_notional), tt))
    | inr e ↦ inr (ground arith, (e, tt))
  ]
  select_lem notional fallback t (v ∷ vs) h = elim (Bool-cases (notional ≤F t.max_notional)) [
    | inl e ↦ inl (
      t,
      ground arith,
      inl refl,
      e,
      (
        (λ k. le_refl o t.max_notional),
        All-map (λ w. (t.max_notional ≤F w.max_notional) ≡ true)
            (λ w. Takes notional w → (t.max_notional ≤F w.max_notional) ≡ true) (v ∷ vs)
            (λ w k taken. k) (above_first t (v ∷ vs) h),
      ),
    )
    | inr e ↦ elim (select_lem notional fallback v vs (ground arith)) [
      | inl (u, rate, member, takes, least) ↦
          inl (u, ground (arith, rate), inr member, takes, ((λ k. ground arith), least))
      | inr (rate, none_takes) ↦ inr (ground (arith, rate), (e, none_takes))
    ]
  ]

  -- With bounds in a total order, a tiered commission that was constructed is the fixed fee and the notional at one
  -- rate: that of the smallest tier that takes the notional or, when no tier takes it, that of the last one.
  pub tiered_lem :
      (tiers : List (Tier F)) (fixed_fee : F) (m : CommissionModel F) (notional qty price : F)
      → create_tiered tiers fixed_fee ≡ ok m
      → (rate : F) × (calculate_commission m notional qty price ≡ notional *F rate +F fixed_fee)
        × Selected notional tiers rate
  unfolding create_tiered calculate_commission
  tiered_lem [] fixed_fee m notional qty price h = ground arith
  tiered_lem (t ∷ ts) fixed_fee m notional qty price h =
      let fallback = last_rate (whole 0) (t ∷ ts) in
      let e : m ≡ tiered (t ∷ ts) fixed_fee = ground arith in
      let (last, found, rate) = last_lem t ts (whole 0) in
      elim (select_lem notional fallback t ts (ground arith)) [
        | inl (u, chosen, member, takes, least) ↦
            (u.rate, ground (arith, chosen, e), smallest u member takes least)
        | inr (chosen, none_takes) ↦
            (last.rate, ground (arith, chosen, rate, e), beyond last found none_takes)
      ]
