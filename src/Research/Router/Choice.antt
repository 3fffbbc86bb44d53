-- ===== src/Research/Router/Choice.antt =====
-- The router selects a strategy that passes every gate with the best score, or says why it selects none.
use bot_crypto.Prelude.{
  Occurs, String, ◌≡◌, ◌≢◌, refl, ap, subst, true, false, not, ◌&&◌, Option, none, some, [], ◌∷◌,
  arith, is_some, All, ◌⊎◌, inl, inr, Option-cases,
}
use bot_crypto.Float.{Float, IsOrdered, whole, ◌-F◌, ◌<F◌, le_refl, le_of_lt, le_of_not_lt}
use bot_crypto.Dict.{Dict}
use bot_crypto.Research.Router.{
  AssetContext, Entry, RouterGates, Best, no_best, consider, scan, passes, score_of, is_stale,
  data_quality, current_regime, no_trade, decide, route, no_strategy_passed_gates,
}

module _ {F : Type 0} ⦃fl : Float F⦄ where
  scan-ge :
      (o : IsOrdered fl) (g : RouterGates F) (r : Option String) (m : Dict (Entry F)) (b : Best F)
      → fl.le b.score (scan g r m b).score ≡ true
  unfolding scan consider
  scan-ge o g r [] b = le_refl o b.score
  scan-ge o g r ((sid, e) ∷ m) b = ground (
    arith,
    scan-ge o g r m (consider g r (sid, e) b),
    le_of_lt o b.score (score_of r e),
    o.le_trans b.score (score_of r e) (scan g r m (consider g r (sid, e) b)).score,
  )

  scan-head :
      (o : IsOrdered fl) (g : RouterGates F) (r : Option String) (sid : String) (e : Entry F)
      (m : Dict (Entry F)) (b : Best F)
      → passes g r e ≡ true
      → fl.le (score_of r e) (scan g r m (consider g r (sid, e) b)).score ≡ true
  unfolding consider
  scan-head o g r sid e m b h = ground (
    arith,
    scan-ge o g r m (consider g r (sid, e) b),
    o.le_trans (score_of r e) b.score (scan g r m (consider g r (sid, e) b)).score,
    le_of_not_lt o b.score (score_of r e),
  )

  -- Every strategy that passes the gates has at most the best score.
  scan-covers :
      (o : IsOrdered fl) (g : RouterGates F) (r : Option String) (m : Dict (Entry F)) (b : Best F)
      → All (λ p. passes g r p.1 ≡ true → fl.le (score_of r p.1) (scan g r m b).score ≡ true) m
  unfolding scan
  scan-covers o g r [] b = tt
  scan-covers o g r ((sid, e) ∷ m) b =
      (scan-head o g r sid e m b, scan-covers o g r m (consider g r (sid, e) b))

  scan-choice :
      (g : RouterGates F) (r : Option String) (m : Dict (Entry F)) (b : Best F)
      (p : String × Entry F)
      → (scan g r m b).choice ≡ some p
      → ((b.choice ≡ some p) × ((scan g r m b).score ≡ b.score))
        ⊎ (Occurs p m × (passes g r p.1 ≡ true) × ((scan g r m b).score ≡ score_of r p.1))
  unfolding scan consider
  scan-choice g r [] b p e = inl (e, refl)
  scan-choice g r ((sid, d) ∷ m) b p e =
      ground (arith, scan-choice g r m (consider g r (sid, d) b) p)

  scan-none :
      (g : RouterGates F) (r : Option String) (m : Dict (Entry F)) (b : Best F)
      → (scan g r m b).choice ≡ none
      → scan g r m b ≡ b
  unfolding scan consider
  scan-none g r [] b e = refl
  scan-none g r ((sid, d) ∷ m) b e = ground (arith, scan-none g r m (consider g r (sid, d) b))

  abbrev pub NoneAbove : RouterGates F → Option String → F → Dict (Entry F) → Type 0
  NoneAbove g r top m = All (λ p. passes g r p.1 ≡ true → fl.le (score_of r p.1) top ≡ true) m

  scan-best :
      (o : IsOrdered fl) (g : RouterGates F) (r : Option String) (m : Dict (Entry F))
      (p : String × Entry F)
      → (scan g r m no_best).choice ≡ some p
      → Occurs p m × (passes g r p.1 ≡ true) × NoneAbove g r (score_of r p.1) m
  scan-best o g r m p found = elim (scan-choice g r m no_best p found) [
    | inl first ↦ cc
    | inr (member, passed, top) ↦
        (member, passed, subst (λ s. NoneAbove g r s m) top (scan-covers o g r m no_best))
  ]

  selected_none :
      (g : RouterGates F) (c : AssetContext) (regime : Option String) (m : Dict (Entry F))
      (sid : String)
      → (scan g (current_regime regime c) m no_best).choice ≡ none
      → (route g c regime m).strategy_id ≢ some sid
  unfolding route no_trade decide
  selected_none g c regime m sid missing h = ground arith

  -- With scores in a total order, a decision that names a strategy names one of the map, with its family, which is
  -- enabled and passes the status and regime gates, on a context that passes the freshness and quality gates; and no
  -- strategy of the map that passes its gates has a higher score.
  pub route-selects :
      (o : IsOrdered fl) (g : RouterGates F) (c : AssetContext) (regime : Option String)
      (m : Dict (Entry F)) (sid : String)
      → (route g c regime m).strategy_id ≡ some sid
      → (e : Entry F) × Occurs (sid, e) m
        × (passes g (current_regime regime c) e ≡ true)
        × ((g.require_fresh_context && is_stale c) ≡ false)
        × ((data_quality c <F g.min_data_quality) ≡ false)
        × ((route g c regime m).family ≡ e.family)
        × NoneAbove g (current_regime regime c) (score_of (current_regime regime c) e) m
  unfolding route no_trade decide
  route-selects o g c regime m sid h =
      let r = current_regime regime c in
      elim (Option-cases (scan g r m no_best).choice) [
        | inl missing ↦ absurd (selected_none g c regime m sid missing h)
        | inr ((chosen, e), found) ↦
            let (member, passed, top) = scan-best o g r m (chosen, e) found in
            let same : chosen ≡ sid = ground arith in
            (
              e,
              subst (λ s. Occurs (s, e) m) same member,
              passed,
              ground arith,
              ground arith,
              ground arith,
              top,
            )
      ]

  -- With scores in a total order, no strategy is named exactly if a reason is given, and the reason that no strategy
  -- passed its gates means that every strategy of the map fails them, or has no score above -1.
  pub route-no_trade :
      (o : IsOrdered fl) (g : RouterGates F) (c : AssetContext) (regime : Option String)
      (m : Dict (Entry F))
      → (is_some (route g c regime m).strategy_id
          ≡ not (is_some (route g c regime m).no_trade_reason))
        × ((route g c regime m).no_trade_reason ≡ some no_strategy_passed_gates
            → NoneAbove g (current_regime regime c) (whole 0 -F whole 1) m)
  unfolding route no_trade decide
  route-no_trade o g c regime m = (
    ground arith,
    λ h.
        subst (λ s. NoneAbove g (current_regime regime c) s m)
          (ap (λ (b : Best F). b.score)
            (scan-none g (current_regime regime c) m no_best (ground arith)))
          (scan-covers o g (current_regime regime c) m no_best),
  )
