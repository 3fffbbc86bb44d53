-- ===== src/Paper/Recovery/Outcomes.antt =====
-- Every open trade of the journal has exactly one outcome.
use bot_crypto.Prelude.{
  String, ◌+◌, ◌≡◌, refl, sym, ap, Bool, not, ◌&&◌, List, [], ◌∷◌, ◌++◌, map, arith, is_some,
  length, filter, inl, inr, Option-cases,
}
use mathlib.Core.List.{append-nil, append_assoc}
use bot_crypto.Float.{Float}
use bot_crypto.Dict.{Dict, lookup}
use bot_crypto.Execution.CostModel.{ExecutionCostModel}
use bot_crypto.Paper.Recovery.{
  JournalTrade, OrphanCloseResult, StartupRecoveryReport, member, usable_price, close_orphan,
  compute_orphan_reconciliation_close, recover_trade, recover_all, recover_startup_positions,
  empty_report,
}

module _ {F : Type 0} ⦃fl : Float F⦄ (cm : ExecutionCostModel F) (broker : List String)
    (prices : Dict F) where
  abbrev pub is_alive : JournalTrade F → Bool
  is_alive t = member t.symbol broker

  abbrev pub has_price : JournalTrade F → Bool
  has_price t = is_some (usable_price (lookup t.symbol prices))

  abbrev pub ids : List (JournalTrade F) → List String
  ids ts = map (λ t. t.trade_id) ts

  abbrev pub closed_ids : List (OrphanCloseResult F) → List String
  closed_ids cs = map (λ c. c.trade_id) cs

  closed_ids-append :
      (cs : List (OrphanCloseResult F)) (c : OrphanCloseResult F)
      → closed_ids (cs ++ c ∷ []) ≡ closed_ids cs ++ c.trade_id ∷ []
  closed_ids-append [] c = refl
  closed_ids-append (d ∷ cs) c = ap (λ l. d.trade_id ∷ l) (closed_ids-append cs c)

  abbrev closable : JournalTrade F → Bool
  closable t = not (is_alive t) && has_price t

  abbrev lost : JournalTrade F → Bool
  lost t = not (is_alive t) && not (has_price t)

  recover_all-restored :
      (ts : List (JournalTrade F)) (r : StartupRecoveryReport F)
      → (recover_all cm broker prices ts r).restored ≡ r.restored ++ ids (filter is_alive ts)
  unfolding recover_all recover_trade close_orphan
  recover_all-restored [] r = sym (append-nil r.restored)
  recover_all-restored (t ∷ ts) r = ground (
    arith,
    recover_all-restored ts (recover_trade cm broker prices t r),
    append_assoc r.restored (t.trade_id ∷ []) (ids (filter is_alive ts)),
  )

  recover_all-errors :
      (ts : List (JournalTrade F)) (r : StartupRecoveryReport F)
      → (recover_all cm broker prices ts r).errors ≡ r.errors ++ ids (filter lost ts)
  unfolding recover_all recover_trade close_orphan
  recover_all-errors [] r = sym (append-nil r.errors)
  recover_all-errors (t ∷ ts) r = ground (
    arith,
    recover_all-errors ts (recover_trade cm broker prices t r),
    append_assoc r.errors (t.trade_id ∷ []) (ids (filter lost ts)),
  )

  recover_all-closes :
      (ts : List (JournalTrade F)) (r : StartupRecoveryReport F)
      → closed_ids (recover_all cm broker prices ts r).orphan_closes
        ≡ closed_ids r.orphan_closes ++ ids (filter closable ts)
  unfolding recover_all recover_trade close_orphan compute_orphan_reconciliation_close
  recover_all-closes [] r = sym (append-nil (closed_ids r.orphan_closes))
  recover_all-closes (t ∷ ts) r =
      let rest = recover_all-closes ts (recover_trade cm broker prices t r) in
      let joined =
        append_assoc (closed_ids r.orphan_closes) (t.trade_id ∷ []) (ids (filter closable ts)) in
      elim (Option-cases (usable_price (lookup t.symbol prices))) [
        | inl missing ↦ ground (arith, rest)
        | inr (p, found) ↦ ground (
          arith,
          rest,
          joined,
          closed_ids-append r.orphan_closes (compute_orphan_reconciliation_close t p cm),
        )
      ]

  recover_all-matched :
      (ts : List (JournalTrade F)) (r : StartupRecoveryReport F)
      → (recover_all cm broker prices ts r).matched ≡ r.matched
  unfolding recover_all recover_trade close_orphan
  recover_all-matched [] r = refl
  recover_all-matched (t ∷ ts) r =
      ground (arith, recover_all-matched ts (recover_trade cm broker prices t r))

  outcomes-split :
      (ts : List (JournalTrade F))
      → length (filter is_alive ts) + length (filter closable ts) + length (filter lost ts)
        ≡ length ts
  outcomes-split [] = ground arith
  outcomes-split (t ∷ ts) = ground (arith, outcomes-split ts)

  -- Every open trade of the journal has exactly one outcome, and each list keeps the journal's order: a trade that the
  -- broker has is restored, another with a positive market price is closed, and any other is an error; none is matched.
  pub recover_partition :
      (trades : List (JournalTrade F)) (now : F)
      → let r = recover_startup_positions cm trades broker prices now in
        (r.restored ≡ ids (filter is_alive trades))
        × (closed_ids r.orphan_closes ≡ ids (filter (λ t. not (is_alive t) && has_price t) trades))
        × (r.errors ≡ ids (filter (λ t. not (is_alive t) && not (has_price t)) trades))
        × (length (filter is_alive trades)
              + length (filter (λ t. not (is_alive t) && has_price t) trades)
              + length (filter (λ t. not (is_alive t) && not (has_price t)) trades)
            ≡ length trades)
        × (r.matched ≡ [])
  unfolding recover_startup_positions
  recover_partition trades now = (
    recover_all-restored trades (empty_report now),
    recover_all-closes trades (empty_report now),
    recover_all-errors trades (empty_report now),
    outcomes-split trades,
    recover_all-matched trades (empty_report now),
  )
