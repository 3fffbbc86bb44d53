-- ===== src/Paper/Broker/Ledger.antt =====
-- The closed trades of the broker are a ledger: an operation only adds at the end.
use bot_crypto.Prelude.{
  ◌≡◌, refl, sym, ap, ◌∙◌, Bool, String, Option, none, some, List, [], ◌∷◌, ◌++◌, Bool-cases, inl,
  inr,
}
use mathlib.Core.List.{append-nil, append_assoc}
use bot_crypto.Float.{Float}
use bot_crypto.Dict.{lookup, keys}
use bot_crypto.Signal.{Signal, same_side}
use bot_crypto.Paper.Broker.Types.{PaperBroker, PaperPosition, ClosedTrade, ExitReason, signal}
use bot_crypto.Paper.Broker.Orders.{
  ExitRule, execute_signal, meet, as_closed, open_new, close_position, visit, visit_found, close_by,
  note_event, sweep, reconcile_session, check_positions, price_map, price_rule,
}

module _ {F : Type 0} where
  -- The closed trades of the second broker are those of the first, and then others.
  abbrev pub Grows : PaperBroker F → PaperBroker F → Type 0
  Grows b b' = (ts : List (ClosedTrade F)) × (b'.closed_trades ≡ b.closed_trades ++ ts)

  pub Grows-refl : (b : PaperBroker F) → Grows b b
  Grows-refl b = ([], sym (append-nil b.closed_trades))

  pub Grows-trans : (a b c : PaperBroker F) → Grows a b → Grows b c → Grows a c
  Grows-trans a b c (ts, h) (us, k) =
      (ts ++ us, k ∙ ap (λ x. x ++ us) h ∙ append_assoc a.closed_trades ts us)

module _ {F : Type 0} ⦃fl : Float F⦄ where
  close_position-Grows :
      (symbol : String) (price : F) (reason : ExitReason) (now : F) (p : PaperPosition F)
      (b : PaperBroker F)
      → Grows b (close_position symbol price reason now p b).0
  unfolding close_position
  close_position-Grows symbol price reason now p b = (_, refl)

  meet-Grows :
      (s : Signal F) (now : F) (b : PaperBroker F) (o : Option (PaperPosition F))
      → Grows b (meet s now b o).0
  unfolding meet open_new as_closed
  meet-Grows s now b none = Grows-refl b
  meet-Grows s now b (some p) = elim (Bool-cases (same_side p.side s.side)) [
    | inl e ↦ rw e (Grows-refl b)
    | inr e ↦ rw e (close_position-Grows s.symbol s.price signal now p b)
  ]

  pub execute_signal-Grows :
      (s : Signal F) (now : F) (b : PaperBroker F) → Grows b (execute_signal s now b).0
  unfolding execute_signal
  execute_signal-Grows s now b = meet-Grows s now b (lookup s.symbol b.positions)

  close_by-Grows :
      (ohlc : Bool) (now : F) (symbol : String) (p : PaperPosition F) (b : PaperBroker F)
      (o : Option (ExitReason × F))
      → Grows b (close_by ohlc now symbol p b o).0
  unfolding close_by note_event
  close_by-Grows ohlc now symbol p b none = Grows-refl b
  close_by-Grows ohlc now symbol p b (some (reason, price)) =
      close_position-Grows symbol price reason now p b

  visit_found-Grows :
      (rule : ExitRule F) (ohlc : Bool) (now : F) (symbol : String) (b : PaperBroker F)
      (o : Option (PaperPosition F))
      → Grows b (visit_found rule ohlc now symbol b o).0
  unfolding visit_found
  visit_found-Grows rule ohlc now symbol b none = Grows-refl b
  visit_found-Grows rule ohlc now symbol b (some p) =
      close_by-Grows ohlc now symbol p b (rule symbol p)

  sweep-Grows :
      (rule : ExitRule F) (ohlc : Bool) (now : F) (ks : List String) (b : PaperBroker F)
      → Grows b (sweep rule ohlc now ks b).0
  unfolding sweep visit
  sweep-Grows rule ohlc now [] b = Grows-refl b
  sweep-Grows rule ohlc now (k ∷ ks) b =
      Grows-trans b (visit rule ohlc now k b).0
        (sweep rule ohlc now ks (visit rule ohlc now k b).0).0
        (visit_found-Grows rule ohlc now k b (lookup k b.positions))
        (sweep-Grows rule ohlc now ks (visit rule ohlc now k b).0)

  pub reconcile_session-Grows :
      (snaps : List (String × Option F)) (now : F) (b : PaperBroker F)
      → Grows b (reconcile_session snaps now b).0
  unfolding reconcile_session check_positions
  reconcile_session-Grows snaps now b =
      sweep-Grows (price_rule (price_map snaps [])) _ now (keys b.positions) b
