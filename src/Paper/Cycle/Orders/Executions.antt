-- ===== src/Paper/Cycle/Orders/Executions.antt =====
-- What the execution of an approved signal makes of the broker, as paper_cycle.py calls it.
use bot_crypto.Prelude.{
  ◌+◌, ◌≡◌, refl, subst, true, false, Option, none, some, inl, inr, arith, Bool-cases, eq_iff,
  if◌then◌else◌,
}
use bot_crypto.Float.{Float, whole, ◌*F◌, ◌/F◌, ◌≤F◌}
use bot_crypto.Dict.{lookup, insert, lookup-insert}
use bot_crypto.Signal.{Signal, same_side, or_default}
use bot_crypto.Risk.Manager.{PositionSize}
use bot_crypto.Paper.Broker.{
  PaperPosition, PaperBroker, signal, meet, open_new, as_closed, close_position, new_position,
  order_notional, execute_signal,
}
use bot_crypto.Paper.Broker.Signals.{is_fill}
use bot_crypto.Paper.Cycle.Orders.{approved_signal}

module _ {F : Type 0} ⦃fl : Float F⦄ where
  -- What an execution of signal `s` at the approved size makes of the broker. An execution on a symbol without a
  -- position opens one, of the approved notional, stop and profit target (1% of the equity for a notional that is not
  -- positive, and 1% or 2% for a stop or target of zero); an execution against a position of the other side closes
  -- that position whole, whatever the size.
  pub data Executes (s : Signal F) (size : PositionSize F) (now : F) (b : PaperBroker F)
      : PaperBroker F → Type 0 where
    opens :
        (p : PaperPosition F)
        → lookup s.symbol b.positions ≡ none
        → p.symbol ≡ s.symbol
        → p.side ≡ s.side
        → p.notional_usdt ≡ (
            if size.notional_usdt ≤F whole 0
            then b.equity *F fl.decimal 1 100
            else size.notional_usdt)
        → p.quantity ≡ p.notional_usdt /F p.entry_price
        → p.stop_loss_pct ≡ or_default (some size.stop_loss_pct) (whole 1)
        → p.take_profit_pct ≡ or_default (some size.take_profit_pct) (whole 2)
        → Executes s size now b (record b {
          positions = insert s.symbol p b.positions;
          fills_opened = b.fills_opened + 1;
        })
    closes :
        (p : PaperPosition F)
        → lookup s.symbol b.positions ≡ some p
        → same_side p.side s.side ≡ false
        → Executes s size now b (close_position s.symbol s.price signal now p b).0

  meet-Executes :
      (s : Signal F) (size : PositionSize F) (now : F) (b : PaperBroker F)
      (o : Option (PaperPosition F))
      → lookup s.symbol b.positions ≡ o
      → is_fill (meet (approved_signal s size) now b o).1 ≡ true
      → Executes s size now b (meet (approved_signal s size) now b o).0
  unfolding meet open_new as_closed close_position new_position order_notional approved_signal
  meet-Executes s size now b none e h =
      opens (new_position (approved_signal s size) now b) e refl refl
        (ground (
          arith,
          lookup-insert "notional_usdt" "notional_usdt" size.notional_usdt s.metadata,
          eq_iff "notional_usdt" "notional_usdt",
        ))
        refl refl refl
  meet-Executes s size now b (some p) found h = elim (Bool-cases (same_side p.side s.side)) [
    | inl q ↦ ground (arith, h, q)
    | inr q ↦
        let e : (close_position s.symbol s.price signal now p b).0
            ≡ (meet (approved_signal s size) now b (some p)).0 =
          ground (arith, q) in
        subst (Executes s size now b) e (closes p found q)
  ]

  pub execute_signal-Executes :
      (s : Signal F) (size : PositionSize F) (now : F) (b : PaperBroker F)
      → is_fill (execute_signal (approved_signal s size) now b).1 ≡ true
      → Executes s size now b (execute_signal (approved_signal s size) now b).0
  unfolding execute_signal approved_signal
  execute_signal-Executes s size now b h =
      meet-Executes s size now b (lookup s.symbol b.positions) refl h
