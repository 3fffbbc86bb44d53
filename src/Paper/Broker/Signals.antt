-- ===== src/Paper/Broker/Signals.antt =====
-- The outcomes of execute_signal of src/trading_bot/paper/broker.py.
use bot_crypto.Prelude.{◌≡◌, Bool, true, false, Option, none, some, arith}
use bot_crypto.Float.{Float}
use bot_crypto.Dict.{lookup}
use bot_crypto.Signal.{Signal}
use bot_crypto.Paper.Broker.Types.{PaperBroker, PaperPosition}
use bot_crypto.Paper.Broker.Orders.{
  Execution, closed, opened, skipped, execute_signal, meet, as_closed, open_new,
}

-- Whether a position was opened or closed.
module _ {F : Type 0} where
  abbrev pub is_fill : Execution F → Bool
  is_fill (closed trade) = true
  is_fill (opened position) = true
  is_fill skipped = false

module _ {F : Type 0} ⦃fl : Float F⦄ where
  meet-unfilled :
      (s : Signal F) (now : F) (b : PaperBroker F) (o : Option (PaperPosition F))
      → is_fill (meet s now b o).1 ≡ false
      → (meet s now b o).0 ≡ b
  unfolding meet as_closed open_new
  meet-unfilled s now b none h = ground arith
  meet-unfilled s now b (some p) h = ground arith

  pub execute_signal-unfilled :
      (s : Signal F) (now : F) (b : PaperBroker F)
      → is_fill (execute_signal s now b).1 ≡ false
      → (execute_signal s now b).0 ≡ b
  unfolding execute_signal
  execute_signal-unfilled s now b h = meet-unfilled s now b (lookup s.symbol b.positions) h
