-- ===== src/Paper/Adapter.antt =====
-- The signal adapter: src/trading_bot/paper/signal_adapter.py, on the AlphaSignal of src/trading_bot/research/types.py.
-- Its features and the floor of its stop are left out. It has no field `confidence`, so `getattr` gives its default. Of
-- the adapter's optional arguments the cycle gives none.
pub mod Stops
mod Tests
use bot_crypto.Prelude.{
  ℕ, String, Bool, true, false, ◌&&◌, ◌||◌, Option, none, some, List, [], ◌∷◌, if◌then◌else◌,
}
use bot_crypto.Float.{Float, whole, ◌+F◌, ◌-F◌, ◌*F◌, ◌/F◌, ◌<F◌, ◌≤F◌, ◌==F◌, fabs}
use bot_crypto.Dict.{Dict}
use bot_crypto.Signal.{Signal, Side, buy, sell, checked}

pub data Direction : Type 0 where
  long short : Direction

pub record AlphaSignal (F : Type 0) : Type 0 where
  pub family : String
  pub symbol : String
  pub timestamp : ℕ
  pub direction : Direction
  pub entry_reference : F
  pub structural_stop : F
  pub timeframe : String
  pub metadata : Dict F
  pub effective_stop : Option F

-- A Signal, the AdapterError, or the ValueError of the Signal's own check.
pub data Adapted (F : Type 0) : Type 0 where
  adapted : Signal F → Adapted F
  adapter_error : Adapted F
  signal_error : Adapted F

abbrev pub side_of : Direction → Side
side_of long = buy
side_of short = sell

module _ {F : Type 0} ⦃fl : Float F⦄ where
  -- `__post_init__`: none stands for the ValueError
  pub create : AlphaSignal F → Option (AlphaSignal F)
  create a = if a.entry_reference ≤F whole 0 || a.structural_stop ≤F whole 0 then none else some a

  -- `effective_stop or structural_stop`
  unfoldable pub stop_of : AlphaSignal F → F
  stop_of a = elim a.effective_stop [
    | none ↦ a.structural_stop
    | some s ↦ if s ==F whole 0 then a.structural_stop else s
  ]

  -- `if stop and 0 < float(stop) < price`; a stop of zero fails the second test too
  unfoldable pub derived_stop_pct : F → F → F
  derived_stop_pct stop price =
      if whole 0 <F stop && stop <F price
      then fl.round (fabs (price -F stop) /F price *F whole 100) 4
      else whole 1

  unfoldable pub signal_of : AlphaSignal F → Signal F
  signal_of a = record {
    symbol = a.symbol;
    side = side_of a.direction;
    strategy_name = a.family;
    timeframe = a.timeframe;
    confidence = whole 0;
    price = a.entry_reference;
    stop_loss_pct = some (derived_stop_pct (stop_of a) a.entry_reference);
    take_profit_pct = none;
    metadata = a.metadata;
  }

  unfoldable pub as_adapted : Option (Signal F) → Adapted F
  as_adapted none = signal_error
  as_adapted (some s) = adapted s

  unfoldable pub alpha_signal_to_signal : AlphaSignal F → Adapted F
  unfolding as_adapted
  alpha_signal_to_signal a =
      if a.entry_reference ≤F whole 0 then adapter_error else as_adapted (checked (signal_of a))
