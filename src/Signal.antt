-- ===== src/Signal.antt =====
-- The canonical signal: src/trading_bot/strategies/types.py. Of the metadata only the entry
-- "notional_usdt" is read, so a signal carries its numeric entries.
use bot_crypto.Prelude.{String, Bool, ◌&&◌, Option, none, some, if◌then◌else◌}
use bot_crypto.Float.{Float, whole, ◌≤F◌, ◌==F◌}
use bot_crypto.Dict.{Dict}

pub data Side : Type 0 where
  buy sell : Side

pub record Signal (F : Type 0) : Type 0 where
  pub symbol : String
  pub side : Side
  pub strategy_name : String
  pub timeframe : String
  pub confidence : F
  pub price : F
  pub stop_loss_pct : Option F
  pub take_profit_pct : Option F
  pub metadata : Dict F

-- `self.side == other.side`
abbrev pub same_side : Side → Side → Bool
same_side buy buy = Bool.true
same_side sell sell = Bool.true
same_side a b = Bool.false

module _ {F : Type 0} ⦃fl : Float F⦄ where
  -- `x or d`, for an optional float: None and 0.0 give the default
  abbrev pub or_default : Option F → F → F
  or_default none d = d
  or_default (some x) d = if x ==F whole 0 then d else x

  -- `__post_init__`: None stands for the ValueError
  unfoldable pub checked : Signal F → Option (Signal F)
  checked s = if whole 0 ≤F s.confidence && s.confidence ≤F whole 1 then some s else none
