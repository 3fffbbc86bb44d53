-- ===== src/Research/Admission/Tests.antt =====
-- Three long signals where two positions may be open in one direction.
use bot_crypto.Prelude.{◌≡◌, refl, true, false, none, String, List, [], ◌∷◌}
use bot_crypto.Prelude.Int.{ℤ, pos}
use bot_crypto.Float.{whole}
use bot_crypto.Float.Integers.{integers}
use bot_crypto.Dict.{keys}
use bot_crypto.Risk.Policy.{Risk}
use bot_crypto.Paper.Adapter.{AlphaSignal, long}
use bot_crypto.Research.Admission.{
  Act, offer_act, run, act, open_if, create, gate, check_signal, answer, block, record_open,
  max_per_direction, daily_loss_reached, event_of,
}
use bot_crypto.Research.Admission.Limits.{IsLimited, run-IsLimited}

abbrev alpha : String → AlphaSignal ℤ
alpha symbol = record {
  family = "trend";
  symbol = symbol;
  timestamp = 7;
  direction = long;
  entry_reference = pos 10;
  structural_stop = pos 9;
  timeframe = "5m";
  metadata = [];
  effective_stop = none;
}

abbrev policy : Risk ℤ
policy = record {
  max_risk_per_trade_pct = whole 1;
  max_daily_loss_pct = whole 3;
  max_weekly_loss_pct = whole 6;
  max_daily_drawdown_pct = whole 5;
  max_total_drawdown_pct = whole 10;
  max_open_positions = 4;
  max_trades_per_day = 20;
  max_consecutive_losses = 3;
  consecutive_loss_cooldown_minutes = 60;
  max_asset_exposure_pct = whole 20;
  max_total_exposure_pct = whole 50;
  min_order_notional_usdt = whole 10;
  max_order_notional_usdt = whole 1000;
  default_stop_loss_pct = whole 1;
  default_take_profit_pct = whole 2;
  kill_switch_enabled = true;
  live_trading_enabled = false;
}

abbrev acts : List (Act ℤ)
acts =
    offer_act (alpha "BTC") none ∷ offer_act (alpha "ETH") none ∷ offer_act (alpha "SOL") none ∷ []

two_open : keys (run acts (create policy (whole 2000))).state.open_positions ≡ "BTC" ∷ "ETH" ∷ []
unfolding run act open_if create gate check_signal answer block record_open max_per_direction
    daily_loss_reached event_of
two_open = refl

run-IsLimited_example : IsLimited policy (run acts (create policy (whole 2000)))
run-IsLimited_example = run-IsLimited policy (whole 2000) acts
