-- ===== src/Research/Router/Tests.antt =====
-- The router on a map of three strategies.
use bot_crypto.Prelude.{Occurs, String, ◌≡◌, refl, true, false, ◌&&◌, none, some, List, [], ◌∷◌}
use bot_crypto.Prelude.Int.{ℤ}
use bot_crypto.Float.{whole, ◌<F◌}
use bot_crypto.Float.Fixed.{fixed, fixed-IsOrdered}
use bot_crypto.Dict.{Dict}
use bot_crypto.Research.Router.{
  AssetContext, Entry, RouterGates, route, is_stale, data_quality, current_regime, passes, score_of,
  scan, consider, no_trade, decide,
}
use bot_crypto.Research.Router.Choice.{NoneAbove, route-selects}

abbrev context : AssetContext
context = record {
  asset = "BTC";
  timestamp = 1_000_000;
  market_regime = some "TREND_UP";
  bars_in_window = some 90;
  window_end_ts = 900_000;
}

abbrev entry : String → List String → Entry ℤ
entry status regimes = record {
  family = some "momentum";
  regimes = regimes;
  direction = "LONG";
  enabled = true;
  status = status;
  priority = none;
}

abbrev strategies : Dict (Entry ℤ)
strategies =
    ("any", entry "CONFIRMED" [])
    ∷ ("pending", entry "PENDING" ("TREND_UP" ∷ []))
    ∷ ("trend", entry "CONFIRMED" ("TREND_UP" ∷ []))
    ∷ []

abbrev gates : RouterGates ℤ
gates = record {
  require_confirmed = true;
  require_regime_match = true;
  min_data_quality = whole 0;
  require_fresh_context = true;
}

trend_selected : (route gates context none strategies).strategy_id ≡ some "trend"
unfolding route is_stale data_quality current_regime passes score_of scan consider no_trade decide
trend_selected = refl

route-selects_example :
    (e : Entry ℤ) × Occurs ("trend", e) strategies
    × (passes gates (current_regime none context) e ≡ true)
    × ((gates.require_fresh_context && is_stale context) ≡ false)
    × ((data_quality context <F gates.min_data_quality) ≡ false)
    × ((route gates context none strategies).family ≡ e.family)
    × NoneAbove gates
        (current_regime none context)
        (score_of (current_regime none context) e)
        strategies
route-selects_example =
    route-selects fixed-IsOrdered gates context none strategies "trend" trend_selected
