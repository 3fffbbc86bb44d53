-- ===== src/Paper/Cycle/Routing.antt =====
-- The first stage of the cycle: a context per symbol, the router, and the alpha signals of the chosen family.
pub mod Requests
pub mod Sums
pub mod PointInTime
use bot_crypto.Prelude.{
  ℕ, ◌+◌, String, Bool, true, false, ◌||◌, Option, none, some, List, [], ◌∷◌, ◌++◌, map, leb,
  str_eq, filter, length, is_empty, is_some, not, if◌then◌else◌,
}
use bot_crypto.Float.{Float}
use bot_crypto.Dict.{Dict, lookup, keys}
use bot_crypto.Market.Candles.{Ohlcv}
use bot_crypto.Research.Router.{AssetContext, RouterDecision, NoTradeReason, route, truthy}
use bot_crypto.Paper.Adapter.{AlphaSignal, Direction, long, short}
use bot_crypto.Paper.Cycle.Stages.{
  CycleStageCounts, Reason, context_error, router_no_trade, strategy_family_not_found,
  strategy_error, strategy_no_alpha, reject, Engine, Request, Routed,
}

-- `str(alpha.direction).upper()`
abbrev pub direction_text : Direction → String
direction_text long = "LONG"
direction_text short = "SHORT"

-- `wanted == "ANY" or ...`: the router gives no other direction than "LONG", "SHORT" or None
unfoldable pub is_wanted : Option String → Direction → Bool
is_wanted none d = true
is_wanted (some w) d = str_eq (direction_text d) w

-- `decision.family or ""`
abbrev pub family_key : Option String → String
family_key none = ""
family_key (some f) = f

-- The property of the router's decision.
unfoldable pub is_no_trade : RouterDecision → Bool
is_no_trade d = not (is_some d.strategy_id)

pub record RoutingState (F : Type 0) : Type 0 where
  pub counts : CycleStageCounts
  pub routed : List (Routed F)

module _ {F : Type 0} where
  unfoldable pub trim_to_pit : List (Ohlcv F) → ℕ → List (Ohlcv F)
  trim_to_pit bars ts = filter (λ b. leb b.timestamp ts) bars

  abbrev drop_symbol : String → Reason → RoutingState F → RoutingState F
  drop_symbol symbol reason s = record s { counts = reject symbol reason s.counts }

  unfoldable pub as_routed : Request F → AlphaSignal F → Routed F
  as_routed r a = record { symbol = r.symbol; alpha = a; timestamp = r.timestamp }

  unfoldable pub keep_matching :
      Request F → Option String → List (AlphaSignal F) → RoutingState F → RoutingState F
  unfolding as_routed
  keep_matching r wanted [] s = drop_symbol r.symbol (strategy_no_alpha wanted) s
  keep_matching r wanted (a ∷ alphas) s = record s {
    routed = s.routed ++ map (as_routed r) (a ∷ alphas);
  }

  -- What the family gave: none for an exception.
  unfoldable pub keep_alphas :
      Request F → Option String → Option (List (AlphaSignal F)) → RoutingState F → RoutingState F
  unfolding keep_matching is_wanted
  keep_alphas r wanted none s =
      drop_symbol r.symbol strategy_error
        (record s { counts = record s.counts { strategy_errors = s.counts.strategy_errors + 1 } })
  keep_alphas r wanted (some alphas) s =
      keep_matching r wanted (filter (λ a. is_wanted wanted a.direction) alphas) (record s {
        counts = record s.counts { signals_generated = s.counts.signals_generated + length alphas };
      })

  -- `self._families.get(...)`: none is a family that is missing
  unfoldable pub generate :
      Request F
      → RouterDecision
      → Option (List (Ohlcv F) → Option (List (AlphaSignal F)))
      → RoutingState F
      → RoutingState F
  unfolding keep_alphas trim_to_pit
  generate r d none s =
      drop_symbol r.symbol (strategy_family_not_found d.family)
        (record s { counts = record s.counts { strategy_errors = s.counts.strategy_errors + 1 } })
  generate r d (some family) s =
      keep_alphas r (truthy d.direction) (family (trim_to_pit r.bars r.timestamp)) (record s {
        counts = record s.counts { strategy_invocations = s.counts.strategy_invocations + 1 };
      })

module _ {F : Type 0} ⦃fl : Float F⦄ where
  unfoldable pub follow : Engine F → Request F → RouterDecision → RoutingState F → RoutingState F
  unfolding generate is_no_trade
  follow e r d s =
      if is_no_trade d || not (is_some (truthy d.strategy_id))
      then drop_symbol r.symbol (router_no_trade d.no_trade_reason) (record s {
        counts = record s.counts { router_no_trades = s.counts.router_no_trades + 1 };
      })
      else generate r d (lookup (family_key d.family) e.families) s

  unfoldable pub consult :
      Engine F → Request F → Option AssetContext → RoutingState F → RoutingState F
  unfolding follow
  consult e r none s =
      drop_symbol r.symbol context_error
        (record s { counts = record s.counts { context_errors = s.counts.context_errors + 1 } })
  consult e r (some context) s =
      follow e r (route e.gates context context.market_regime e.strategy_map) (record s {
        counts = record s.counts {
          contexts_built = s.counts.contexts_built + 1;
          router_invocations = s.counts.router_invocations + 1;
        };
      })

  unfoldable pub route_symbol : Engine F → Request F → RoutingState F → RoutingState F
  unfolding consult trim_to_pit
  route_symbol e r s =
      consult e r
        (e.build_context (e.asset_of r.symbol) (trim_to_pit r.bars r.timestamp) r.timestamp) s

  unfoldable pub route_all : Engine F → List (Request F) → RoutingState F → RoutingState F
  route_all e [] s = s
  route_all e (r ∷ rs) s = route_all e rs (route_symbol e r s)

  -- `history.get(symbol, [])` and `decision_timestamps.get(symbol, 0)`
  unfoldable pub request : Dict (List (Ohlcv F)) → Dict ℕ → String → Request F
  request history timestamps symbol = record {
    symbol = symbol;
    bars = elim (lookup symbol history) [ none ↦ [] | some bars ↦ bars ];
    timestamp = elim (lookup symbol timestamps) [ none ↦ 0 | some ts ↦ ts ];
  }

  -- `for symbol in sorted(history)`
  unfoldable pub requests : Engine F → Dict (List (Ohlcv F)) → Dict ℕ → List (Request F)
  requests e history timestamps = map (request history timestamps) (e.sorted (keys history))
