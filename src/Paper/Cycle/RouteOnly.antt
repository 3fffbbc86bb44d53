-- ===== src/Paper/Cycle/RouteOnly.antt =====
-- The engine that routes only: RouteOnlyEngine of src/trading_bot/paper/paper_cycle.py.
use bot_crypto.Prelude.{
  ℕ, ◌+◌, String, ◌≡◌, refl, ◌||◌, not, Option, none, some, List, [], ◌∷◌, arith, filter, is_some,
  if◌then◌else◌, Bool-cases, inl, inr,
}
use bot_crypto.Float.{Float}
use bot_crypto.Dict.{Dict, lookup}
use bot_crypto.Market.Candles.{Ohlcv}
use bot_crypto.Research.Router.{AssetContext, RouterDecision, route, truthy}
use bot_crypto.Paper.Adapter.{AlphaSignal}
use bot_crypto.Paper.Cycle.Stages.{
  CycleStageCounts, no_counts, router_no_trade, context_error, reject, Engine, Request,
}
use bot_crypto.Paper.Cycle.Routing.{
  RoutingState, is_no_trade, is_wanted, family_key, trim_to_pit, keep_matching, keep_alphas,
  generate, follow, consult, route_symbol, route_all, requests,
}

-- The counters that both engines keep agree.
pub record Agrees (c d : CycleStageCounts) : Type 0 where
  contexts_built : c.contexts_built ≡ d.contexts_built
  context_errors : c.context_errors ≡ d.context_errors
  router_invocations : c.router_invocations ≡ d.router_invocations
  router_no_trades : c.router_no_trades ≡ d.router_no_trades
  router_errors : c.router_errors ≡ d.router_errors

module _ {F : Type 0} ⦃fl : Float F⦄ where
  note_decision : Request F → RouterDecision → CycleStageCounts → CycleStageCounts
  note_decision r d c =
      if is_no_trade d || not (is_some (truthy d.strategy_id))
      then reject r.symbol (router_no_trade d.no_trade_reason)
          (record c { router_no_trades = c.router_no_trades + 1 })
      else c

  note_context : Engine F → Request F → Option AssetContext → CycleStageCounts → CycleStageCounts
  unfolding note_decision
  note_context e r none c =
      reject r.symbol context_error (record c { context_errors = c.context_errors + 1 })
  note_context e r (some context) c =
      note_decision r (route e.gates context context.market_regime e.strategy_map) (record c {
        contexts_built = c.contexts_built + 1;
        router_invocations = c.router_invocations + 1;
      })

  pub route_only : Engine F → List (Request F) → CycleStageCounts → CycleStageCounts
  unfolding note_context trim_to_pit
  route_only e [] c = c
  route_only e (r ∷ rs) c = route_only e rs (
      note_context e r
        (e.build_context (e.asset_of r.symbol) (trim_to_pit r.bars r.timestamp) r.timestamp) c)

  pub run_route_only : Engine F → Dict (List (Ohlcv F)) → Dict ℕ → CycleStageCounts
  run_route_only e history timestamps = route_only e (requests e history timestamps) no_counts

  keep_matching-Agrees :
      (r : Request F) (w : Option String) (alphas : List (AlphaSignal F)) (s : RoutingState F)
      (c : CycleStageCounts)
      → Agrees c s.counts
      → Agrees c (keep_matching r w alphas s).counts
  unfolding keep_matching
  keep_matching-Agrees r w [] s c h = record {
    contexts_built = h.contexts_built;
    context_errors = h.context_errors;
    router_invocations = h.router_invocations;
    router_no_trades = h.router_no_trades;
    router_errors = h.router_errors;
  }
  keep_matching-Agrees r w (a ∷ alphas) s c h = h

  keep_alphas-Agrees :
      (r : Request F) (w : Option String) (o : Option (List (AlphaSignal F))) (s : RoutingState F)
      (c : CycleStageCounts)
      → Agrees c s.counts
      → Agrees c (keep_alphas r w o s).counts
  unfolding keep_alphas
  keep_alphas-Agrees r w none s c h = record {
    contexts_built = h.contexts_built;
    context_errors = h.context_errors;
    router_invocations = h.router_invocations;
    router_no_trades = h.router_no_trades;
    router_errors = h.router_errors;
  }
  keep_alphas-Agrees r w (some alphas) s c h =
      keep_matching-Agrees r w (filter (λ a. is_wanted w a.direction) alphas) _ c (record {
        contexts_built = h.contexts_built;
        context_errors = h.context_errors;
        router_invocations = h.router_invocations;
        router_no_trades = h.router_no_trades;
        router_errors = h.router_errors;
      })

  generate-Agrees :
      (r : Request F) (d : RouterDecision)
      (o : Option (List (Ohlcv F) → Option (List (AlphaSignal F)))) (s : RoutingState F)
      (c : CycleStageCounts)
      → Agrees c s.counts
      → Agrees c (generate r d o s).counts
  unfolding generate
  generate-Agrees r d none s c h = record {
    contexts_built = h.contexts_built;
    context_errors = h.context_errors;
    router_invocations = h.router_invocations;
    router_no_trades = h.router_no_trades;
    router_errors = h.router_errors;
  }
  generate-Agrees r d (some family) s c h =
      keep_alphas-Agrees r (truthy d.direction) (family (trim_to_pit r.bars r.timestamp)) _ c
        (record {
          contexts_built = h.contexts_built;
          context_errors = h.context_errors;
          router_invocations = h.router_invocations;
          router_no_trades = h.router_no_trades;
          router_errors = h.router_errors;
        })

  follow-Agrees :
      (e : Engine F) (r : Request F) (d : RouterDecision) (s : RoutingState F)
      (c : CycleStageCounts)
      → Agrees c s.counts
      → Agrees (note_decision r d c) (follow e r d s).counts
  unfolding note_decision follow
  follow-Agrees e r d s c h =
      elim (Bool-cases (is_no_trade d || not (is_some (truthy d.strategy_id)))) [
        | inl k ↦ rw k (record {
          contexts_built = h.contexts_built;
          context_errors = h.context_errors;
          router_invocations = h.router_invocations;
          router_no_trades = omega (arith, h.router_no_trades);
          router_errors = h.router_errors;
        })
        | inr k ↦ rw k (generate-Agrees r d (lookup (family_key d.family) e.families) s c h)
      ]

  consult-Agrees :
      (e : Engine F) (r : Request F) (o : Option AssetContext) (s : RoutingState F)
      (c : CycleStageCounts)
      → Agrees c s.counts
      → Agrees (note_context e r o c) (consult e r o s).counts
  unfolding note_context consult
  consult-Agrees e r none s c h = record {
    contexts_built = h.contexts_built;
    context_errors = omega (arith, h.context_errors);
    router_invocations = h.router_invocations;
    router_no_trades = h.router_no_trades;
    router_errors = h.router_errors;
  }
  consult-Agrees e r (some context) s c h =
      follow-Agrees e r (route e.gates context context.market_regime e.strategy_map) _ _ (record {
        contexts_built = omega (arith, h.contexts_built);
        context_errors = h.context_errors;
        router_invocations = omega (arith, h.router_invocations);
        router_no_trades = h.router_no_trades;
        router_errors = h.router_errors;
      })

  route_all-Agrees :
      (e : Engine F) (rs : List (Request F)) (s : RoutingState F) (c : CycleStageCounts)
      → Agrees c s.counts
      → Agrees (route_only e rs c) (route_all e rs s).counts
  unfolding route_all route_symbol route_only
  route_all-Agrees e [] s c h = h
  route_all-Agrees e (r ∷ rs) s c h = route_all-Agrees e rs _ _ (
      consult-Agrees e r
        (e.build_context (e.asset_of r.symbol) (trim_to_pit r.bars r.timestamp) r.timestamp) s c h)

  -- The engine that only routes counts the same contexts, context errors, router calls, NO_TRADE decisions and router
  -- errors as the first stage of the engine that trades does on the same history.
  pub run_route_only-Agrees :
      (e : Engine F) (history : Dict (List (Ohlcv F))) (timestamps : Dict ℕ)
      → Agrees
          (run_route_only e history timestamps)
          (route_all e
            (requests e history timestamps)
            (record { counts = no_counts; routed = [] })).counts
  unfolding run_route_only
  run_route_only-Agrees e history timestamps =
      route_all-Agrees e (requests e history timestamps) _ no_counts (record {
        contexts_built = refl;
        context_errors = refl;
        router_invocations = refl;
        router_no_trades = refl;
        router_errors = refl;
      })
