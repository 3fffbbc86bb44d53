-- ===== src/Paper/Cycle/Routing/Sums.antt =====
-- The counters of the first stage.
use bot_crypto.Prelude.{
  ℕ, suc, ◌+◌, ◌≤◌, ◌≡◌, refl, subst, String, Option, none, some, List, [], ◌∷◌, arith, length,
  filter, is_some, not, ◌||◌, Bool-cases, inl, inr,
}
use bot_crypto.Float.{Float}
use bot_crypto.Dict.{lookup}
use bot_crypto.Market.Candles.{Ohlcv}
use bot_crypto.Research.Router.{AssetContext, RouterDecision, route, truthy}
use bot_crypto.Paper.Adapter.{AlphaSignal}
use bot_crypto.Paper.Cycle.Stages.{CycleStageCounts, no_counts, Engine, Request}
use bot_crypto.Paper.Cycle.Routing.{
  RoutingState, trim_to_pit, is_wanted, is_no_trade, family_key, keep_matching, keep_alphas,
  generate, follow, consult, route_symbol, route_all,
}

-- After `n` symbols each gave one context or one error, and each context one call of the router. All these calls but
-- `pending` had one of three outcomes: NO_TRADE, a missing family, or a family that was called. No later stage counted.
pub record IsTallied (pending n : ℕ) (c : CycleStageCounts) : Type 0 where
  pub contexts : c.contexts_built + c.context_errors ≡ n
  pub routed : c.router_invocations ≡ c.contexts_built
  pub decided : c.router_no_trades + c.strategy_invocations + pending ≤ c.router_invocations
  pub explained :
      c.router_invocations
      ≤ c.router_no_trades + c.strategy_invocations + c.strategy_errors + pending
  pub later :
      c.adapter_errors + c.duplicate_intents + c.risk_accepted + c.risk_rejections + c.risk_errors
      ≡ 0
  pub orders : c.orders_created ≡ 0

module _ {F : Type 0} where
  keep_matching-IsTallied :
      (n : ℕ) (r : Request F) (w : Option String) (alphas : List (AlphaSignal F))
      (s : RoutingState F)
      → IsTallied 0 n s.counts
      → IsTallied 0 n (keep_matching r w alphas s).counts
  unfolding keep_matching
  keep_matching-IsTallied n r w [] s h = record {
    contexts = h.contexts;
    routed = h.routed;
    decided = h.decided;
    explained = h.explained;
    later = h.later;
    orders = h.orders;
  }
  keep_matching-IsTallied n r w (a ∷ alphas) s h = h

  keep_alphas-IsTallied :
      (n : ℕ) (r : Request F) (w : Option String) (o : Option (List (AlphaSignal F)))
      (s : RoutingState F)
      → IsTallied 0 n s.counts
      → IsTallied 0 n (keep_alphas r w o s).counts
  unfolding keep_alphas
  keep_alphas-IsTallied n r w none s h = record {
    contexts = h.contexts;
    routed = h.routed;
    decided = h.decided;
    explained = omega (arith, h.explained);
    later = h.later;
    orders = h.orders;
  }
  keep_alphas-IsTallied n r w (some alphas) s h =
      keep_matching-IsTallied n r w (filter (λ a. is_wanted w a.direction) alphas) _ (record {
        contexts = h.contexts;
        routed = h.routed;
        decided = h.decided;
        explained = h.explained;
        later = h.later;
        orders = h.orders;
      })

  generate-IsTallied :
      (n : ℕ) (r : Request F) (d : RouterDecision)
      (o : Option (List (Ohlcv F) → Option (List (AlphaSignal F)))) (s : RoutingState F)
      → IsTallied 1 n s.counts
      → IsTallied 0 n (generate r d o s).counts
  unfolding generate
  generate-IsTallied n r d none s h = record {
    contexts = h.contexts;
    routed = h.routed;
    decided = omega (arith, h.decided);
    explained = omega (arith, h.explained);
    later = h.later;
    orders = h.orders;
  }
  generate-IsTallied n r d (some family) s h =
      keep_alphas-IsTallied n r (truthy d.direction) (family (trim_to_pit r.bars r.timestamp)) _
        (record {
          contexts = h.contexts;
          routed = h.routed;
          decided = omega (arith, h.decided);
          explained = omega (arith, h.explained);
          later = h.later;
          orders = h.orders;
        })

module _ {F : Type 0} ⦃fl : Float F⦄ where
  follow-IsTallied :
      (n : ℕ) (e : Engine F) (r : Request F) (d : RouterDecision) (s : RoutingState F)
      → IsTallied 1 n s.counts
      → IsTallied 0 n (follow e r d s).counts
  unfolding follow
  follow-IsTallied n e r d s h =
      elim (Bool-cases (is_no_trade d || not (is_some (truthy d.strategy_id)))) [
        | inl k ↦ rw k (record {
          contexts = h.contexts;
          routed = h.routed;
          decided = omega (arith, h.decided);
          explained = omega (arith, h.explained);
          later = h.later;
          orders = h.orders;
        })
        | inr k ↦ rw k (generate-IsTallied n r d (lookup (family_key d.family) e.families) s h)
      ]

  consult-IsTallied :
      (n : ℕ) (e : Engine F) (r : Request F) (o : Option AssetContext) (s : RoutingState F)
      → IsTallied 0 n s.counts
      → IsTallied 0 (suc n) (consult e r o s).counts
  unfolding consult
  consult-IsTallied n e r none s h = record {
    contexts = omega (arith, h.contexts);
    routed = h.routed;
    decided = h.decided;
    explained = h.explained;
    later = h.later;
    orders = h.orders;
  }
  consult-IsTallied n e r (some context) s h =
      follow-IsTallied (suc n) e r (route e.gates context context.market_regime e.strategy_map) _
        (record {
          contexts = omega (arith, h.contexts);
          routed = omega (arith, h.routed);
          decided = omega (arith, h.decided);
          explained = omega (arith, h.explained);
          later = h.later;
          orders = h.orders;
        })

  route_all-IsTallied :
      (n : ℕ) (e : Engine F) (rs : List (Request F)) (s : RoutingState F)
      → IsTallied 0 n s.counts
      → IsTallied 0 (length rs + n) (route_all e rs s).counts
  unfolding route_all route_symbol
  route_all-IsTallied n e [] s h = subst (λ k. IsTallied 0 k s.counts) (omega arith) h
  route_all-IsTallied n e (r ∷ rs) s h =
      subst (λ k. IsTallied 0 k (route_all e rs (route_symbol e r s)).counts) (omega arith)
        (route_all-IsTallied (suc n) e rs (route_symbol e r s) (
          consult-IsTallied n e r
            (e.build_context (e.asset_of r.symbol) (trim_to_pit r.bars r.timestamp) r.timestamp) s
            h))

  pub routing-IsTallied :
      (e : Engine F) (rs : List (Request F))
      → IsTallied 0 (length rs) (route_all e rs (record { counts = no_counts; routed = [] })).counts
  routing-IsTallied e rs =
      subst
        (λ k. IsTallied 0 k (route_all e rs (record { counts = no_counts; routed = [] })).counts)
        (omega arith)
        (route_all-IsTallied 0 e rs _ (record {
          contexts = omega arith;
          routed = refl;
          decided = omega arith;
          explained = omega arith;
          later = omega arith;
          orders = refl;
        }))
