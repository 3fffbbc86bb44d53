-- ===== src/Paper/Cycle/Routing/PointInTime.antt =====
-- No look-ahead: what a bar after the decision timestamp cannot change.
use bot_crypto.Prelude.{
  ℕ, ◌+◌, length, ◌≡◌, refl, ap, ◌∙◌, String, true, ◌||◌, not, Option, none, some, List, [], ◌∷◌,
  arith, leb, str_eq, eq_iff, map, filter, All-filter, filter-eq_self, is_some, if◌then◌else◌,
}
use bot_crypto.Float.{Float}
use bot_crypto.Dict.{Dict, lookup, keys}
use bot_crypto.Market.Candles.{Ohlcv}
use bot_crypto.Research.Router.{AssetContext, RouterDecision, route, truthy}
use bot_crypto.Paper.Adapter.{AlphaSignal}
use bot_crypto.Paper.Cycle.Stages.{Engine, Request, router_no_trade}
use bot_crypto.Paper.Cycle.Routing.{
  RoutingState, drop_symbol, is_wanted, trim_to_pit, keep_matching, keep_alphas, generate, follow,
  consult, is_no_trade, family_key, route_symbol, route_all, request, requests, as_routed,
}

-- `decision_timestamps.get(symbol, 0)`
abbrev timestamp_of : Dict ℕ → String → ℕ
timestamp_of timestamps symbol = elim (lookup symbol timestamps) [ none ↦ 0 | some ts ↦ ts ]

module _ {F : Type 0} where
  -- The history without the bars after each symbol's decision timestamp.
  pub known_history : Dict ℕ → Dict (List (Ohlcv F)) → Dict (List (Ohlcv F))
  known_history timestamps [] = []
  known_history timestamps ((symbol, bars) ∷ history) =
      (symbol, trim_to_pit bars (timestamp_of timestamps symbol)) ∷ known_history timestamps history

  keys-known_history :
      (timestamps : Dict ℕ) (history : Dict (List (Ohlcv F)))
      → keys (known_history timestamps history) ≡ keys history
  unfolding known_history
  keys-known_history timestamps [] = refl
  keys-known_history timestamps ((symbol, bars) ∷ history) =
      ap (λ ks. symbol ∷ ks) (keys-known_history timestamps history)

  trim_to_pit_idem :
      (bars : List (Ohlcv F)) (ts : ℕ) → trim_to_pit (trim_to_pit bars ts) ts ≡ trim_to_pit bars ts
  unfolding trim_to_pit
  trim_to_pit_idem bars ts =
      filter-eq_self (λ b. leb b.timestamp ts) (filter (λ b. leb b.timestamp ts) bars)
        (All-filter (λ b. leb b.timestamp ts) bars)

  abbrev known : Request F → Request F
  known r = record {
    symbol = r.symbol;
    bars = trim_to_pit r.bars r.timestamp;
    timestamp = r.timestamp;
  }

  keep_matching-known :
      (r : Request F) (w : Option String) (alphas : List (AlphaSignal F)) (s : RoutingState F)
      → keep_matching (known r) w alphas s ≡ keep_matching r w alphas s
  unfolding keep_matching as_routed
  keep_matching-known r w [] s = refl
  keep_matching-known r w (a ∷ alphas) s = refl

  keep_alphas-known :
      (r : Request F) (w : Option String) (o : Option (List (AlphaSignal F))) (s : RoutingState F)
      → keep_alphas (known r) w o s ≡ keep_alphas r w o s
  unfolding keep_alphas
  keep_alphas-known r w none s = refl
  keep_alphas-known r w (some alphas) s =
      keep_matching-known r w (filter (λ a. is_wanted w a.direction) alphas) (record s {
        counts = record s.counts { signals_generated = s.counts.signals_generated + length alphas };
      })

  generate-known :
      (r : Request F) (d : RouterDecision)
      (o : Option (List (Ohlcv F) → Option (List (AlphaSignal F)))) (s : RoutingState F)
      → generate (known r) d o s ≡ generate r d o s
  unfolding generate
  generate-known r d none s = refl
  generate-known r d (some family) s = rw (trim_to_pit_idem r.bars r.timestamp) (
      keep_alphas-known r (truthy d.direction) (family (trim_to_pit r.bars r.timestamp)) (record s {
        counts = record s.counts { strategy_invocations = s.counts.strategy_invocations + 1 };
      }))

module _ {F : Type 0} where
  nothing_known : (ts : ℕ) → [] ≡ trim_to_pit {F = F} [] ts
  unfolding trim_to_pit
  nothing_known ts = refl

module _ {F : Type 0} ⦃fl : Float F⦄ where
  follow-known :
      (e : Engine F) (r : Request F) (d : RouterDecision) (s : RoutingState F)
      → follow e (known r) d s ≡ follow e r d s
  unfolding follow
  follow-known e r d s =
      ap
        (λ g.
          if is_no_trade d || not (is_some (truthy d.strategy_id))
          then drop_symbol r.symbol (router_no_trade d.no_trade_reason) (record s {
            counts = record s.counts { router_no_trades = s.counts.router_no_trades + 1 };
          })
          else g)
        (generate-known r d (lookup (family_key d.family) e.families) s)

  consult-known :
      (e : Engine F) (r : Request F) (o : Option AssetContext) (s : RoutingState F)
      → consult e (known r) o s ≡ consult e r o s
  unfolding consult
  consult-known e r none s = refl
  consult-known e r (some context) s =
      follow-known e r (route e.gates context context.market_regime e.strategy_map) (record s {
        counts = record s.counts {
          contexts_built = s.counts.contexts_built + 1;
          router_invocations = s.counts.router_invocations + 1;
        };
      })

  route_symbol-known :
      (e : Engine F) (r : Request F) (s : RoutingState F)
      → route_symbol e (known r) s ≡ route_symbol e r s
  unfolding route_symbol
  route_symbol-known e r s = rw (trim_to_pit_idem r.bars r.timestamp) (
      consult-known e r
        (e.build_context (e.asset_of r.symbol) (trim_to_pit r.bars r.timestamp) r.timestamp) s)

  route_all-known :
      (e : Engine F) (rs : List (Request F)) (s : RoutingState F)
      → route_all e (map known rs) s ≡ route_all e rs s
  unfolding route_all
  route_all-known e [] s = refl
  route_all-known e (r ∷ rs) s =
      route_all-known e rs (route_symbol e (known r) s)
      ∙ ap (λ t. route_all e rs t) (route_symbol-known e r s)

  -- `history.get(symbol, [])`
  abbrev bars_of : Dict (List (Ohlcv F)) → String → List (Ohlcv F)
  bars_of history symbol = elim (lookup symbol history) [ none ↦ [] | some bars ↦ bars ]

  bars_of-known :
      (timestamps : Dict ℕ) (history : Dict (List (Ohlcv F))) (symbol : String)
      → bars_of (known_history timestamps history) symbol
        ≡ trim_to_pit (bars_of history symbol) (timestamp_of timestamps symbol)
  unfolding known_history
  bars_of-known timestamps [] symbol = nothing_known (timestamp_of timestamps symbol)
  bars_of-known timestamps ((j, bars) ∷ history) symbol = ground (
    arith,
    bars_of-known timestamps history symbol,
    λ (h : str_eq j symbol ≡ true).
        ap (λ k. trim_to_pit bars (timestamp_of timestamps k)) ((eq_iff j symbol).0 h),
  )

  request-known :
      (timestamps : Dict ℕ) (history : Dict (List (Ohlcv F))) (symbol : String)
      → request (known_history timestamps history) timestamps symbol
        ≡ known (request history timestamps symbol)
  unfolding request
  request-known timestamps history symbol =
      ap
        (λ bars. record {
          symbol = symbol;
          bars = bars;
          timestamp = timestamp_of timestamps symbol;
        })
        (bars_of-known timestamps history symbol)

  map-request-known :
      (timestamps : Dict ℕ) (history : Dict (List (Ohlcv F))) (symbols : List String)
      → map (request (known_history timestamps history) timestamps) symbols
        ≡ map known (map (request history timestamps) symbols)
  map-request-known timestamps history [] = refl
  map-request-known timestamps history (k ∷ ks) =
      ap (λ r. r ∷ map (request (known_history timestamps history) timestamps) ks)
        (request-known timestamps history k)
      ∙ ap (λ rs. known (request history timestamps k) ∷ rs)
          (map-request-known timestamps history ks)

  pub route_all-known_history :
      (e : Engine F) (timestamps : Dict ℕ) (history : Dict (List (Ohlcv F))) (s : RoutingState F)
      → route_all e (requests e (known_history timestamps history) timestamps) s
        ≡ route_all e (requests e history timestamps) s
  unfolding requests
  route_all-known_history e timestamps history s =
      ap
        (λ ks.
          route_all e (map (request (known_history timestamps history) timestamps) (e.sorted ks)) s)
        (keys-known_history timestamps history)
      ∙ ap (λ rs. route_all e rs s) (map-request-known timestamps history (e.sorted (keys history)))
      ∙ route_all-known e (map (request history timestamps) (e.sorted (keys history))) s
