-- ===== src/Research/Router.antt =====
-- The strategy router: src/trading_bot/research/strategy_router.py, with the threshold of router_gates.py. The trace is
-- left out, as nothing reads it. A context enters by the fields that the router reads; an optional text that is empty
-- counts as absent, as in the source's `or`.
pub mod Choice
mod Tests
use bot_crypto.Prelude.{
  ℕ, ◌-◌, ◌*◌, String, Bool, true, false, not, ◌&&◌, ◌||◌, Option, none, some, List, [], ◌∷◌, ltb,
  ◌==◌, str_eq, is_empty, if◌then◌else◌,
}
use bot_crypto.Float.{Float, whole, ◌+F◌, ◌-F◌, ◌/F◌, ◌<F◌, ◌==F◌, fmin}
use bot_crypto.Dict.{Dict}

pub record AssetContext : Type 0 where
  pub asset : String
  pub timestamp : ℕ
  pub market_regime : Option String
  -- None where `data_quality` is empty
  pub bars_in_window : Option ℕ
  pub window_end_ts : ℕ

-- An entry of the strategy map, with the defaults of the source's `get` filled in.
pub record Entry (F : Type 0) : Type 0 where
  pub family : Option String
  pub regimes : List String
  pub direction : String
  pub enabled : Bool
  pub status : String
  pub priority : Option F

pub record RouterGates (F : Type 0) : Type 0 where
  pub require_confirmed : Bool
  pub require_regime_match : Bool
  pub min_data_quality : F
  pub require_fresh_context : Bool

pub data NoTradeReason : Type 0 where
  empty_strategy_map stale_context low_data_quality no_strategy_passed_gates : NoTradeReason

pub record RouterDecision : Type 0 where
  pub asset : String
  pub timestamp : ℕ
  pub strategy_id : Option String
  pub family : Option String
  pub direction : Option String
  pub no_trade_reason : Option NoTradeReason

abbrev pub stale_threshold_ms : ℕ
stale_threshold_ms = 15 * 60 * 1000

unfoldable pub is_stale : AssetContext → Bool
is_stale c =
    c.window_end_ts == 0
    || c.timestamp == 0
    || ltb stale_threshold_ms (c.timestamp - c.window_end_ts)

abbrev pub truthy : Option String → Option String
truthy none = none
truthy (some s) = if str_eq s "" then none else some s

-- `regime or context.market_regime`
unfoldable pub current_regime : Option String → AssetContext → Option String
current_regime regime c = elim (truthy regime) [ some r ↦ some r | none ↦ truthy c.market_regime ]

abbrev pub member : String → List String → Bool
member x [] = false
member x (y ∷ ys) = str_eq x y || member x ys

-- Whether the regime is known and listed by the entry.
abbrev pub lists_regime : Option String → List String → Bool
lists_regime none regimes = false
lists_regime (some r) regimes = member r regimes

unfoldable pub no_trade : NoTradeReason → AssetContext → RouterDecision
no_trade reason c = record {
  asset = c.asset;
  timestamp = c.timestamp;
  strategy_id = none;
  family = none;
  direction = none;
  no_trade_reason = some reason;
}

-- `best` and `best_score`
pub record Best (F : Type 0) : Type 0 where
  pub choice : Option (String × Entry F)
  pub score : F

-- `direction if direction in ("LONG", "SHORT") else None`
abbrev side_of : String → Option String
side_of d = if str_eq d "LONG" || str_eq d "SHORT" then some d else none

module _ {F : Type 0} ⦃fl : Float F⦄ where
  unfoldable pub data_quality : AssetContext → F
  data_quality c = elim c.bars_in_window [
    | none ↦ whole 0
    | some bars ↦ fmin (whole 1) (whole bars /F whole 120)
  ]

  abbrev pub regime_allowed : Option String → Entry F → Bool
  regime_allowed none e = true
  regime_allowed (some r) e = is_empty e.regimes || member r e.regimes

  -- The gates of one strategy, each of which ends the round with `continue`.
  unfoldable pub passes : RouterGates F → Option String → Entry F → Bool
  passes g regime e =
      e.enabled
      && (not g.require_confirmed || str_eq e.status "CONFIRMED")
      && (not g.require_regime_match || regime_allowed regime e)

  unfoldable pub score_of : Option String → Entry F → F
  score_of regime e =
      let listed = if lists_regime regime e.regimes then whole 1 +F whole 1 else whole 1 in
      elim e.priority [ none ↦ listed | some p ↦ if p ==F whole 0 then listed else listed +F p ]

  abbrev pub no_best : Best F
  no_best = record { choice = none; score = whole 0 -F whole 1 }

  -- One round of the loop.
  unfoldable pub consider : RouterGates F → Option String → String × Entry F → Best F → Best F
  consider g regime (sid, e) b =
      if passes g regime e && b.score <F score_of regime e
      then record { choice = some (sid, e); score = score_of regime e }
      else b

  unfoldable pub scan : RouterGates F → Option String → Dict (Entry F) → Best F → Best F
  scan g regime [] b = b
  scan g regime (p ∷ m) b = scan g regime m (consider g regime p b)

  unfoldable pub decide : AssetContext → Option (String × Entry F) → RouterDecision
  unfolding no_trade
  decide c none = no_trade no_strategy_passed_gates c
  decide c (some (sid, e)) = record {
    asset = c.asset;
    timestamp = c.timestamp;
    strategy_id = some sid;
    family = e.family;
    direction = side_of e.direction;
    no_trade_reason = none;
  }

  unfoldable pub route :
      RouterGates F → AssetContext → Option String → Dict (Entry F) → RouterDecision
  unfolding no_trade decide
  route g c regime m =
      if is_empty m
      then no_trade empty_strategy_map c
      else if g.require_fresh_context && is_stale c
      then no_trade stale_context c
      else if data_quality c <F g.min_data_quality
      then no_trade low_data_quality c
      else decide c (scan g (current_regime regime c) m no_best).choice
