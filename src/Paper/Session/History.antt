-- ===== src/Paper/Session/History.antt =====
-- The history that a session gives the cycle: _run_decision_cycle of src/trading_bot/paper/harness.py, without its log.
use bot_crypto.Prelude.{
  ℕ, String, Bool, ◌||◌, not, Option, none, some, List, [], ◌∷◌, map, ltb, ◌==◌, str_eq, is_empty,
  if◌then◌else◌,
}
use bot_crypto.Dict.{Dict, insert, contains}
use bot_crypto.Market.Candles.{Ohlcv}

-- What the harness and the broker read of a snapshot of the scanner.
pub record MarketSnapshot (F : Type 0) : Type 0 where
  pub symbol : String
  pub last_price : F
  pub active : Bool
  pub timestamp : ℕ

-- `get_ohlcv` of the history's reader at an instant: none for an exception
abbrev pub Reader : Type 0 → Type 0
Reader F = String → ℕ → Option (List (Ohlcv F))

-- The two dicts that `_run_decision_cycle` fills.
pub record Decisions (F : Type 0) : Type 0 where
  pub history : Dict (List (Ohlcv F))
  pub timestamps : Dict ℕ

-- `min(snap_ts, session_started_ms) or snap_ts`
pub decision_ts : ℕ → ℕ → ℕ
decision_ts snap_ts started =
    let t = if ltb started snap_ts then started else snap_ts in if t == 0 then snap_ts else t

-- `d.setdefault(k, v)`
pub setdefault : {V : Type 0} → String → V → Dict V → Dict V
setdefault k v d = if contains k d then d else insert k v d

module _ {F : Type 0} where
  abbrev pub no_decisions : Decisions F
  no_decisions = record { history = []; timestamps = [] }

  keep_bars : ℕ → MarketSnapshot F → Option (List (Ohlcv F)) → Decisions F → Decisions F
  keep_bars started snap none d = d
  keep_bars started snap (some bars) d = record {
    history = insert snap.symbol bars d.history;
    timestamps = insert snap.symbol (decision_ts snap.timestamp started) d.timestamps;
  }

  pub read_snapshot : Reader F → ℕ → MarketSnapshot F → Decisions F → Decisions F
  unfolding keep_bars
  read_snapshot reader started snap d =
      if str_eq snap.symbol "" || not snap.active
      then d
      else keep_bars started snap (reader snap.symbol snap.timestamp) d

  pub read_all : Reader F → ℕ → List (MarketSnapshot F) → Decisions F → Decisions F
  read_all reader started [] d = d
  read_all reader started (snap ∷ snaps) d =
      read_all reader started snaps (read_snapshot reader started snap d)

  keep_default : ℕ → MarketSnapshot F → Decisions F → Decisions F
  keep_default started snap d = record {
    history = setdefault snap.symbol [] d.history;
    timestamps =
        setdefault snap.symbol (if snap.timestamp == 0 then started else snap.timestamp)
          d.timestamps;
  }

  -- Without any readable history each active symbol gets an empty one.
  pub default_all : ℕ → List (MarketSnapshot F) → Decisions F → Decisions F
  unfolding keep_default
  default_all started [] d = d
  default_all started (snap ∷ snaps) d =
      default_all started snaps (if snap.active then keep_default started snap d else d)

  read_by : Option (Reader F) → ℕ → List (MarketSnapshot F) → Decisions F
  read_by none started snaps = no_decisions
  read_by (some reader) started snaps = read_all reader started snaps no_decisions

  pub decisions : Option (Reader F) → ℕ → List (MarketSnapshot F) → Decisions F
  unfolding read_by
  decisions reader started snaps =
      let d = read_by reader started snaps in
      if is_empty d.history then default_all started snaps d else d

  -- The prices that the broker reads of the snapshots.
  pub prices : List (MarketSnapshot F) → List (String × Option F)
  prices snaps = map (λ s. (s.symbol, some s.last_price)) snaps
