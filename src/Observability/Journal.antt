-- ===== src/Observability/Journal.antt =====
-- The trade journal: src/trading_bot/observability/journal.py, the tables `trades` and `rejections` with the statements
-- that change them, the newest row first. The columns of a trade's signal and position that nothing
-- below reads are its `details`, of any type `D`. The table of indicators, which repeats the metadata, and the
-- statistics are left out.
pub mod Formats
pub mod Ids
mod Tests
use bot_crypto.Prelude.{
  ℕ, suc, ◌+◌, String, Bool, true, false, Option, none, some, List, [], ◌∷◌, map, ◌==◌, str_eq,
  filter, if◌then◌else◌,
}
use Prim.Native.String.{◌++◌}
use bot_crypto.Prelude.Decimal.{decimal, without_slash}
use bot_crypto.Dict.{Dict, lookup, insert}
use bot_crypto.Float.{Float, ◌<F◌}

-- `f"T-{ms}-{symbol.replace('/', '')}"`
pub base_id : ℕ → String → String
base_id ms symbol = "T-" ++ (decimal ms ++ ("-" ++ without_slash symbol))

-- `base_trade_id if seq == 1 else f"{base_trade_id}-{seq}"`
pub trade_id_of : String → ℕ → String
trade_id_of base seq = if seq == 1 then base else base ++ ("-" ++ decimal seq)

-- `f"B-{ms}-{symbol.replace('/', '')}"`
pub decision_id_of : ℕ → String → String
decision_id_of ms symbol = "B-" ++ (decimal ms ++ ("-" ++ without_slash symbol))

-- The columns that a closing sets.
pub record Exit (F : Type 0) : Type 0 where
  pub exit_price : F
  pub pnl_net : F
  pub exit_reason : String
  pub closed_at : F

pub record TradeRow (F D : Type 0) : Type 0 where
  pub trade_id : String
  pub symbol : String
  pub opened_at : F
  pub details : D
  pub exit : Option (Exit F)

pub record Rejection : Type 0 where
  pub decision_id : String
  pub symbol : String
  pub reason : String
  pub blocked_by : Option String

pub record TradeJournal (F D : Type 0) : Type 0 where
  pub trades : List (TradeRow F D)
  pub rejections : List Rejection
  pub trade_id_seen : Dict ℕ

-- An id, or the IntegrityError of the primary key.
pub data Result : Type 0 where
  recorded : String → Result
  integrity_error : Result

-- `self._trade_id_seen.get(base, 0)`
pub seen : String → Dict ℕ → ℕ
seen base d = elim (lookup base d) [ none ↦ 0 | some n ↦ n ]

pub has_rejection : String → List Rejection → Bool
has_rejection id [] = false
has_rejection id (r ∷ rs) = if str_eq r.decision_id id then true else has_rejection id rs

module _ {F D : Type 0} where
  abbrev pub create : TradeJournal F D
  create = record { trades = []; rejections = []; trade_id_seen = [] }

  pub find_trade : String → List (TradeRow F D) → Option (TradeRow F D)
  find_trade id [] = none
  find_trade id (t ∷ ts) = if str_eq t.trade_id id then some t else find_trade id ts

  pub get_trade : String → TradeJournal F D → Option (TradeRow F D)
  get_trade id j = find_trade id j.trades

  -- The INSERT, which the primary key refuses for an id that is there.
  pub insert_trade : TradeRow F D → TradeJournal F D → TradeJournal F D × Result
  insert_trade t j = elim (find_trade t.trade_id j.trades) [
    | some old ↦ (j, integrity_error)
    | none ↦ (record j { trades = t ∷ j.trades }, recorded t.trade_id)
  ]

  -- The counter moves before the INSERT.
  pub record_open : ℕ → String → F → D → TradeJournal F D → TradeJournal F D × Result
  record_open ms symbol opened_at details j =
      let base = base_id ms symbol in
      let seq = seen base j.trade_id_seen + 1 in
      insert_trade
        (record {
          trade_id = trade_id_of base seq;
          symbol = symbol;
          opened_at = opened_at;
          details = details;
          exit = none;
        })
        (record j { trade_id_seen = insert base seq j.trade_id_seen })

  abbrev pub close_row : String → Exit F → TradeRow F D → TradeRow F D
  close_row id exit t = if str_eq t.trade_id id then record t { exit = some exit } else t

  -- The UPDATE does nothing for an unknown id, and overwrites an earlier exit.
  pub record_close : String → Exit F → TradeJournal F D → TradeJournal F D
  record_close id exit j = record j { trades = map (close_row id exit) j.trades }

  pub record_blocked :
      ℕ → String → String → Option String → TradeJournal F D → TradeJournal F D × Result
  record_blocked ms symbol reason blocked_by j =
      let id = decision_id_of ms symbol in
      if has_rejection id j.rejections then (j, integrity_error) else (
        record j {
          rejections =
              record { decision_id = id; symbol = symbol; reason = reason; blocked_by = blocked_by }
              ∷ j.rejections;
        },
        recorded id,
      )

-- The calls of one session.
pub data Call (F D : Type 0) : Type 0 where
  open_call : ℕ → String → F → D → Call F D
  close_call : String → Exit F → Call F D
  blocked_call : ℕ → String → String → Option String → Call F D

module _ {F D : Type 0} where
  pub apply : Call F D → TradeJournal F D → TradeJournal F D
  apply (open_call ms symbol opened_at details) j = (record_open ms symbol opened_at details j).0
  apply (close_call id exit) j = record_close id exit j
  apply (blocked_call ms symbol reason blocked_by) j =
      (record_blocked ms symbol reason blocked_by j).0

  pub run : List (Call F D) → TradeJournal F D → TradeJournal F D
  run [] j = j
  run (c ∷ cs) j = run cs (apply c j)
