-- ===== src/Paper/Recovery.antt =====
-- The recovery of open trades at startup: src/trading_bot/paper/startup_recovery.py. The journal's entries are typed
-- here, so that no conversion raises; an error is kept as the id of its trade.
pub mod Outcomes
mod Tests
use bot_crypto.Prelude.{
  String, Bool, false, not, Option, none, some, List, [], ◌∷◌, ◌++◌, str_eq, ◌||◌, if◌then◌else◌,
}
use bot_crypto.Float.{Float, whole, ◌+F◌, ◌*F◌, ◌≤F◌, fmax}
use bot_crypto.Dict.{Dict, lookup}
use bot_crypto.Signal.{Side, buy, sell}
use bot_crypto.Execution.CostModel.{ExecutionCostModel, compute_costs}

-- An open trade of the journal.
pub record JournalTrade (F : Type 0) : Type 0 where
  pub trade_id : String
  pub symbol : String
  pub side : String
  pub entry_price : F
  pub quantity : F

pub record OrphanCloseResult (F : Type 0) : Type 0 where
  pub trade_id : String
  pub symbol : String
  pub side : String
  pub entry_price : F
  pub exit_fill_price : F
  pub quantity : F
  pub gross_pnl : F
  pub entry_fee : F
  pub exit_fee : F
  pub slippage_cost : F
  pub net_pnl : F

pub record StartupRecoveryReport (F : Type 0) : Type 0 where
  pub timestamp : F
  pub restored : List String
  pub matched : List String
  pub orphan_closes : List (OrphanCloseResult F)
  pub errors : List String

pub data Status : Type 0 where
  errors_found orphans_closed all_ok : Status

-- `symbol in broker`
abbrev pub member : String → List String → Bool
member x [] = false
member x (y ∷ ys) = str_eq x y || member x ys

module _ {F : Type 0} ⦃fl : Float F⦄ where
  abbrev pub empty_report : F → StartupRecoveryReport F
  empty_report now = record {
    timestamp = now;
    restored = [];
    matched = [];
    orphan_closes = [];
    errors = [];
  }

  pub status : StartupRecoveryReport F → Status
  status r = elim r.errors [
    | [] ↦ elim r.orphan_closes [ [] ↦ all_ok | c ∷ cs ↦ orphans_closed ]
    | e ∷ es ↦ errors_found
  ]

  pub compute_orphan_reconciliation_close :
      JournalTrade F → F → ExecutionCostModel F → OrphanCloseResult F
  compute_orphan_reconciliation_close t price cm =
      let qty = fmax t.quantity (whole 0) in
      let side = if str_eq t.side "buy" then buy else sell in
      let costs = compute_costs (qty *F t.entry_price) t.entry_price price qty side cm in
      record {
        trade_id = t.trade_id;
        symbol = t.symbol;
        side = t.side;
        entry_price = t.entry_price;
        exit_fill_price = fl.round price 8;
        quantity = qty;
        gross_pnl = costs.gross_pnl;
        entry_fee = costs.entry_fee_usdt;
        exit_fee = costs.exit_fee_usdt;
        slippage_cost = costs.entry_slippage_usdt +F costs.exit_slippage_usdt;
        net_pnl = costs.net_pnl;
      }

  -- The market price, unless it is missing or not positive.
  pub usable_price : Option F → Option F
  usable_price none = none
  usable_price (some p) = if p ≤F whole 0 then none else some p

  -- A trade that the broker does not have.
  pub close_orphan :
      ExecutionCostModel F
      → JournalTrade F
      → Option F
      → StartupRecoveryReport F
      → StartupRecoveryReport F
  close_orphan cm t none r = record r { errors = r.errors ++ t.trade_id ∷ [] }
  close_orphan cm t (some p) r = record r {
    orphan_closes = r.orphan_closes ++ compute_orphan_reconciliation_close t p cm ∷ [];
  }

  -- One round of the loop.
  pub recover_trade :
      ExecutionCostModel F
      → List String
      → Dict F
      → JournalTrade F
      → StartupRecoveryReport F
      → StartupRecoveryReport F
  recover_trade cm broker prices t r =
      if member t.symbol broker
      then record r { restored = r.restored ++ t.trade_id ∷ [] }
      else close_orphan cm t (usable_price (lookup t.symbol prices)) r

  pub recover_all :
      ExecutionCostModel F
      → List String
      → Dict F
      → List (JournalTrade F)
      → StartupRecoveryReport F
      → StartupRecoveryReport F
  recover_all cm broker prices [] r = r
  recover_all cm broker prices (t ∷ ts) r =
      recover_all cm broker prices ts (recover_trade cm broker prices t r)

  pub recover_startup_positions :
      ExecutionCostModel F
      → List (JournalTrade F)
      → List String
      → Dict F
      → F
      → StartupRecoveryReport F
  recover_startup_positions cm trades broker prices now =
      recover_all cm broker prices trades (empty_report now)
