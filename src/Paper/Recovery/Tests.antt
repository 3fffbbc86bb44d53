-- ===== src/Paper/Recovery/Tests.antt =====
-- A recovery with one trade of each outcome.
use bot_crypto.Prelude.{String, ◌≡◌, refl, ◌+◌, not, ◌&&◌, List, [], ◌∷◌, filter, length}
use bot_crypto.Prelude.Int.{ℤ}
use bot_crypto.Float.{whole}
use bot_crypto.Float.Fixed.{fixed}
use bot_crypto.Dict.{Dict}
use bot_crypto.Execution.CostModel.{ExecutionCostModel}
use bot_crypto.Paper.Recovery.{
  JournalTrade, StartupRecoveryReport, recover_startup_positions, recover_all, recover_trade,
  close_orphan, usable_price, status, errors_found,
}
use bot_crypto.Paper.Recovery.Outcomes.{is_alive, has_price, ids, closed_ids, recover_partition}

-- 5 basis points of commission and 1 of slippage.
abbrev costs : ExecutionCostModel ℤ
costs = record { commission_bps = whole 5; slippage_bps = whole 1 }

abbrev trade : String → String → JournalTrade ℤ
trade id symbol = record {
  trade_id = id;
  symbol = symbol;
  side = "buy";
  entry_price = whole 100;
  quantity = whole 10;
}

abbrev open_trades : List (JournalTrade ℤ)
open_trades = trade "a" "BTC/USDT" ∷ trade "b" "ETH/USDT" ∷ trade "c" "SOL/USDT" ∷ []

abbrev broker : List String
broker = "BTC/USDT" ∷ []

abbrev prices : Dict ℤ
prices = ("ETH/USDT", whole 110) ∷ ("SOL/USDT", whole 0) ∷ []

abbrev report : StartupRecoveryReport ℤ
report = recover_startup_positions costs open_trades broker prices (whole 0)

recovery_loses_c : report.errors ≡ "c" ∷ []
unfolding recover_startup_positions recover_all recover_trade close_orphan usable_price
recovery_loses_c = refl

recovery_has_errors : status report ≡ errors_found
unfolding status recover_startup_positions recover_all recover_trade close_orphan usable_price
recovery_has_errors = refl

recover_partition_example :
    (report.restored ≡ ids costs broker prices (filter (is_alive costs broker prices) open_trades))
    × (closed_ids costs broker prices report.orphan_closes
        ≡ ids costs broker prices (
            filter
              (λ t. not (is_alive costs broker prices t) && has_price costs broker prices t)
              open_trades))
    × (report.errors
        ≡ ids costs broker prices (
            filter
              (λ t. not (is_alive costs broker prices t) && not (has_price costs broker prices t))
              open_trades))
    × (length (filter (is_alive costs broker prices) open_trades)
          + length (
              filter
                (λ t. not (is_alive costs broker prices t) && has_price costs broker prices t)
                open_trades)
          + length (
              filter
                (λ t. not (is_alive costs broker prices t) && not (has_price costs broker prices t))
                open_trades)
        ≡ 3)
    × (report.matched ≡ [])
recover_partition_example = recover_partition costs broker prices open_trades (whole 0)
