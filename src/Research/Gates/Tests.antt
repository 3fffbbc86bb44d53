-- ===== src/Research/Gates/Tests.antt =====
-- A qualification of one trade that passes.
use bot_crypto.Prelude.{◌≡◌, refl, true, ◌&&◌, ◌||◌, some, [], ◌∷◌, All, is_empty}
use bot_crypto.Prelude.Int.{ℤ, pos}
use bot_crypto.Float.{whole, ◌<F◌}
use bot_crypto.Float.Fixed.{fixed}
use bot_crypto.Research.Accounting.{CanonicalTradePnl, CanonicalPortfolioPnl, long}
use bot_crypto.Research.Gates.{
  MarketDataProvenance, Conditions, historical_market_real, turnover, equity_result, fee_result,
  assert_operational, evaluate_evidence, evaluate_accounting, evaluate_qualification,
  accounting_passed, evidence_passed, fully_qualified,
}
use bot_crypto.Research.Gates.Qualified.{IsOperational, fully_qualified_lem}

-- Bought at 100 and sold at 110, with a fee of 10 basis points on each side.
abbrev trade : CanonicalTradePnl ℤ
trade = record {
  direction = long;
  market_entry_price = whole 100;
  market_exit_price = whole 110;
  entry_fill_price = whole 100;
  exit_fill_price = whole 110;
  quantity = whole 1;
  gross_price_move = whole 10;
  execution_pnl = whole 10;
  entry_fee = pos 1000;
  exit_fee = pos 1100;
  total_fees = pos 2100;
  slippage_cost = whole 0;
  net_pnl = pos 97900;
  engine_trade_pnl = pos 98900;
  reconciled = true;
  reconciliation_error = whole 0;
}

abbrev portfolio : CanonicalPortfolioPnl ℤ
portfolio = record {
  initial_capital = whole 1000;
  final_equity = pos 10097900;
  total_gross_price_move = whole 10;
  total_entry_fees = pos 1000;
  total_exit_fees = pos 1100;
  total_fees = pos 2100;
  total_slippage_cost = whole 0;
  total_net_pnl = pos 97900;
  engine_final_equity = pos 10097900;
  engine_delta = pos 97900;
  equity_reconciled = true;
  equity_reconciliation_error = whole 0;
}

abbrev provenance : MarketDataProvenance
provenance = record {
  exchange = "binance";
  market_type = "spot";
  symbol = "BTC/USDT";
  timeframe = "5m";
  source = "binance_public_rest";
  retrieval_method = "public_api";
  checksum = "c0ffee";
  bars = 500;
}

abbrev conditions : Conditions
conditions = record {
  engine_operational = true;
  risk_integrity = true;
  methodology = true;
  persistent_freeze = true;
  restart_safety = true;
  calendar_completeness = true;
}

qualifies :
    fully_qualified (
      evaluate_qualification
        (evaluate_accounting (pos 100) (trade ∷ []) portfolio (whole 10))
        (evaluate_evidence historical_market_real (some provenance) true true)
        conditions)
    ≡ true
unfolding fully_qualified evaluate_qualification evaluate_accounting evaluate_evidence
    accounting_passed evidence_passed equity_result fee_result turnover assert_operational
qualifies = refl

fully_qualified_lem_example :
    (historical_market_real ≡ historical_market_real)
    × ((d : MarketDataProvenance) × (some provenance ≡ some d) × IsOperational d)
    × ((true && true) ≡ true)
    × All (λ t. t.reconciled ≡ true) (trade ∷ [])
    × (portfolio.equity_reconciled ≡ true)
    × ((whole 0 <F turnover (trade ∷ []) || is_empty (trade ∷ [])) ≡ true)
    × (conditions ≡ record {
      engine_operational = true;
      risk_integrity = true;
      methodology = true;
      persistent_freeze = true;
      restart_safety = true;
      calendar_completeness = true;
    })
fully_qualified_lem_example =
    fully_qualified_lem (pos 100) (whole 10) (trade ∷ []) portfolio historical_market_real
      (some provenance) true true conditions qualifies
