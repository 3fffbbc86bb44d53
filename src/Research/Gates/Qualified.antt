-- ===== src/Research/Gates/Qualified.antt =====
-- What a passed gate says, and which gates a backtest passes.
use bot_crypto.Prelude.{
  String, ◌<◌, ◌≡◌, refl, sym, ap, Bool, true, false, ◌&&◌, ◌||◌, Option, none, some, List, [], ◌∷◌,
  arith, All, str_eq, is_empty, filter,
}
use bot_crypto.Float.{Float, IsOrdered, IsUnrounded, whole, ◌<F◌}
use bot_crypto.Backtest.Engine.{Trade, Ohlcv, Costs, Strategy, BacktestContext, start, run}
use bot_crypto.Backtest.Engine.Books.{IsComparable, IsPositive}
use bot_crypto.Research.Accounting.{
  SlippageSemantics, CanonicalTradePnl, CanonicalPortfolioPnl, compute_trade_pnl, trade_pnls,
  compute_portfolio_pnl,
}
use bot_crypto.Research.Accounting.Reconciled.{IsFull, zero_error, backtest-reconciled}
use bot_crypto.Research.Gates.{
  pass, accounting_passed, evidence_passed, fully_qualified, EvidenceClass, historical_market_real,
  MarketDataProvenance, required, is_market_real, assert_operational, evaluate_evidence, Conditions,
  evaluate_qualification, all_reconciled, turnover, equity_result, evaluate_accounting, pass_if,
  is_pass,
}

-- Every text that the provenance must have is there, and it counts at least one bar.
pub record IsOperational (p : MarketDataProvenance) : Type 0 where
  pub filled : All (λ f. str_eq f "" ≡ false) (required p)
  pub some_bars : 0 < p.bars

none_missing :
    (fs : List String)
    → is_empty (filter (λ f. str_eq f "") fs) ≡ true
    → All (λ f. str_eq f "" ≡ false) fs
none_missing [] h = tt
none_missing (f ∷ fs) h = ground (arith, none_missing fs)

operational : (p : MarketDataProvenance) → assert_operational p ≡ none → IsOperational p
unfolding assert_operational
operational p h = record {
  filled = none_missing (required p) (ground arith);
  some_bars = ground arith;
}

market_real : (c : EvidenceClass) → is_market_real c ≡ true → c ≡ historical_market_real
market_real c h = ground arith

module _ {F : Type 0} ⦃fl : Float F⦄ where
  all_reconciled_lem :
      (ps : List (CanonicalTradePnl F))
      → all_reconciled ps ≡ true
      → All (λ p. p.reconciled ≡ true) ps
  all_reconciled_lem [] h = tt
  all_reconciled_lem (p ∷ ps) h = ground (arith, all_reconciled_lem ps)

  -- A qualification that passes rests on evidence of the class HISTORICAL_MARKET_REAL with a complete provenance, a
  -- valid checksum and data of sufficient quality; on trades that all reconcile, a portfolio that reconciles, and a
  -- positive turnover or no trade; and all of its other conditions hold.
  pub fully_qualified_lem :
      (tolerance commission_bps : F) (ps : List (CanonicalTradePnl F)) (p : CanonicalPortfolioPnl F)
      (evidence : EvidenceClass) (provenance : Option MarketDataProvenance)
      (checksum quality : Bool) (c : Conditions)
      → fully_qualified (
          evaluate_qualification
            (evaluate_accounting tolerance ps p commission_bps)
            (evaluate_evidence evidence provenance checksum quality)
            c)
        ≡ true
      → (evidence ≡ historical_market_real)
        × ((d : MarketDataProvenance) × (provenance ≡ some d) × IsOperational d)
        × ((checksum && quality) ≡ true)
        × All (λ t. t.reconciled ≡ true) ps
        × (p.equity_reconciled ≡ true)
        × ((whole 0 <F turnover ps || is_empty ps) ≡ true)
        × (c ≡ record {
          engine_operational = true;
          risk_integrity = true;
          methodology = true;
          persistent_freeze = true;
          restart_safety = true;
          calendar_completeness = true;
        })
  unfolding fully_qualified evaluate_qualification evaluate_accounting evaluate_evidence
      accounting_passed evidence_passed
  fully_qualified_lem tolerance commission_bps ps p evidence none checksum quality c h =
      ground arith
  fully_qualified_lem tolerance commission_bps ps p evidence (some d) checksum quality c h = (
    market_real evidence (ground arith),
    (d, refl, operational d (ground arith)),
    ground arith,
    all_reconciled_lem ps (ground arith),
    ground arith,
    ground arith,
    ground arith,
  )

  all_reconciled-trade_pnls :
      (mode : SlippageSemantics) (ts : List (Trade F))
      → All (λ t. (compute_trade_pnl mode t).reconciled ≡ true) ts
      → all_reconciled (trade_pnls mode ts) ≡ true
  unfolding trade_pnls
  all_reconciled-trade_pnls mode [] h = refl
  all_reconciled-trade_pnls mode (t ∷ ts) h = ground (arith, all_reconciled-trade_pnls mode ts h.1)

  equity-passes :
      (o : IsOrdered fl) (exact : IsUnrounded fl) (tolerance : F) (mode : SlippageSemantics)
      (ts : List (Trade F)) (initial final : F)
      → fl.lt (whole 0) tolerance ≡ true
      → (compute_portfolio_pnl mode ts initial final).final_equity ≡ final
      → equity_result tolerance (compute_portfolio_pnl mode ts initial final) ≡ pass
  unfolding equity_result compute_portfolio_pnl
  equity-passes o exact tolerance mode ts initial final h e =
      ap pass_if (zero_error o exact tolerance final _ _ h (sym e))

  -- With an exact arithmetic in which a cent is positive, after a backtest whose orders have positive quantities, that
  -- ends without a position and whose exits sell what their entries bought, the accounting gate with a positive
  -- tolerance passes exactly if its fee check and its turnover check do.
  pub backtest-passes :
      {S : Type 0} (o : IsOrdered fl) (exact : IsUnrounded fl)
      → fl.lt (whole 0) (fl.decimal 1 100) ≡ true
      → (k : IsComparable fl) (strategy : Strategy F S) (costs : Costs F) (symbol : String)
      → ((m : S) (x : BacktestContext F) (c : Ohlcv F) → IsPositive (strategy m x c).1)
      → (mode : SlippageSemantics) (initial : F) (cs : List (Ohlcv F)) (memory : S)
        (tolerance commission_bps : F)
      → fl.lt (whole 0) tolerance ≡ true
      → let s = (run strategy costs symbol cs (memory, start initial)).1 in
        s.pending_entry_fill ≡ none
        → All IsFull s.trades
        → let r =
            evaluate_accounting tolerance
              (trade_pnls mode s.trades)
              (compute_portfolio_pnl mode s.trades initial s.equity)
              commission_bps in
          accounting_passed r ≡ (is_pass r.fee_reconciliation && is_pass r.turnover_semantics)
  unfolding evaluate_accounting accounting_passed
  backtest-passes o exact cent k strategy costs symbol positive mode initial cs memory tolerance
        commission_bps h idle full =
      let s = (run strategy costs symbol cs (memory, start initial)).1 in
      let (trades, portfolio, final) =
        backtest-reconciled o exact cent k strategy costs symbol positive mode initial cs memory
          idle full in
      ground (
        arith,
        portfolio,
        all_reconciled-trade_pnls mode s.trades trades,
        equity-passes o exact tolerance mode s.trades initial s.equity h final,
      )
