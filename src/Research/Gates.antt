-- ===== src/Research/Gates.antt =====
-- The research gates: src/trading_bot/research/gates.py, with the evidence classes of evidence.py and the provenance of
-- market_provenance.py. The list `checks` of a result is left out: it repeats the verdicts with their messages.
pub mod Qualified
mod Tests
use bot_crypto.Prelude.{
  ℕ, String, Bool, true, false, ◌&&◌, ◌||◌, Option, none, some, List, [], ◌∷◌, map, ltb, str_eq,
  is_empty, filter, if◌then◌else◌,
}
use bot_crypto.Float.{Float, whole, ◌+F◌, ◌-F◌, ◌*F◌, ◌/F◌, ◌<F◌, fmax, fabs, fsum}
use bot_crypto.Research.Accounting.{CanonicalTradePnl, CanonicalPortfolioPnl}

pub data GateResult : Type 0 where
  pass fail : GateResult

-- `r == GateResult.PASS`
abbrev pub is_pass : GateResult → Bool
is_pass pass = true
is_pass fail = false

-- `GateResult.PASS if b else GateResult.FAIL`
abbrev pub pass_if : Bool → GateResult
pass_if true = pass
pass_if false = fail

abbrev pub all_pass : List GateResult → Bool
all_pass [] = true
all_pass (r ∷ rs) = is_pass r && all_pass rs

pub record AccountingIntegrityResult : Type 0 where
  pub trade_reconciliation : GateResult
  pub portfolio_reconciliation : GateResult
  pub equity_reconciliation : GateResult
  pub fee_reconciliation : GateResult
  pub slippage_reconciliation : GateResult
  pub turnover_semantics : GateResult

pub record MarketEvidenceResult : Type 0 where
  pub evidence_class_valid : GateResult
  pub provenance_complete : GateResult
  pub snapshot_immutable : GateResult
  pub data_quality : GateResult

pub record ResearchQualificationResult : Type 0 where
  pub accounting_integrity : AccountingIntegrityResult
  pub market_evidence : MarketEvidenceResult
  pub engine_operational : GateResult
  pub risk_integrity : GateResult
  pub methodology : GateResult
  pub persistent_freeze : GateResult
  pub restart_safety : GateResult
  pub calendar_completeness : GateResult

pub accounting_passed : AccountingIntegrityResult → Bool
accounting_passed r = all_pass (
    r.trade_reconciliation ∷ r.portfolio_reconciliation ∷ r.equity_reconciliation
    ∷ r.fee_reconciliation ∷ r.slippage_reconciliation ∷ r.turnover_semantics ∷ [])

pub evidence_passed : MarketEvidenceResult → Bool
evidence_passed r =
    all_pass
      (r.evidence_class_valid ∷ r.provenance_complete ∷ r.snapshot_immutable ∷ r.data_quality ∷ [])

pub fully_qualified : ResearchQualificationResult → Bool
fully_qualified r = all_pass (
    pass_if (accounting_passed r.accounting_integrity)
    ∷ pass_if (evidence_passed r.market_evidence)
    ∷ r.engine_operational
    ∷ r.risk_integrity
    ∷ r.methodology
    ∷ r.persistent_freeze
    ∷ r.restart_safety
    ∷ r.calendar_completeness
    ∷ [])

pub data EvidenceClass : Type 0 where
  synthetic generated_fixture historical_fixture historical_market_real paper_realtime live_real :
      EvidenceClass

abbrev pub is_market_real : EvidenceClass → Bool
is_market_real historical_market_real = true
is_market_real _ = false

-- The fields that `assert_operational` reads; the number of bars is a length.
pub record MarketDataProvenance : Type 0 where
  pub exchange : String
  pub market_type : String
  pub symbol : String
  pub timeframe : String
  pub source : String
  pub retrieval_method : String
  pub checksum : String
  pub bars : ℕ

pub data ProvenanceError : Type 0 where
  missing_fields : List String → ProvenanceError
  no_bars : ProvenanceError

abbrev pub required : MarketDataProvenance → List String
required p =
    p.exchange ∷ p.market_type ∷ p.symbol ∷ p.timeframe ∷ p.source ∷ p.retrieval_method ∷ p.checksum
    ∷ []

-- The exception that it raises, if any.
pub assert_operational : MarketDataProvenance → Option ProvenanceError
assert_operational p =
    let missing = filter (λ f. str_eq f "") (required p) in
    if is_empty missing
    then (if ltb 0 p.bars then none else some no_bars)
    else some (missing_fields missing)

abbrev no_error : {E : Type 0} → Option E → Bool
no_error none = true
no_error (some e) = false

abbrev provenance_result : Option MarketDataProvenance → GateResult
provenance_result none = fail
provenance_result (some p) = pass_if (no_error (assert_operational p))

pub evaluate_evidence :
    EvidenceClass → Option MarketDataProvenance → Bool → Bool → MarketEvidenceResult
evaluate_evidence evidence_class provenance checksum_valid data_quality_passed = record {
  evidence_class_valid = pass_if (is_market_real evidence_class);
  provenance_complete = provenance_result provenance;
  snapshot_immutable = pass_if checksum_valid;
  data_quality = pass_if data_quality_passed;
}

-- The other arguments of `ResearchQualificationGate.evaluate`.
pub record Conditions : Type 0 where
  pub engine_operational : Bool
  pub risk_integrity : Bool
  pub methodology : Bool
  pub persistent_freeze : Bool
  pub restart_safety : Bool
  pub calendar_completeness : Bool

pub evaluate_qualification :
    AccountingIntegrityResult → MarketEvidenceResult → Conditions → ResearchQualificationResult
evaluate_qualification accounting evidence c = record {
  accounting_integrity = accounting;
  market_evidence = evidence;
  engine_operational = pass_if c.engine_operational;
  risk_integrity = pass_if c.risk_integrity;
  methodology = pass_if c.methodology;
  persistent_freeze = pass_if c.persistent_freeze;
  restart_safety = pass_if c.restart_safety;
  calendar_completeness = pass_if c.calendar_completeness;
}

module _ {F : Type 0} ⦃fl : Float F⦄ where
  abbrev pub all_reconciled : List (CanonicalTradePnl F) → Bool
  all_reconciled [] = true
  all_reconciled (p ∷ ps) = p.reconciled && all_reconciled ps

  pub turnover : List (CanonicalTradePnl F) → F
  turnover ps =
      fsum (map (λ p. p.entry_fill_price *F p.quantity +F p.exit_fill_price *F p.quantity) ps)

  pub equity_result : F → CanonicalPortfolioPnl F → GateResult
  equity_result tolerance p =
      let reconstructed = p.initial_capital +F p.total_net_pnl in
      pass_if (
        fabs (p.engine_final_equity -F reconstructed)
        <F fmax tolerance (fabs reconstructed *F fl.decimal 1 1000))

  pub fee_result : F → F → CanonicalPortfolioPnl F → GateResult
  fee_result commission_bps total_turnover p =
      if whole 0 <F total_turnover
      then pass_if (
          fabs (p.total_fees /F total_turnover *F whole 10000 -F commission_bps)
          <F fmax (whole 1) (commission_bps *F fl.decimal 1 10))
      else pass

  pub evaluate_accounting :
      F → List (CanonicalTradePnl F) → CanonicalPortfolioPnl F → F → AccountingIntegrityResult
  evaluate_accounting tolerance ps p commission_bps = record {
    trade_reconciliation = pass_if (all_reconciled ps);
    portfolio_reconciliation = pass_if p.equity_reconciled;
    equity_reconciliation = equity_result tolerance p;
    fee_reconciliation = fee_result commission_bps (turnover ps) p;
    slippage_reconciliation = pass;
    turnover_semantics = pass_if (whole 0 <F turnover ps || is_empty ps);
  }
