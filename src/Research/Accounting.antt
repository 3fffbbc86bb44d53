-- ===== src/Research/Accounting.antt =====
-- The canonical accounting: src/trading_bot/research/canonical_accounting.py. It reads the trades of the backtest engine.
-- `float("inf")` is the constructor `infinite`. A trade's id is left out, as nothing reads it.
pub mod Reconciled
use bot_crypto.Prelude.{
  ℕ, zero, suc, Bool, true, false, not, Option, none, some, List, [], ◌∷◌, map, length, filter,
  is_empty, if◌then◌else◌,
}
use bot_crypto.Float.{Float, whole, ◌+F◌, ◌-F◌, ◌*F◌, ◌/F◌, ◌<F◌, ◌≤F◌, ◌==F◌, fmax, fabs, fsum}
use bot_crypto.Signal.{Side, buy, sell}
use bot_crypto.Backtest.Engine.{Fill, Trade, EquityPoint}

pub data SlippageSemantics : Type 0 where
  embedded_in_fill explicit_cost : SlippageSemantics

pub data Direction : Type 0 where
  long short : Direction

pub record CanonicalTradePnl (F : Type 0) : Type 0 where
  pub direction : Direction
  pub market_entry_price : F
  pub market_exit_price : F
  pub entry_fill_price : F
  pub exit_fill_price : F
  pub quantity : F
  pub gross_price_move : F
  pub execution_pnl : F
  pub entry_fee : F
  pub exit_fee : F
  pub total_fees : F
  pub slippage_cost : F
  pub net_pnl : F
  pub engine_trade_pnl : F
  pub reconciled : Bool
  pub reconciliation_error : F

pub record CanonicalPortfolioPnl (F : Type 0) : Type 0 where
  pub initial_capital : F
  pub final_equity : F
  pub total_gross_price_move : F
  pub total_entry_fees : F
  pub total_exit_fees : F
  pub total_fees : F
  pub total_slippage_cost : F
  pub total_net_pnl : F
  pub engine_final_equity : F
  pub engine_delta : F
  pub equity_reconciled : Bool
  pub equity_reconciliation_error : F

-- A profit factor.
pub data Factor (F : Type 0) : Type 0 where
  finite : F → Factor F
  infinite : Factor F

-- The dictionary of `compute_canonical_metrics`, but for the totals that it copies.
pub record CanonicalMetrics (F : Type 0) : Type 0 where
  pub n_trades : ℕ
  pub wins : ℕ
  pub losses : ℕ
  pub win_rate : F
  pub net_expectancy_usdt : F
  pub net_expectancy_r : F
  pub net_pf : Factor F
  pub gross_pf : Factor F
  pub avg_win_net : F
  pub avg_loss_net : F
  pub max_drawdown_pct : F
  pub portfolio_reconciled : Bool

abbrev direction_of : Side → Direction
direction_of buy = long
direction_of sell = short

module _ {F : Type 0} ⦃fl : Float F⦄ where
  abbrev price_move : Direction → F → F → F → F
  price_move long entry exit qty = (exit -F entry) *F qty
  price_move short entry exit qty = (entry -F exit) *F qty

  abbrev slippage_of : SlippageSemantics → Trade F → F
  slippage_of embedded_in_fill t = whole 0
  slippage_of explicit_cost t =
      (t.entry_fill.slippage +F t.exit_fill.slippage) *F t.entry_fill.qty_filled

  -- `execution_pnl - total_fees`
  pub net_pnl_of : Trade F → F
  net_pnl_of t =
      price_move (direction_of t.entry_fill.side) t.entry_fill.fill_price t.exit_fill.fill_price
        t.entry_fill.qty_filled
      -F (t.entry_fill.commission +F t.exit_fill.commission)

  pub recon_error_of : Trade F → F
  recon_error_of t = fabs (net_pnl_of t -F (t.pnl -F t.entry_fill.commission))

  pub compute_trade_pnl : SlippageSemantics → Trade F → CanonicalTradePnl F
  compute_trade_pnl mode t =
      let entry = t.entry_fill in
      let exit = t.exit_fill in
      let direction = direction_of entry.side in
      let move = price_move direction entry.fill_price exit.fill_price entry.qty_filled in
      record {
        direction = direction;
        market_entry_price = entry.fill_price;
        market_exit_price = exit.fill_price;
        entry_fill_price = entry.fill_price;
        exit_fill_price = exit.fill_price;
        quantity = entry.qty_filled;
        gross_price_move = move;
        execution_pnl = move;
        entry_fee = entry.commission;
        exit_fee = exit.commission;
        total_fees = entry.commission +F exit.commission;
        slippage_cost = slippage_of mode t;
        net_pnl = net_pnl_of t;
        engine_trade_pnl = t.pnl;
        reconciled =
            recon_error_of t
            <F fmax (fl.decimal 1 100)
                (fabs (net_pnl_of t) *F fl.decimal 1 1000 +F fl.decimal 1 1000);
        reconciliation_error = recon_error_of t;
      }

  unfoldable pub trade_pnls : SlippageSemantics → List (Trade F) → List (CanonicalTradePnl F)
  trade_pnls mode ts = map (compute_trade_pnl mode) ts

  unfoldable pub compute_portfolio_pnl :
      SlippageSemantics → List (Trade F) → F → F → CanonicalPortfolioPnl F
  compute_portfolio_pnl mode ts initial_capital engine_final_equity =
      let ps = trade_pnls mode ts in
      let entry_fees = fsum (map (λ p. p.entry_fee) ps) in
      let exit_fees = fsum (map (λ p. p.exit_fee) ps) in
      let total_net = fsum (map (λ p. p.net_pnl) ps) in
      let engine_delta = engine_final_equity -F initial_capital in
      let recon_error = fabs (total_net -F engine_delta) in
      record {
        initial_capital = initial_capital;
        final_equity = initial_capital +F total_net;
        total_gross_price_move = fsum (map (λ p. p.gross_price_move) ps);
        total_entry_fees = entry_fees;
        total_exit_fees = exit_fees;
        total_fees = entry_fees +F exit_fees;
        total_slippage_cost = fsum (map (λ p. p.slippage_cost) ps);
        total_net_pnl = total_net;
        engine_final_equity = engine_final_equity;
        engine_delta = engine_delta;
        equity_reconciled =
            recon_error
            <F fmax (fl.decimal 1 100) (fabs total_net *F fl.decimal 2 100 +F fl.decimal 1 100);
        equity_reconciliation_error = recon_error;
      }

  pub net_return_pct : CanonicalPortfolioPnl F → F
  net_return_pct p =
      if p.initial_capital ==F whole 0
      then whole 0
      else p.total_net_pnl /F p.initial_capital *F whole 100

  profit_factor : F → F → Factor F
  profit_factor profit loss =
      if whole 0 <F loss
      then finite (profit /F loss)
      else if whole 0 <F profit
      then infinite
      else finite (whole 0)

  -- `sum(xs) / len(xs) if xs else 0.0`
  mean_or_zero : List F → F
  mean_or_zero [] = whole 0
  mean_or_zero (x ∷ xs) = fsum (x ∷ xs) /F whole (length (x ∷ xs))

  -- The loop over the equity curve, with the peak and the largest drawdown so far.
  pub max_drawdown_from : F → F → List (EquityPoint F) → F
  max_drawdown_from peak max_dd [] = max_dd
  max_drawdown_from peak max_dd (pt ∷ pts) =
      let peak' = if peak <F pt.equity then pt.equity else peak in
      let dd = if whole 0 <F peak' then (peak' -F pt.equity) /F peak' else whole 0 in
      max_drawdown_from peak' (if max_dd <F dd then dd else max_dd) pts

  pub max_drawdown : List (EquityPoint F) → F
  max_drawdown [] = whole 0
  max_drawdown (pt ∷ pts) = max_drawdown_from pt.equity (whole 0) (pt ∷ pts)

  empty_metrics : CanonicalMetrics F
  empty_metrics = record {
    n_trades = 0;
    wins = 0;
    losses = 0;
    win_rate = whole 0;
    net_expectancy_usdt = whole 0;
    net_expectancy_r = whole 0;
    net_pf = finite (whole 0);
    gross_pf = finite (whole 0);
    avg_win_net = whole 0;
    avg_loss_net = whole 0;
    max_drawdown_pct = whole 0;
    portfolio_reconciled = true;
  }

  metrics_of :
      List (CanonicalTradePnl F)
      → CanonicalPortfolioPnl F
      → List (EquityPoint F)
      → CanonicalMetrics F
  unfolding profit_factor mean_or_zero
  metrics_of ps portfolio curve =
      let nets = map (λ p. p.net_pnl) ps in
      let moves = map (λ p. p.gross_price_move) ps in
      let wins = filter (λ x. whole 0 <F x) nets in
      let losses = filter (λ x. x ≤F whole 0) nets in
      let expectancy = fsum nets /F whole (length ps) in
      let avg_risk = fsum (map fabs nets) /F whole (length ps) in
      record {
        n_trades = length ps;
        wins = length wins;
        losses = length losses;
        win_rate = whole (length wins) /F whole (length ps);
        net_expectancy_usdt = expectancy;
        net_expectancy_r = if whole 0 <F avg_risk then expectancy /F avg_risk else whole 0;
        net_pf = profit_factor (fsum wins) (fabs (fsum losses));
        gross_pf =
            profit_factor (fsum (filter (λ x. whole 0 <F x) moves))
              (fabs (fsum (filter (λ x. x <F whole 0) moves)));
        avg_win_net = mean_or_zero wins;
        avg_loss_net = mean_or_zero (map fabs losses);
        max_drawdown_pct = max_drawdown curve;
        portfolio_reconciled = portfolio.equity_reconciled;
      }

  pub compute_canonical_metrics :
      SlippageSemantics → List (Trade F) → F → F → List (EquityPoint F) → CanonicalMetrics F
  unfolding empty_metrics metrics_of
  compute_canonical_metrics mode ts initial_capital engine_final_equity curve =
      if is_empty ts
      then empty_metrics
      else metrics_of (trade_pnls mode ts)
          (compute_portfolio_pnl mode ts initial_capital engine_final_equity) curve
