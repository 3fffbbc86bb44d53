-- ===== src/Research/Accounting/Reconciled.antt =====
-- With an exact arithmetic the canonical accounting agrees with the backtest engine to the last unit.
use bot_crypto.Prelude.{String, ◌≡◌, refl, sym, ap, ◌∙◌, true, none, List, [], ◌∷◌, map, arith, All}
use bot_crypto.Float.{
  Float, IsOrdered, IsUnrounded, whole, ◌+F◌, ◌-F◌, ◌*F◌, ◌<F◌, fmax, fabs, fsum, fsum_from,
  le_of_lt, le_refl,
}
use bot_crypto.Backtest.Engine.{Trade, Ohlcv, Costs, Strategy, BacktestContext, start, run}
use bot_crypto.Backtest.Engine.Books.{IsComparable, IsPositive, settle, settle_open, run-IsSettled}
use bot_crypto.Backtest.Engine.Trades.{IsEngineTrade, run-trades}
use bot_crypto.Research.Accounting.{
  SlippageSemantics, net_pnl_of, recon_error_of, compute_trade_pnl, trade_pnls,
  compute_portfolio_pnl,
}

-- The exit sells the quantity that the entry bought.
abbrev pub IsFull : {F : Type 0} → Trade F → Type 0
IsFull t = t.exit_fill.qty_filled ≡ t.entry_fill.qty_filled

module _ {F : Type 0} ⦃fl : Float F⦄ (o : IsOrdered fl) (exact : IsUnrounded fl) where
  -- Equal numbers are within every tolerance that is at least a positive number.
  pub zero_error :
      (c a b tolerance : F)
      → fl.lt (whole 0) c ≡ true
      → a ≡ b
      → (fabs (a -F b) <F fmax c tolerance) ≡ true
  zero_error c a b tolerance h e = ground (
    arith,
    exact.sub_self a,
    le_refl o (whole 0),
    o.lt-eq-not-le (whole 0) (whole 0),
    o.lt-eq-not-le (whole 0) c,
    o.lt-eq-not-le (whole 0) tolerance,
    le_of_lt o c tolerance,
    o.le_trans c tolerance (whole 0),
  )

module _ {F : Type 0} ⦃fl : Float F⦄ (o : IsOrdered fl) (exact : IsUnrounded fl)
    (cent : fl.lt (whole 0) (fl.decimal 1 100) ≡ true) where
  -- `engine.pnl - entry_fee`
  net-eq-engine :
      (t : Trade F) → IsEngineTrade t → IsFull t → net_pnl_of t ≡ t.pnl -F t.entry_fill.commission
  unfolding net_pnl_of
  net-eq-engine t h full = ground (
    arith,
    exact.mul-sub t.exit_fill.fill_price t.entry_fill.fill_price t.entry_fill.qty_filled,
    exact.sub-add
        (t.exit_fill.fill_price *F t.entry_fill.qty_filled
          -F t.entry_fill.fill_price *F t.entry_fill.qty_filled)
        t.entry_fill.commission t.exit_fill.commission,
  )

  trade-reconciled :
      (mode : SlippageSemantics) (t : Trade F)
      → IsEngineTrade t
      → IsFull t
      → (compute_trade_pnl mode t).reconciled ≡ true
  unfolding compute_trade_pnl recon_error_of
  trade-reconciled mode t h full =
      zero_error o exact (fl.decimal 1 100) (net_pnl_of t) _ _ cent (net-eq-engine t h full)

  trades-reconciled :
      (mode : SlippageSemantics) (ts : List (Trade F))
      → All IsEngineTrade ts
      → All IsFull ts
      → All (λ t. (compute_trade_pnl mode t).reconciled ≡ true) ts
  trades-reconciled mode [] h full = tt
  trades-reconciled mode (t ∷ ts) h full =
      (trade-reconciled mode t h.0 full.0, trades-reconciled mode ts h.1 full.1)

  abbrev nets : SlippageSemantics → List (Trade F) → List F
  nets mode ts = map (λ p. p.net_pnl) (trade_pnls mode ts)

  -- The engine settles each trade by its canonical net result.
  settle-eq-nets :
      (mode : SlippageSemantics) (equity : F) (ts : List (Trade F))
      → All IsEngineTrade ts
      → All IsFull ts
      → settle equity ts ≡ fsum_from equity (nets mode ts)
  unfolding trade_pnls compute_trade_pnl
  settle-eq-nets mode equity [] h full = refl
  settle-eq-nets mode equity (t ∷ ts) h full =
      settle-eq-nets mode (equity -F t.entry_fill.commission +F t.pnl) ts h.1 full.1
      ∙ ap (λ e. fsum_from e (nets mode ts))
          (exact.sub_then_add equity t.entry_fill.commission t.pnl
            ∙ ap (λ n. equity +F n) (sym (net-eq-engine t h.0 full.0)))

  fsum_from-shift : (a b : F) (xs : List F) → fsum_from (a +F b) xs ≡ a +F fsum_from b xs
  fsum_from-shift a b [] = refl
  fsum_from-shift a b (x ∷ xs) =
      ap (λ e. fsum_from e xs) (exact.add_assoc a b x) ∙ fsum_from-shift a (b +F x) xs

  fsum_from-eq-add : (a : F) (xs : List F) → fsum_from a xs ≡ a +F fsum xs
  fsum_from-eq-add a xs =
      ap (λ e. fsum_from e xs) (sym (exact.add-zero a)) ∙ fsum_from-shift a (whole 0) xs

  portfolio-reconciled :
      (mode : SlippageSemantics) (ts : List (Trade F)) (initial final : F)
      → final ≡ initial +F fsum (nets mode ts)
      → ((compute_portfolio_pnl mode ts initial final).equity_reconciled ≡ true)
        × ((compute_portfolio_pnl mode ts initial final).final_equity ≡ final)
  unfolding compute_portfolio_pnl
  portfolio-reconciled mode ts initial final e = (
    zero_error o exact (fl.decimal 1 100) (fsum (nets mode ts)) (final -F initial) _ cent
        (sym (ap (λ f. f -F initial) e ∙ exact.add-sub initial (fsum (nets mode ts)))),
    sym e,
  )

  -- With an exact arithmetic in which a cent is positive, after a backtest whose orders have positive quantities, that
  -- ends without a position and whose exits sell what their entries bought, the canonical accounting reconciles
  -- every trade and the portfolio, and its final equity is the engine's.
  pub backtest-reconciled :
      {S : Type 0} (k : IsComparable fl) (strategy : Strategy F S) (costs : Costs F)
      (symbol : String)
      → ((m : S) (x : BacktestContext F) (c : Ohlcv F) → IsPositive (strategy m x c).1)
      → (mode : SlippageSemantics) (initial : F) (cs : List (Ohlcv F)) (memory : S)
      → let s = (run strategy costs symbol cs (memory, start initial)).1 in
        s.pending_entry_fill ≡ none
        → All IsFull s.trades
        → All (λ t. (compute_trade_pnl mode t).reconciled ≡ true) s.trades
          × ((compute_portfolio_pnl mode s.trades initial s.equity).equity_reconciled ≡ true)
          × ((compute_portfolio_pnl mode s.trades initial s.equity).final_equity ≡ s.equity)
  backtest-reconciled k strategy costs symbol positive mode initial cs memory idle full =
      let s = (run strategy costs symbol cs (memory, start initial)).1 in
      let trades = run-trades strategy costs symbol cs memory initial in
      let settled = run-IsSettled strategy costs symbol k positive initial cs memory in
      let books =
        settled.equity
        ∙ ap (λ p. settle_open p (settle initial s.trades)) idle
        ∙ settle-eq-nets mode initial s.trades trades full
        ∙ fsum_from-eq-add initial (nets mode s.trades) in
      let (rec, final) = portfolio-reconciled mode s.trades initial s.equity books in
      (trades-reconciled mode s.trades trades full, rec, final)
