-- ===== src/Paper/Broker/Accounts.antt =====
-- The books of the broker: equity, fills and positions agree after any calls.
use bot_crypto.Prelude.{
  ◌+◌, String, ◌≡◌, refl, sym, ◌∙◌, ap, Bool, true, false, Option, some, List, [], ◌∷◌, ◌++◌, map,
  arith, if◌then◌else◌, length, length-append, inl, inr, Option-cases,
}
use bot_crypto.Float.{Float, whole, ◌+F◌, fsum, fsum_from}
use bot_crypto.Dict.{
  Dict, lookup, keys, IsUnique, insert-IsUnique, erase-IsUnique, length-insert_new, length-erase,
}
use bot_crypto.Signal.{Signal, same_side}
use bot_crypto.Paper.Broker.Types.{
  PaperPosition, ExitReason, signal, ClosedTrade, RiskEvent, PaperBroker, BothHitPolicy, Candle,
  create,
}
use bot_crypto.Paper.Broker.Orders.{
  Execution, skipped, ExitRule, close_position, closing_trade, new_position, execute_signal, visit,
  sweep, check_positions, check_positions_ohlc, pnl_of, reconcile_session,
}

-- The equity is the initial equity with the results of the closed trades added in turn; every fill that
-- was opened is an open position or a closed trade; no symbol has two positions.
pub record IsBalanced {F : Type 0} (fl : Float F) (b : PaperBroker F) : Type 0 where
  pub equity : b.equity ≡ fsum_from ⦃fl = fl⦄ b.initial_equity (map pnl_of b.closed_trades)
  pub fills : b.fills_opened ≡ b.fills_closed + length b.positions
  pub trades : b.fills_closed ≡ length b.closed_trades
  pub unique : IsUnique b.positions

module _ {F : Type 0} ⦃fl : Float F⦄ where
  fsum_from-append :
      (acc : F) (ts : List (ClosedTrade F)) (t : ClosedTrade F)
      → fsum_from acc (map pnl_of (ts ++ t ∷ [])) ≡ fsum_from acc (map pnl_of ts) +F t.pnl
  fsum_from-append acc [] t = refl
  fsum_from-append acc (x ∷ ts) t = fsum_from-append (acc +F x.pnl) ts t

  close_position-IsBalanced :
      (symbol : String) (price : F) (reason : ExitReason) (now : F) (p : PaperPosition F)
      (b : PaperBroker F)
      → lookup symbol b.positions ≡ some p
      → IsBalanced fl b
      → IsBalanced fl (close_position symbol price reason now p b).0
  unfolding close_position
  close_position-IsBalanced symbol price reason now p b found h = record {
    equity =
        ap (λ e. e +F (closing_trade symbol price reason now p b).pnl) h.equity
        ∙ sym (fsum_from-append b.initial_equity b.closed_trades _);
    fills = omega (arith, h.fills, length-erase symbol p b.positions found);
    trades = omega (
      arith,
      h.trades,
      length-append {0} b.closed_trades (closing_trade symbol price reason now p b ∷ []),
    );
    unique = erase-IsUnique symbol b.positions h.unique;
  }

  if-IsBalanced :
      (c : Bool) (x y : PaperBroker F × Execution F)
      → IsBalanced fl x.0
      → IsBalanced fl y.0
      → IsBalanced fl (if c then x else y).0
  if-IsBalanced true x y h k = h
  if-IsBalanced false x y h k = k

  noted-IsBalanced :
      {events : List (RiskEvent F)} (b : PaperBroker F)
      → IsBalanced fl b
      → IsBalanced fl (record b { risk_events = events })
  noted-IsBalanced b h = record {
    equity = h.equity;
    fills = h.fills;
    trades = h.trades;
    unique = h.unique;
  }

  execute_signal-IsBalanced :
      (s : Signal F) (now : F) (b : PaperBroker F)
      → IsBalanced fl b
      → IsBalanced fl (execute_signal s now b).0
  unfolding execute_signal
  execute_signal-IsBalanced s now b h = elim (Option-cases (lookup s.symbol b.positions)) [
    | inl absent ↦
        rw (absent, execute_signal)
          (record {
            equity = h.equity;
            fills = omega (
              arith,
              h.fills,
              length-insert_new s.symbol (new_position s now b) b.positions absent,
            );
            trades = h.trades;
            unique = insert-IsUnique s.symbol _ b.positions h.unique;
          })
    | inr (p, found) ↦
        rw (found, execute_signal)
          (if-IsBalanced (same_side p.side s.side) (b, skipped) _ h
            (close_position-IsBalanced s.symbol s.price signal now p b found h))
  ]

  visit-IsBalanced :
      (rule : ExitRule F) (ohlc : Bool) (now : F) (k : String) (b : PaperBroker F)
      → IsBalanced fl b
      → IsBalanced fl (visit rule ohlc now k b).0
  unfolding visit
  visit-IsBalanced rule ohlc now k b h = elim (Option-cases (lookup k b.positions)) [
    | inl absent ↦ rw (absent, visit) h
    | inr (p, found) ↦ elim (Option-cases (rule k p)) [
      | inl stays ↦ rw (found, visit) (rw (stays, visit) h)
      | inr ((reason, price), exits) ↦
          rw (found, visit)
            (rw (exits, visit)
              (noted-IsBalanced _ (close_position-IsBalanced k price reason now p b found h)))
    ]
  ]

  sweep-IsBalanced :
      (rule : ExitRule F) (ohlc : Bool) (now : F) (ks : List String) (b : PaperBroker F)
      → IsBalanced fl b
      → IsBalanced fl (sweep rule ohlc now ks b).0
  unfolding sweep
  sweep-IsBalanced rule ohlc now [] b h = h
  sweep-IsBalanced rule ohlc now (k ∷ ks) b h =
      sweep-IsBalanced rule ohlc now ks _ (visit-IsBalanced rule ohlc now k b h)

-- The calls that change the broker.
pub data Call (F : Type 0) : Type 0 where
  signal_call : Signal F → F → Call F
  prices_call : Dict F → F → Call F
  candles_call : BothHitPolicy → Dict (Candle F) → F → Call F
  reconcile_call : List (String × Option F) → F → Call F

module _ {F : Type 0} ⦃fl : Float F⦄ where
  unfoldable pub apply : Call F → PaperBroker F → PaperBroker F
  apply (signal_call s now) b = (execute_signal s now b).0
  apply (prices_call prices now) b = (check_positions prices now b).0
  apply (candles_call policy candles now) b = (check_positions_ohlc policy candles now b).0
  apply (reconcile_call snaps now) b = (reconcile_session snaps now b).0

  unfoldable pub run : List (Call F) → PaperBroker F → PaperBroker F
  run [] b = b
  run (c ∷ cs) b = run cs (apply c b)

  apply-IsBalanced : (c : Call F) (b : PaperBroker F) → IsBalanced fl b → IsBalanced fl (apply c b)
  unfolding apply check_positions check_positions_ohlc reconcile_session
  apply-IsBalanced (signal_call s now) b h = execute_signal-IsBalanced s now b h
  apply-IsBalanced (prices_call prices now) b h =
      sweep-IsBalanced _ false now (keys b.positions) b h
  apply-IsBalanced (candles_call policy candles now) b h =
      sweep-IsBalanced _ true now (keys b.positions) b h
  apply-IsBalanced (reconcile_call snaps now) b h =
      sweep-IsBalanced _ false now (keys b.positions) b h

  run-IsBalanced_from :
      (cs : List (Call F)) (b : PaperBroker F) → IsBalanced fl b → IsBalanced fl (run cs b)
  unfolding run
  run-IsBalanced_from [] b h = h
  run-IsBalanced_from (c ∷ cs) b h = run-IsBalanced_from cs (apply c b) (apply-IsBalanced c b h)

  -- Whatever the signals and checks on a new broker, its equity is the initial equity with the net results
  -- of its closed trades added in turn, its fills are accounted for and no symbol has two positions.
  pub run-IsBalanced :
      (equity slippage commission : F) (cs : List (Call F))
      → IsBalanced fl (run cs (create equity slippage commission))
  unfolding create
  run-IsBalanced equity slippage commission cs =
      run-IsBalanced_from cs _
        (record { equity = refl; fills = omega arith; trades = refl; unique = tt })

-- Addition without rounding.
pub record IsExact {F : Type 0} (fl : Float F) : Type 0 where
  pub add_assoc : (a b c : F) → fl.add (fl.add a b) c ≡ fl.add a (fl.add b c)
  pub add-zero : (a : F) → fl.add a (fl.decimal 0 1) ≡ a

module _ {F : Type 0} ⦃fl : Float F⦄ (exact : IsExact fl) where
  fsum_from-add : (a b : F) (xs : List F) → fsum_from (a +F b) xs ≡ a +F fsum_from b xs
  fsum_from-add a b [] = refl
  fsum_from-add a b (x ∷ xs) = rw (exact.add_assoc a b x) (fsum_from-add a (b +F x) xs)

  equity_of_balanced :
      (b : PaperBroker F)
      → IsBalanced fl b
      → b.equity ≡ b.initial_equity +F fsum (map pnl_of b.closed_trades)
  equity_of_balanced b h =
      h.equity
      ∙ ap (λ z. fsum_from z (map pnl_of b.closed_trades)) (sym (exact.add-zero b.initial_equity))
      ∙ fsum_from-add b.initial_equity (whole 0) (map pnl_of b.closed_trades)

  -- With an exact addition, after any calls on a new broker the ending equity of a reconciliation is the initial equity plus the summary's realized result.
  pub equity-eq-realized :
      (equity slippage commission : F) (cs : List (Call F)) (snaps : List (String × Option F))
      (now : F)
      → let (b, summary) =
          reconcile_session snaps now (run cs (create equity slippage commission)) in
        summary.ending_equity ≡ b.initial_equity +F summary.realized_pnl
  unfolding apply reconcile_session
  equity-eq-realized equity slippage commission cs snaps now = equity_of_balanced _ (
      apply-IsBalanced (reconcile_call snaps now) (run cs (create equity slippage commission))
        (run-IsBalanced equity slippage commission cs))
