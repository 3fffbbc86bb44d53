-- ===== src/Backtest/Engine/Books.antt =====
-- The books of a backtest: the equity follows from the trades, and the curve has a point for each candle.
use bot_crypto.Prelude.{
  ℕ, String, ◌≡◌, refl, sym, ap, ◌∙◌, Bool, true, false, Option, none, some, List, [], ◌∷◌, ◌++◌,
  arith, if◌then◌else◌, map, inl, inr, Option-cases,
}
use mathlib.Core.List.{append-nil, append_assoc}
use bot_crypto.Float.{Float, whole, ◌+F◌, ◌-F◌, ◌<F◌}
use bot_crypto.Signal.{Side, buy, sell}
use bot_crypto.Backtest.Engine.{
  BacktestContext, Ohlcv, Order, Fill, Trade, EquityPoint, Costs, State, Strategy, start, mark,
  context, count_bar, buy_fill, execute_buy, closing_trade, close_entry, execute_sell, by_side,
  execute, step, run,
}

-- Comparisons with equality, as for any floats but NaN.
pub record IsComparable {F : Type 0} (fl : Float F) : Type 0 where
  pub eq_refl : (a : F) → fl.eq a a ≡ true
  pub lt_irrefl : (a : F) → fl.lt a a ≡ false
  pub eq_of_lt : (a b : F) → fl.lt a b ≡ true → fl.eq b a ≡ false

module _ {F : Type 0} ⦃fl : Float F⦄ where
  -- The position is that of the pending entry, with a positive quantity, or there is none.
  abbrev pub Holds : Option (Fill F) → F → F → Type 0
  Holds none qty price = qty ≡ whole 0
  Holds (some f) qty price =
      (qty ≡ f.qty_filled) × (price ≡ f.fill_price) × (fl.lt (whole 0) qty ≡ true)

  -- Each trade in turn costs the commission of its entry and brings its result.
  abbrev pub settle : F → List (Trade F) → F
  settle equity [] = equity
  settle equity (t ∷ ts) = settle (equity -F t.entry_fill.commission +F t.pnl) ts

  abbrev pub settle_open : Option (Fill F) → F → F
  settle_open none equity = equity
  settle_open (some f) equity = equity -F f.commission

  settle-append :
      (equity : F) (ts : List (Trade F)) (t : Trade F)
      → settle equity (ts ++ t ∷ []) ≡ settle equity ts -F t.entry_fill.commission +F t.pnl
  settle-append equity [] t = refl
  settle-append equity (u ∷ ts) t = settle-append (equity -F u.entry_fill.commission +F u.pnl) ts t

  pub record IsSettled (initial : F) (s : State F) : Type 0 where
    pub equity : s.equity ≡ settle_open s.pending_entry_fill (settle initial s.trades)
    pub position : Holds s.pending_entry_fill s.position_qty s.position_avg_price

  abbrev pub stamps : List (EquityPoint F) → List ℕ
  stamps ps = map (λ p. p.timestamp) ps

  mark-IsSettled :
      (initial : F) (c : Ohlcv F) (s : State F)
      → IsSettled initial s
      → IsSettled initial (count_bar (mark c s))
  unfolding mark count_bar
  mark-IsSettled initial c s h = ground arith

  -- Every order that the strategy may give has a positive quantity.
  abbrev pub IsPositive : Option (Order F) → Type 0
  IsPositive none = Unit
  IsPositive (some o) = fl.lt (whole 0) o.qty ≡ true

  buy-IsSettled :
      (k : IsComparable fl) (initial : F) (costs : Costs F) (o : Order F) (c : Ohlcv F)
      (s : State F)
      → fl.lt (whole 0) o.qty ≡ true
      → IsSettled initial s
      → IsSettled initial (by_side buy costs o c s)
  unfolding by_side execute_buy buy_fill
  buy-IsSettled k initial costs o c s p h = elim (Option-cases s.pending_entry_fill) [
    | inl idle ↦ ground (arith, k.eq_refl (whole 0))
    | inr (f, held) ↦ ground (arith, k.eq_of_lt (whole 0) s.position_qty)
  ]

  close-IsSettled :
      (initial : F) (t : Trade F) (s : State F)
      → s.pending_entry_fill ≡ some t.entry_fill
      → IsSettled initial s
      → IsSettled initial (close_entry t s)
  unfolding close_entry
  close-IsSettled initial t s held h = record {
    equity =
        ap (λ e. e +F t.pnl) (h.equity ∙ ap (λ o. settle_open o (settle initial s.trades)) held)
        ∙ sym (settle-append initial s.trades t);
    position = refl;
  }

  execute_sell-IsSettled :
      (initial : F) (costs : Costs F) (o : Order F) (c : Ohlcv F) (s : State F) (entry : Fill F)
      → s.pending_entry_fill ≡ some entry
      → IsSettled initial s
      → IsSettled initial (execute_sell costs o c s)
  unfolding execute_sell closing_trade
  execute_sell-IsSettled initial costs o c s entry held h =
      rw (held, execute_sell)
        (close-IsSettled initial (closing_trade costs o c s.bars_held entry) s held h)

  if-IsSettled :
      (initial : F) (b : Bool) (x y : State F)
      → IsSettled initial x
      → IsSettled initial y
      → IsSettled initial (if b then x else y)
  if-IsSettled initial true x y h k = h
  if-IsSettled initial false x y h k = k

  sell-IsSettled :
      (k : IsComparable fl) (initial : F) (costs : Costs F) (o : Order F) (c : Ohlcv F)
      (s : State F)
      → IsSettled initial s
      → IsSettled initial (by_side sell costs o c s)
  unfolding by_side
  sell-IsSettled k initial costs o c s h = elim (Option-cases s.pending_entry_fill) [
    | inl idle ↦ ground (arith, k.lt_irrefl (whole 0))
    | inr (f, held) ↦
        if-IsSettled initial (whole 0 <F s.position_qty) (execute_sell costs o c s) s
          (execute_sell-IsSettled initial costs o c s f held h) h
  ]

  by_side-IsSettled :
      (k : IsComparable fl) (side : Side) (initial : F) (costs : Costs F) (o : Order F)
      (c : Ohlcv F) (s : State F)
      → fl.lt (whole 0) o.qty ≡ true
      → IsSettled initial s
      → IsSettled initial (by_side side costs o c s)
  by_side-IsSettled k buy initial costs o c s p h = buy-IsSettled k initial costs o c s p h
  by_side-IsSettled k sell initial costs o c s p h = sell-IsSettled k initial costs o c s h

  execute-IsSettled :
      (k : IsComparable fl) (initial : F) (costs : Costs F) (o : Option (Order F)) (c : Ohlcv F)
      (s : State F)
      → IsPositive o
      → IsSettled initial s
      → IsSettled initial (execute costs o c s)
  unfolding execute
  execute-IsSettled k initial costs none c s p h = h
  execute-IsSettled k initial costs (some o) c s p h =
      by_side-IsSettled k o.side initial costs o c s p h

  execute-curve :
      (costs : Costs F) (o : Option (Order F)) (c : Ohlcv F) (s : State F)
      → (execute costs o c s).equity_curve ≡ s.equity_curve
  unfolding execute by_side execute_buy execute_sell
  execute-curve costs none c s = refl
  execute-curve costs (some o) c s = ground arith

  count_bar-curve : (s : State F) → (count_bar s).equity_curve ≡ s.equity_curve
  unfolding count_bar
  count_bar-curve s = ground arith

  stamps-append :
      (ps : List (EquityPoint F)) (p : EquityPoint F)
      → stamps (ps ++ p ∷ []) ≡ stamps ps ++ p.timestamp ∷ []
  stamps-append [] p = refl
  stamps-append (q ∷ ps) p = ap (λ l. q.timestamp ∷ l) (stamps-append ps p)

  mark-curve :
      (c : Ohlcv F) (s : State F)
      → stamps (mark c s).equity_curve ≡ stamps s.equity_curve ++ c.timestamp ∷ []
  unfolding mark
  mark-curve c s = stamps-append s.equity_curve _

  mark-stamps :
      (c : Ohlcv F) (s : State F)
      → stamps (count_bar (mark c s)).equity_curve ≡ stamps s.equity_curve ++ c.timestamp ∷ []
  mark-stamps c s = ap stamps (count_bar-curve (mark c s)) ∙ mark-curve c s

module _ {F S : Type 0} ⦃fl : Float F⦄ (strategy : Strategy F S) (costs : Costs F)
    (symbol : String) where
  run-stamps :
      (cs : List (Ohlcv F)) (memory : S) (s : State F)
      → stamps (run strategy costs symbol cs (memory, s)).1.equity_curve
        ≡ stamps s.equity_curve ++ map (λ c. c.timestamp) cs
  unfolding run step
  run-stamps [] memory s = sym (append-nil (stamps s.equity_curve))
  run-stamps (c ∷ cs) memory s =
      let marked = mark c s in
      let (memory', order) = strategy memory (context symbol c marked) c in
      run-stamps cs memory' (execute costs order c (count_bar marked))
      ∙ ap (λ l. stamps l ++ map (λ c. c.timestamp) cs)
          (execute-curve costs order c (count_bar marked))
      ∙ ap (λ l. l ++ map (λ c. c.timestamp) cs) (mark-stamps c s)
      ∙ append_assoc (stamps s.equity_curve) (c.timestamp ∷ []) (map (λ c. c.timestamp) cs)

  -- The equity curve of a backtest has exactly one point for each candle, in the order of the candles,
  -- at the candle's time.
  pub run-curve :
      (cs : List (Ohlcv F)) (memory : S) (initial_capital : F)
      → stamps (run strategy costs symbol cs (memory, start initial_capital)).1.equity_curve
        ≡ map (λ c. c.timestamp) cs
  run-curve cs memory initial_capital = run-stamps cs memory (start initial_capital)

  run-IsSettled_from :
      (k : IsComparable fl)
      → ((m : S) (x : BacktestContext F) (c : Ohlcv F) → IsPositive (strategy m x c).1)
      → (initial : F) (cs : List (Ohlcv F)) (memory : S) (s : State F) → IsSettled initial s
      → IsSettled initial (run strategy costs symbol cs (memory, s)).1
  unfolding run step
  run-IsSettled_from k p initial [] memory s h = h
  run-IsSettled_from k p initial (c ∷ cs) memory s h =
      let marked = mark c s in
      let (memory', order) = strategy memory (context symbol c marked) c in
      run-IsSettled_from k p initial cs memory' (execute costs order c (count_bar marked)) (
        execute-IsSettled k initial costs order c (count_bar marked)
          (p memory (context symbol c marked) c) (mark-IsSettled initial c s h))

  -- With a strategy whose orders have positive quantities, the equity at the end is the initial capital with each
  -- trade settled in turn, less the commission of the entry that is still open; and the position held is that
  -- of the open entry, or none.
  pub run-IsSettled :
      (k : IsComparable fl)
      → ((m : S) (x : BacktestContext F) (c : Ohlcv F) → IsPositive (strategy m x c).1)
      → (initial_capital : F) (cs : List (Ohlcv F)) (memory : S)
      → IsSettled initial_capital (run strategy costs symbol cs (memory, start initial_capital)).1
  run-IsSettled k p initial_capital cs memory =
      run-IsSettled_from k p initial_capital cs memory (start initial_capital)
        (record { equity = refl; position = refl })
