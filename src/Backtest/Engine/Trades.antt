-- ===== src/Backtest/Engine/Trades.antt =====
-- Every trade of a backtest is a long trade whose result is that of its fills.
use bot_crypto.Prelude.{
  String, ◌≡◌, Option, none, some, List, [], ◌∷◌, arith, All, All-append, inl, inr, Option-cases,
}
use bot_crypto.Float.{Float, ◌-F◌, ◌*F◌}
use bot_crypto.Signal.{Side, buy, sell}
use bot_crypto.Backtest.Engine.{
  Ohlcv, Order, Fill, Trade, Costs, State, Strategy, start, mark, context, count_bar, buy_fill,
  sell_fill, execute_buy, closing_trade, close_entry, execute_sell, by_side, execute, step, run,
}

module _ {F : Type 0} ⦃fl : Float F⦄ where
  -- The engine's equation for the result of a trade.
  pub record IsEngineTrade (t : Trade F) : Type 0 where
    pub bought : t.entry_fill.side ≡ buy
    pub result :
        t.pnl
        ≡ t.exit_fill.fill_price *F t.exit_fill.qty_filled
          -F t.entry_fill.fill_price *F t.entry_fill.qty_filled
          -F t.exit_fill.commission

  abbrev IsBought : Option (Fill F) → Type 0
  IsBought none = Unit
  IsBought (some f) = f.side ≡ buy

  record IsLong (s : State F) : Type 0 where
    open_entry : IsBought s.pending_entry_fill
    closed : All IsEngineTrade s.trades

  sell-IsLong :
      (costs : Costs F) (o : Order F) (c : Ohlcv F) (s : State F)
      → IsLong s
      → IsLong (execute_sell costs o c s)
  unfolding execute_sell close_entry closing_trade sell_fill
  sell-IsLong costs o c s h = elim (Option-cases s.pending_entry_fill) [
    | inl idle ↦ ground (arith, idle)
    | inr (f, held) ↦
        let t = closing_trade costs o c s.bars_held f in
        ground (arith, held, All-append IsEngineTrade s.trades (t ∷ []) h.closed)
  ]

  by_side-IsLong :
      (side : Side) (costs : Costs F) (o : Order F) (c : Ohlcv F) (s : State F)
      → IsLong s
      → IsLong (by_side side costs o c s)
  unfolding by_side execute_buy buy_fill
  by_side-IsLong buy costs o c s h = ground arith
  by_side-IsLong sell costs o c s h = ground (arith, sell-IsLong costs o c s h)

  execute-IsLong :
      (costs : Costs F) (o : Option (Order F)) (c : Ohlcv F) (s : State F)
      → IsLong s
      → IsLong (execute costs o c s)
  unfolding execute
  execute-IsLong costs none c s h = h
  execute-IsLong costs (some o) c s h = by_side-IsLong o.side costs o c s h

  mark-IsLong : (c : Ohlcv F) (s : State F) → IsLong s → IsLong (count_bar (mark c s))
  unfolding mark count_bar
  mark-IsLong c s h = ground arith

module _ {F S : Type 0} ⦃fl : Float F⦄ (strategy : Strategy F S) (costs : Costs F)
    (symbol : String) where
  run-IsLong :
      (cs : List (Ohlcv F)) (memory : S) (s : State F)
      → IsLong s
      → IsLong (run strategy costs symbol cs (memory, s)).1
  unfolding run step
  run-IsLong [] memory s h = h
  run-IsLong (c ∷ cs) memory s h =
      let marked = mark c s in
      let (memory', order) = strategy memory (context symbol c marked) c in
      run-IsLong cs memory' (execute costs order c (count_bar marked))
        (execute-IsLong costs order c (count_bar marked) (mark-IsLong c s h))

  pub run-trades :
      (cs : List (Ohlcv F)) (memory : S) (initial : F)
      → All IsEngineTrade (run strategy costs symbol cs (memory, start initial)).1.trades
  run-trades cs memory initial =
      (run-IsLong cs memory (start initial) (record { open_entry = tt; closed = tt })).closed
