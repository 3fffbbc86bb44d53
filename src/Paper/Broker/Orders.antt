-- ===== src/Paper/Broker/Orders.antt =====
-- The operations of the broker.
use bot_crypto.Prelude.{
  ℕ, ◌+◌, String, Bool, true, false, Option, none, some, List, [], ◌∷◌, ◌++◌, map, if◌then◌else◌,
  str_eq,
}
use bot_crypto.Float.{Float, whole, ◌+F◌, ◌-F◌, ◌*F◌, ◌/F◌, ◌≤F◌, fsum}
use bot_crypto.Dict.{Dict, lookup, insert, erase, keys}
use bot_crypto.Signal.{Side, buy, sell, Signal, same_side, or_default}
use bot_crypto.Paper.Broker.Types.{
  PaperPosition, ExitReason, signal, ClosedTrade, RiskEvent, PaperBroker, BothHitPolicy, Candle,
  profit, check_exit, check_candle,
}

module _ {F : Type 0} ⦃fl : Float F⦄ where
  abbrev slippage_mult : PaperBroker F → F
  slippage_mult b = whole 1 +F b.slippage_bps /F whole 10000

  abbrev commission_on : F → PaperBroker F → F
  commission_on notional b = notional *F (b.commission_bps /F whole 10000)

  -- The price against the trader: a buyer pays more, a seller gets less.
  abbrev worse : Side → F → F → F
  worse buy price mult = price *F mult
  worse sell price mult = price /F mult

  abbrev better : Side → F → F → F
  better buy price mult = price /F mult
  better sell price mult = price *F mult

  -- The trade that `_close_position` records.
  unfoldable pub closing_trade :
      String → F → ExitReason → F → PaperPosition F → PaperBroker F → ClosedTrade F
  closing_trade symbol exit_price reason now p b =
      let actual_exit = better p.side exit_price (slippage_mult b) in
      record {
        symbol = symbol;
        side = p.side;
        entry_price = p.entry_price;
        exit_price = actual_exit;
        quantity = p.quantity;
        pnl =
            profit p.side p.entry_price actual_exit p.quantity
            -F p.entry_commission
            -F commission_on p.notional_usdt b;
        exit_reason = reason;
        opened_at = p.opened_at;
        closed_at = now;
      }

  -- `_close_position`, on the position that `pop` has found.
  unfoldable pub close_position :
      String → F → ExitReason → F → PaperPosition F → PaperBroker F → PaperBroker F × ClosedTrade F
  close_position symbol exit_price reason now p b =
      let trade = closing_trade symbol exit_price reason now p b in
      (
        record b {
          positions = erase symbol b.positions;
          closed_trades = b.closed_trades ++ trade ∷ [];
          fills_closed = b.fills_closed + 1;
          equity = b.equity +F trade.pnl;
        },
        trade,
      )

  -- `notional`: the entry of the metadata if it is positive, or 1% of the equity
  unfoldable pub order_notional : Signal F → PaperBroker F → F
  order_notional s b =
      let wanted : F = elim (lookup "notional_usdt" s.metadata) [ none ↦ whole 0 | some n ↦ n ] in
      if wanted ≤F whole 0 then b.equity *F fl.decimal 1 100 else wanted

  unfoldable pub new_position : Signal F → F → PaperBroker F → PaperPosition F
  unfolding order_notional
  new_position s now b =
      let fill_price = worse s.side s.price (slippage_mult b) in
      let notional = order_notional s b in
      record {
        symbol = s.symbol;
        side = s.side;
        entry_price = fill_price;
        quantity = notional /F fill_price;
        notional_usdt = notional;
        stop_loss_pct = or_default s.stop_loss_pct (whole 1);
        take_profit_pct = or_default s.take_profit_pct (whole 2);
        opened_at = now;
        entry_commission = commission_on notional b;
      }

-- What `execute_signal` returns: a closed trade, a new position, or None.
pub data Execution (F : Type 0) : Type 0 where
  closed : ClosedTrade F → Execution F
  opened : PaperPosition F → Execution F
  skipped : Execution F

-- Both checks of the open positions are one loop over the keys, with a rule that says which
-- positions close, why and at which price.
abbrev pub ExitRule : Type 0 → Type 0
ExitRule F = String → PaperPosition F → Option (ExitReason × F)

module _ {F : Type 0} ⦃fl : Float F⦄ where
  unfoldable pub open_new : Signal F → F → PaperBroker F → PaperBroker F × Execution F
  open_new s now b =
      let p = new_position s now b in
      (
        record b { positions = insert s.symbol p b.positions; fills_opened = b.fills_opened + 1 },
        opened p,
      )

  unfoldable pub as_closed : PaperBroker F × ClosedTrade F → PaperBroker F × Execution F
  as_closed (b, trade) = (b, closed trade)

  unfoldable pub meet :
      Signal F → F → PaperBroker F → Option (PaperPosition F) → PaperBroker F × Execution F
  unfolding open_new as_closed
  meet s now b none = open_new s now b
  meet s now b (some existing) =
      if same_side existing.side s.side
      then (b, skipped)
      else as_closed (close_position s.symbol s.price signal now existing b)

  unfoldable pub execute_signal : Signal F → F → PaperBroker F → PaperBroker F × Execution F
  unfolding meet
  execute_signal s now b = meet s now b (lookup s.symbol b.positions)

  unfoldable pub note_event :
      String
      → Bool
      → ExitReason × F
      → PaperBroker F × ClosedTrade F
      → PaperBroker F × List (ClosedTrade F)
  note_event symbol ohlc (reason, price) (b, trade) = (
    record b {
      risk_events =
          b.risk_events
          ++ record { symbol = symbol; reason = reason; price = price; ohlc = ohlc } ∷ [];
    },
    trade ∷ [],
  )

  unfoldable pub close_by :
      Bool
      → F
      → String
      → PaperPosition F
      → PaperBroker F
      → Option (ExitReason × F)
      → PaperBroker F × List (ClosedTrade F)
  unfolding note_event
  close_by ohlc now symbol p b none = (b, [])
  close_by ohlc now symbol p b (some (reason, price)) =
      note_event symbol ohlc (reason, price) (close_position symbol price reason now p b)

  unfoldable pub visit_found :
      ExitRule F
      → Bool
      → F
      → String
      → PaperBroker F
      → Option (PaperPosition F)
      → PaperBroker F × List (ClosedTrade F)
  unfolding close_by
  visit_found rule ohlc now symbol b none = (b, [])
  visit_found rule ohlc now symbol b (some p) = close_by ohlc now symbol p b (rule symbol p)

  -- One round of the loop.
  unfoldable pub visit :
      ExitRule F → Bool → F → String → PaperBroker F → PaperBroker F × List (ClosedTrade F)
  unfolding visit_found
  visit rule ohlc now symbol b = visit_found rule ohlc now symbol b (lookup symbol b.positions)

  unfoldable pub sweep :
      ExitRule F → Bool → F → List String → PaperBroker F → PaperBroker F × List (ClosedTrade F)
  sweep rule ohlc now [] b = (b, [])
  sweep rule ohlc now (k ∷ ks) b =
      let (b', trades) = visit rule ohlc now k b in
      let (b'', rest) = sweep rule ohlc now ks b' in (b'', trades ++ rest)

  at_price : F → Option ExitReason → Option (ExitReason × F)
  at_price price none = none
  at_price price (some reason) = some (reason, price)

  priced : PaperPosition F → Option F → Option (ExitReason × F)
  unfolding at_price
  priced p none = none
  priced p (some price) = at_price price (check_exit p price)

  unfoldable pub price_rule : Dict F → ExitRule F
  unfolding priced
  price_rule prices symbol p = priced p (lookup symbol prices)

  candled : BothHitPolicy → PaperPosition F → Option (Candle F) → Option (ExitReason × F)
  candled policy p none = none
  candled policy p (some c) = check_candle policy p c

  unfoldable pub candle_rule : BothHitPolicy → Dict (Candle F) → ExitRule F
  unfolding candled
  candle_rule policy candles symbol p = candled policy p (lookup symbol candles)

  unfoldable pub check_positions : Dict F → F → PaperBroker F → PaperBroker F × List (ClosedTrade F)
  check_positions prices now b = sweep (price_rule prices) false now (keys b.positions) b

  unfoldable pub check_positions_ohlc :
      BothHitPolicy → Dict (Candle F) → F → PaperBroker F → PaperBroker F × List (ClosedTrade F)
  check_positions_ohlc policy candles now b =
      sweep (candle_rule policy candles) true now (keys b.positions) b

  -- `prices[snap.symbol] = snap.last_price` for the snapshots that have both
  unfoldable pub price_map : List (String × Option F) → Dict F → Dict F
  price_map [] prices = prices
  price_map ((symbol, none) ∷ snaps) prices = price_map snaps prices
  price_map ((symbol, some price) ∷ snaps) prices =
      price_map snaps (if str_eq symbol "" then prices else insert symbol price prices)

pub record PaperExecutionSummary (F : Type 0) : Type 0 where
  pub fills_opened : ℕ
  pub fills_closed : ℕ
  pub closed_trades : List (ClosedTrade F)
  pub realized_pnl : F
  pub ending_equity : F
  pub risk_events : List (RiskEvent F)

abbrev pub pnl_of : {F : Type 0} → ClosedTrade F → F
pnl_of t = t.pnl

module _ {F : Type 0} ⦃fl : Float F⦄ where
  abbrev summary : PaperBroker F → PaperExecutionSummary F
  summary b = record {
    fills_opened = b.fills_opened;
    fills_closed = b.fills_closed;
    closed_trades = b.closed_trades;
    realized_pnl = fsum (map pnl_of b.closed_trades);
    ending_equity = b.equity;
    risk_events = b.risk_events;
  }

  unfoldable pub reconcile_session :
      List (String × Option F) → F → PaperBroker F → PaperBroker F × PaperExecutionSummary F
  reconcile_session snapshots now b =
      let checked = (check_positions (price_map snapshots []) now b).0 in (checked, summary checked)
