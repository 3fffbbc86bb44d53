-- ===== src/Paper/Broker/Exits.antt =====
-- The exit rules: what a candle triggers, compared with its closing price.
use bot_crypto.Prelude.{◌≡◌, true, ◌||◌, arith, is_some}
use bot_crypto.Float.{Float, IsOrdered}
use bot_crypto.Signal.{Side, buy, sell}
use bot_crypto.Paper.Broker.Types.{
  PaperPosition, BothHitPolicy, Candle, check_exit, check_candle, stop_loss_price,
  take_profit_price, exit_at, stop_touched, target_touched,
}

module _ {F : Type 0} ⦃fl : Float F⦄ where
  touched_at :
      (o : IsOrdered fl) (s : Side) (c : Candle F) (stop target : F)
      → fl.le c.low c.close ≡ true
      → fl.le c.close c.high ≡ true
      → is_some (exit_at s c.close stop target) ≡ true
      → (stop_touched s c stop || target_touched s c target) ≡ true
  touched_at o buy c stop target low high h =
      ground (arith, o.le_trans c.low c.close stop, o.le_trans target c.close c.high)
  touched_at o sell c stop target low high h =
      ground (arith, o.le_trans stop c.close c.high, o.le_trans c.low c.close target)

  -- With prices in a total order, and a candle whose close lies between its low and its high, the check on the whole
  -- candle misses no exit that the check on its close sees, under either policy.
  pub check_candle-of-check_exit :
      (o : IsOrdered fl) (policy : BothHitPolicy) (p : PaperPosition F) (c : Candle F)
      → fl.le c.low c.close ≡ true
      → fl.le c.close c.high ≡ true
      → is_some (check_exit p c.close) ≡ true
      → is_some (check_candle policy p c) ≡ true
  unfolding check_exit check_candle
  check_candle-of-check_exit o policy p c low high h =
      ground (arith, touched_at o p.side c (stop_loss_price p) (take_profit_price p) low high h)
