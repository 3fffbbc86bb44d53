-- ===== src/Observability/Journal/Tests.antt =====
-- A session with two trades of one symbol in the same millisecond.
use bot_crypto.Prelude.{String, ◌≡◌, refl, none, some, List, [], ◌∷◌}
use bot_crypto.Prelude.Int.{ℤ}
use bot_crypto.Float.{whole}
use bot_crypto.Float.Fixed.{fixed}
use bot_crypto.Prelude.Decimal.{lacks_dash, decimal, decimal_with, digit, without_slash}
use bot_crypto.Observability.Journal.{
  Call, open_call, close_call, blocked_call, trade_id_of, create, recorded, get_trade, record_open,
  record_blocked, record_close, has_rejection, find_trade, decision_id_of, run, apply, insert_trade,
  seen, base_id,
}
use bot_crypto.Observability.Journal.Ids.{next_id, new_row, record_open_lem}

abbrev calls : List (Call ℤ String)
calls =
    open_call 5 "BTC/USDT" (whole 1) "ema"
    ∷ blocked_call 5 "BTC/USDT" "exposure" none
    ∷ close_call "T-5-BTCUSDT" (record {
      exit_price = whole 9;
      pnl_net = whole 1;
      exit_reason = "signal";
      closed_at = whole 2;
    })
    ∷ []

record_open_lem_example :
    let j = run calls create in
    (get_trade (next_id 5 "BTC/USDT" j) j ≡ none)
    × ((record_open 5 "BTC/USDT" (whole 3) "ema" j).1 ≡ recorded (next_id 5 "BTC/USDT" j))
    × (get_trade (next_id 5 "BTC/USDT" j) (record_open 5 "BTC/USDT" (whole 3) "ema" j).0
        ≡ some (new_row 5 "BTC/USDT" (whole 3) "ema" j))
unfolding lacks_dash
record_open_lem_example =
    record_open_lem calls (refl, (tt, (tt, tt))) 5 "BTC/USDT" (whole 3) "ema" refl

-- The second trade of the millisecond.
second_id : next_id 5 "BTC/USDT" (run calls create) ≡ "T-5-BTCUSDT-2"
unfolding run apply record_open record_blocked record_close has_rejection find_trade decision_id_of
    insert_trade seen trade_id_of base_id decimal decimal_with digit without_slash
second_id = refl
