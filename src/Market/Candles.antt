-- ===== src/Market/Candles.antt =====
-- Completed candles only: src/trading_bot/market_data/candle_filter.py and htf_pit.py. A time in seconds is a float; the
-- instant of a signal, which is only compared with integers, enters by its whole part.
pub mod Closed
pub mod PointInTime
mod Tests
use bot_crypto.Prelude.{
  ℕ, ◌+◌, String, Bool, true, false, ◌&&◌, Option, none, some, List, [], ◌∷◌, ltb, leb, str_eq,
  length, get_last?, if◌then◌else◌,
}
use bot_crypto.Float.{Float, whole, ◌+F◌, ◌/F◌, ◌≤F◌}
use bot_crypto.Market.Timeframe.{Timeframe, seconds, name, timeframes}

pub record Ohlcv (F : Type 0) : Type 0 where
  pub symbol : String
  pub timestamp : ℕ
  pub open_price : F
  pub high : F
  pub low : F
  pub close : F
  pub volume : F

-- `UnknownTimeframeError` and the ValueError of `validate_candles_not_empty`
pub data CandleError : Type 0 where
  unknown_timeframe not_enough_candles : CandleError

pub data Result (A : Type 0) : Type 0 where
  ok : A → Result A
  err : CandleError → Result A

-- `TIMEFRAME_SECONDS.get(key)`
pub seconds_of : String → List Timeframe → Option ℕ
seconds_of key [] = none
seconds_of key (tf ∷ tfs) = if str_eq (name tf) key then some (seconds tf) else seconds_of key tfs

-- The higher-timeframe state.
pub record HtfState (F : Type 0) : Type 0 where
  pub symbol : String
  pub timeframe : String
  pub bar_open_ts : ℕ
  pub close_ts : ℕ
  pub open_price : F
  pub high : F
  pub low : F
  pub close : F
  pub volume : F

-- `lower` is `str.lower`.
module _ (lower : String → String) where
  pub timeframe_seconds_or_raise : String → Result ℕ
  timeframe_seconds_or_raise timeframe = elim (seconds_of (lower timeframe) timeframes) [
    | none ↦ err unknown_timeframe
    | some n ↦ ok n
  ]

abbrev pub ms_epoch_threshold : ℕ
ms_epoch_threshold = 100_000_000_000

module _ {F : Type 0} ⦃fl : Float F⦄ where
  pub to_seconds : ℕ → F
  to_seconds timestamp =
      if ltb ms_epoch_threshold timestamp then whole timestamp /F whole 1000 else whole timestamp

  -- The candle's end is not after the current time.
  pub is_closed : ℕ → F → Ohlcv F → Bool
  is_closed tf_seconds current_time c = to_seconds c.timestamp +F whole tf_seconds ≤F current_time

  pub is_candle_complete : (String → String) → Ohlcv F → String → F → Result Bool
  is_candle_complete lower c timeframe current_time =
      elim (timeframe_seconds_or_raise lower timeframe) [
        | err e ↦ err e
        | ok n ↦ ok (is_closed n current_time c)
      ]

  keep : Ohlcv F → Bool → Result (List (Ohlcv F)) → Result (List (Ohlcv F))
  keep c b (err e) = err e
  keep c b (ok cs) = ok (if b then c ∷ cs else cs)

  -- The comprehension asks each candle in turn, and the first that raises ends it.
  pub filter_completed_candles :
      (String → String) → List (Ohlcv F) → String → F → Result (List (Ohlcv F))
  unfolding keep
  filter_completed_candles lower [] timeframe current_time = ok []
  filter_completed_candles lower (c ∷ cs) timeframe current_time =
      let rest = filter_completed_candles lower cs timeframe current_time in
      elim (is_candle_complete lower c timeframe current_time) [
        | err e ↦ err e
        | ok b ↦ keep c b rest
      ]

  pub get_last_completed_candle :
      (String → String) → List (Ohlcv F) → String → F → Result (Option (Ohlcv F))
  get_last_completed_candle lower cs timeframe current_time =
      elim (filter_completed_candles lower cs timeframe current_time) [
        | err e ↦ err e
        | ok completed ↦ ok (get_last? completed)
      ]

  pub validate_candles_not_empty :
      (String → String) → List (Ohlcv F) → String → ℕ → F → Result (List (Ohlcv F))
  validate_candles_not_empty lower cs timeframe min_count current_time =
      elim (filter_completed_candles lower cs timeframe current_time) [
        | err e ↦ err e
        | ok completed ↦
            if ltb (length completed) min_count then err not_enough_candles else ok completed
      ]

-- `close_ts <= signal_timestamp`: the seconds are added to the timestamp in its own unit
abbrev pub ends_by : {F : Type 0} → ℕ → ℕ → Ohlcv F → Bool
ends_by tf_seconds signal c = leb (c.timestamp + tf_seconds) signal

-- `best is None or c.timestamp > best.timestamp`
abbrev pub is_newer : {F : Type 0} → Ohlcv F → Option (Ohlcv F) → Bool
is_newer c none = true
is_newer c (some best) = ltb best.timestamp c.timestamp

-- The loop of `get_completed_htf_state_at`.
pub newest_closed : {F : Type 0} → ℕ → ℕ → List (Ohlcv F) → Option (Ohlcv F) → Option (Ohlcv F)
newest_closed n signal [] best = best
newest_closed n signal (c ∷ cs) best =
    newest_closed n signal cs (if ends_by n signal c && is_newer c best then some c else best)

abbrev pub state_of : {F : Type 0} → String → ℕ → Ohlcv F → HtfState F
state_of timeframe n best = record {
  symbol = best.symbol;
  timeframe = timeframe;
  bar_open_ts = best.timestamp;
  close_ts = best.timestamp + n;
  open_price = best.open_price;
  high = best.high;
  low = best.low;
  close = best.close;
  volume = best.volume;
}

pub htf_state : {F : Type 0} → String → ℕ → Option (Ohlcv F) → Option (HtfState F)
htf_state timeframe n none = none
htf_state timeframe n (some best) = some (state_of timeframe n best)

pub get_completed_htf_state_at :
    {F : Type 0} → (String → String) → List (Ohlcv F) → String → ℕ → Result (Option (HtfState F))
get_completed_htf_state_at lower cs timeframe signal =
    elim (timeframe_seconds_or_raise lower timeframe) [
      | err e ↦ err e
      | ok n ↦ ok (htf_state timeframe n (newest_closed n signal cs none))
    ]
