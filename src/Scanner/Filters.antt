-- ===== src/Scanner/Filters.antt =====
-- The filters of the scanner: src/trading_bot/scanner/filters.py. The data source is the record `Source`, what it
-- answers for a symbol; the awaits are left out.
pub mod Outcomes
mod Tests
use bot_crypto.Prelude.{
  ℕ, ◌-◌, String, Bool, true, false, not, ◌||◌, Option, none, some, List, [], ◌∷◌, length, ltb,
  if◌then◌else◌,
}
use bot_crypto.Float.{Float, whole, ◌+F◌, ◌-F◌, ◌*F◌, ◌/F◌, ◌<F◌, ◌≤F◌, fmax, fabs, fsum}
use bot_crypto.Market.Candles.{Ohlcv}

pub data RejectionReason : Type 0 where
  volume_below_threshold volume_below_live_threshold spread_above_threshold : RejectionReason
  atr_out_of_range insufficient_history : RejectionReason

pub record FilterOutcome : Type 0 where
  pub passed : Bool
  pub reason : Option RejectionReason

-- `VALID_MODES`; any other text is `invalid`.
pub data Mode : Type 0 where
  research backtest paper live invalid : Mode

abbrev pub is_live : Mode → Bool
is_live live = true
is_live _ = false

abbrev pub is_valid : Mode → Bool
is_valid invalid = false
is_valid _ = true

pub record Source (F : Type 0) : Type 0 where
  pub volume_usdt : String → F
  pub spread_bps : String → F
  pub recent : String → ℕ → List (Ohlcv F)

pub record VolumeFilter (F : Type 0) : Type 0 where
  pub min_usdt : F
  pub mode : Mode
  pub live_min_usdt : Option F

pub record SpreadFilter (F : Type 0) : Type 0 where
  pub max_bps : F

pub record AtrFilter (F : Type 0) : Type 0 where
  pub min_pct : F
  pub max_pct : F
  pub min_history : ℕ

abbrev pub accept : FilterOutcome
accept = record { passed = true; reason = none }

abbrev pub reject : RejectionReason → FilterOutcome
reject reason = record { passed = false; reason = some reason }

module _ {F : Type 0} ⦃fl : Float F⦄ where
  -- Whether the check of `live_min_usdt` raises, where it is given.
  pub live_refused : F → Option F → Bool
  live_refused min_usdt none = false
  live_refused min_usdt (some l) = l <F whole 0 || l <F min_usdt

  -- None stands for the ValueError.
  pub create_volume : F → Mode → Option F → Option (VolumeFilter F)
  create_volume min_usdt mode live_min_usdt =
      if min_usdt <F whole 0 || live_refused min_usdt live_min_usdt || not (is_valid mode)
      then none
      else some (record { min_usdt = min_usdt; mode = mode; live_min_usdt = live_min_usdt })

  pub volume_threshold : VolumeFilter F → F × RejectionReason
  volume_threshold f = elim f.live_min_usdt [
    | none ↦ (f.min_usdt, volume_below_threshold)
    | some l ↦
        if is_live f.mode
        then (l, volume_below_live_threshold)
        else (f.min_usdt, volume_below_threshold)
  ]

  pub apply_volume : VolumeFilter F → String → Source F → FilterOutcome
  apply_volume f symbol source =
      if source.volume_usdt symbol <F (volume_threshold f).0
      then reject (volume_threshold f).1
      else accept

  pub create_spread : F → Option (SpreadFilter F)
  create_spread max_bps = if max_bps <F whole 0 then none else some (record { max_bps = max_bps })

  pub apply_spread : SpreadFilter F → String → Source F → FilterOutcome
  apply_spread f symbol source =
      if f.max_bps <F source.spread_bps symbol then reject spread_above_threshold else accept

  abbrev pub true_range : Ohlcv F → Ohlcv F → F
  true_range prev cur =
      fmax (fmax (cur.high -F cur.low) (fabs (cur.high -F prev.close)))
        (fabs (cur.low -F prev.close))

  pub true_ranges : Ohlcv F → List (Ohlcv F) → List F
  true_ranges prev [] = []
  true_ranges prev (c ∷ cs) = true_range prev c ∷ true_ranges c cs

  pub last_close : Ohlcv F → List (Ohlcv F) → F
  last_close c [] = c.close
  last_close c (d ∷ ds) = last_close d ds

  pub arith_mean : List F → F
  arith_mean [] = whole 0
  arith_mean (x ∷ xs) = fsum (x ∷ xs) /F whole (length (x ∷ xs))

  pub compute_atr_pct : List (Ohlcv F) → F
  compute_atr_pct [] = whole 0
  compute_atr_pct (c ∷ []) = whole 0
  compute_atr_pct (c ∷ d ∷ ds) =
      let last = last_close c (d ∷ ds) in
      if last ≤F whole 0 then whole 0 else arith_mean (true_ranges c (d ∷ ds)) /F last *F whole 100

  pub create_atr : F → F → ℕ → Option (AtrFilter F)
  create_atr min_pct max_pct min_history =
      if min_pct <F whole 0 || max_pct <F whole 0 || max_pct <F min_pct || ltb min_history 1
      then none
      else some (record { min_pct = min_pct; max_pct = max_pct; min_history = min_history })

  pub apply_atr : AtrFilter F → String → Source F → FilterOutcome
  apply_atr f symbol source =
      let candles = source.recent symbol f.min_history in
      if ltb (length candles) f.min_history
      then reject insufficient_history
      else if compute_atr_pct candles <F f.min_pct || f.max_pct <F compute_atr_pct candles
      then reject atr_out_of_range
      else accept
