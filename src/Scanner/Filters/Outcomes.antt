-- ===== src/Scanner/Filters/Outcomes.antt =====
-- What the filters let through.
use bot_crypto.Prelude.{String, ◌≡◌, true, not, Option, none, some, arith, is_some}
use bot_crypto.Float.{Float, IsOrdered}
use bot_crypto.Scanner.Filters.{
  Mode, live, Source, VolumeFilter, SpreadFilter, AtrFilter, live_refused, create_volume,
  volume_threshold, apply_volume, apply_spread, apply_atr,
}

module _ {F : Type 0} ⦃fl : Float F⦄ where
  -- Every filter gives a reason exactly if it rejects.
  pub outcomes_agree :
      (v : VolumeFilter F) (s : SpreadFilter F) (a : AtrFilter F) (symbol : String)
      (source : Source F)
      → ((apply_volume v symbol source).passed
          ≡ not (is_some (apply_volume v symbol source).reason))
        × ((apply_spread s symbol source).passed
            ≡ not (is_some (apply_spread s symbol source).reason))
        × ((apply_atr a symbol source).passed ≡ not (is_some (apply_atr a symbol source).reason))
  unfolding apply_volume apply_spread apply_atr
  outcomes_agree v s a symbol source = (ground arith, ground arith, ground arith)

  -- With numbers in a total order, a symbol that passes the volume filter of a live session passes the filter of every
  -- other mode with the same settings, where both are accepted.
  pub live_passes_all :
      (o : IsOrdered fl) (min_usdt : F) (mode : Mode) (live_min_usdt : Option F)
      (f g : VolumeFilter F) (symbol : String) (source : Source F)
      → create_volume min_usdt live live_min_usdt ≡ some f
      → create_volume min_usdt mode live_min_usdt ≡ some g
      → (apply_volume f symbol source).passed ≡ true
      → (apply_volume g symbol source).passed ≡ true
  unfolding create_volume apply_volume volume_threshold live_refused
  live_passes_all o min_usdt mode none f g symbol source e k h = ground arith
  live_passes_all o min_usdt mode (some l) f g symbol source e k h = ground (
    arith,
    o.lt-eq-not-le (source.volume_usdt symbol) l,
    o.lt-eq-not-le (source.volume_usdt symbol) min_usdt,
    o.lt-eq-not-le l min_usdt,
    o.le_trans min_usdt l (source.volume_usdt symbol),
  )
