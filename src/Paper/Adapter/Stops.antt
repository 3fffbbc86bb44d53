-- ===== src/Paper/Adapter/Stops.antt =====
-- What the adapter makes of an alpha signal that could be created.
use bot_crypto.Prelude.{◌≡◌, true, false, none, some, arith}
use bot_crypto.Float.{Float, whole, ◌≤F◌, ◌<F◌}
use bot_crypto.Signal.{Signal, sell, checked}
use bot_crypto.Paper.Adapter.{
  AlphaSignal, short, adapted, create, stop_of, derived_stop_pct, signal_of, as_adapted,
  alpha_signal_to_signal,
}

module _ {F : Type 0} ⦃fl : Float F⦄ where
  created_price : (a : AlphaSignal F) → create a ≡ some a → a.entry_reference ≤F whole 0 ≡ false
  unfolding create
  created_price a h = ground arith

  -- An alpha signal that its own check lets through is always adapted: no error of the adapter, none of the signal.
  adapt-created :
      (unit : (whole 0 ≤F whole {F = F} 0 ≡ true) × (whole 0 ≤F whole {F = F} 1 ≡ true))
      (a : AlphaSignal F)
      → create a ≡ some a
      → alpha_signal_to_signal a ≡ adapted (signal_of a)
  unfolding alpha_signal_to_signal as_adapted checked signal_of
  adapt-created unit a h = ground (arith, unit, created_price a h)

  -- An alpha signal in the short direction, created with its stop at the entry price or above, where a short's stop belongs,
  -- and with no effective stop: the adapter converts it, and its signal has the default stop of 1 %, whatever the structural stop is.
  pub short_stop :
      (unit : (whole 0 ≤F whole {F = F} 0 ≡ true) × (whole 0 ≤F whole {F = F} 1 ≡ true))
      (a : AlphaSignal F)
      → create a ≡ some a
      → a.direction ≡ short
      → a.effective_stop ≡ none
      → a.structural_stop <F a.entry_reference ≡ false
      → (s : Signal F) × (alpha_signal_to_signal a ≡ adapted s)
        × (s.side ≡ sell)
        × (s.stop_loss_pct ≡ some (whole 1))
  unfolding signal_of stop_of derived_stop_pct
  short_stop unit a h s e k =
      (signal_of a, adapt-created unit a h, ground (arith, s), ground (arith, e, k))
