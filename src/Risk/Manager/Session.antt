-- ===== src/Risk/Manager/Session.antt =====
-- What holds over a session: the kill switch latches, and the peak covers the equity.
use bot_crypto.Prelude.{◌≡◌, refl, true, List, [], ◌∷◌}
use bot_crypto.Float.{Float, IsOrdered, ◌+F◌, le-fmax_right}
use bot_crypto.Signal.{Signal}
use bot_crypto.Risk.Policy.{Risk}
use bot_crypto.Risk.Manager.{
  RiskManager, blocked, kill_switch, check_signal, Call, activate_call, trade_call, add_call,
  remove_call, reset_call, apply, run, create,
}

module _ {F : Type 0} ⦃fl : Float F⦄ where
  run-kill_switch :
      (cs : List (Call F)) (m : RiskManager F)
      → m.kill_switch_active ≡ true
      → (run cs m).kill_switch_active ≡ true
  unfolding run apply
  run-kill_switch [] m h = h
  run-kill_switch (activate_call ∷ cs) m h = run-kill_switch cs _ refl
  run-kill_switch (trade_call p ∷ cs) m h = run-kill_switch cs _ h
  run-kill_switch (add_call s n ∷ cs) m h = run-kill_switch cs _ h
  run-kill_switch (remove_call s ∷ cs) m h = run-kill_switch cs _ h
  run-kill_switch (reset_call ∷ cs) m h = run-kill_switch cs _ h

  -- Once the kill switch is active, it blocks every signal after any further calls.
  pub kill_switch_latches :
      (cs : List (Call F)) (m : RiskManager F) (s : Signal F)
      → m.kill_switch_active ≡ true
      → check_signal s (run cs m) ≡ blocked kill_switch
  unfolding check_signal
  kill_switch_latches cs m s h = rw (run-kill_switch cs m h)

  run-peak_from :
      (o : IsOrdered fl) (cs : List (Call F)) (m : RiskManager F)
      → fl.le m.equity m.peak_equity ≡ true
      → fl.le (run cs m).equity (run cs m).peak_equity ≡ true
  unfolding run apply
  run-peak_from o [] m h = h
  run-peak_from o (activate_call ∷ cs) m h = run-peak_from o cs _ h
  run-peak_from o (trade_call p ∷ cs) m h =
      run-peak_from o cs _ (le-fmax_right o m.peak_equity (m.equity +F p))
  run-peak_from o (add_call s n ∷ cs) m h = run-peak_from o cs _ h
  run-peak_from o (remove_call s ∷ cs) m h = run-peak_from o cs _ h
  run-peak_from o (reset_call ∷ cs) m h = run-peak_from o cs _ h

  -- With equities in a total order, in every session the peak equity is at least the equity.
  pub run-peak :
      (o : IsOrdered fl) (risk : Risk F) (equity : F) (cs : List (Call F))
      → let m = run cs (create risk equity) in fl.le m.equity m.peak_equity ≡ true
  unfolding create
  run-peak o risk equity cs = run-peak_from o cs _ (le-fmax_right o _ equity)
