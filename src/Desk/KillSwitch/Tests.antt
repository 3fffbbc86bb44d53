-- ===== src/Desk/KillSwitch/Tests.antt =====
-- The kill switch on concrete calls.
use bot_crypto.Prelude.{◌≡◌, refl, none, some, List, [], ◌∷◌}
use bot_crypto.Desk.KillSwitch.{
  normal, halted, user, daily_loss, key_compromise, initial, activate, Call, activate_call,
  deactivate_call, apply, run,
}
use bot_crypto.Desk.KillSwitch.Laws.{run-halted}

abbrev calls : List Call
calls =
    activate_call daily_loss none "" 1 2
    ∷ deactivate_call 3
    ∷ activate_call key_compromise (some halted) "leak" 4 5
    ∷ deactivate_call 6
    ∷ activate_call user none "" 7 8
    ∷ []

run-calls : (run calls initial).state ≡ halted
unfolding run apply
run-calls = refl

-- An activation with an explicit target also lowers the state.
activate_leaves_halted : (activate user (some normal) "" 9 9 (run calls initial)).state ≡ normal
unfolding activate
activate_leaves_halted = refl

run-halted_example : (run (deactivate_call 9 ∷ []) (run calls initial)).state ≡ halted
unfolding run apply
run-halted_example = run-halted (deactivate_call 9 ∷ []) (run calls initial) (tt, tt) refl
