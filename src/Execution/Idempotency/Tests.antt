-- ===== src/Execution/Idempotency/Tests.antt =====
-- The guard on concrete calls.
use bot_crypto.Prelude.{◌≡◌, refl, List, [], ◌∷◌}
use bot_crypto.Execution.Idempotency.{
  Call, register_call, clear_call, initial, run, register, add, member, clear, active_count,
}

abbrev calls : List Call
calls = register_call "a" "1" ∷ clear_call ∷ register_call "b" "" ∷ register_call "b" "2" ∷ []

count-calls : active_count (run calls initial) ≡ 2
unfolding run active_count register add member clear
count-calls = refl
