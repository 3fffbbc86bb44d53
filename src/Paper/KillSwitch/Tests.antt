-- ===== src/Paper/KillSwitch/Tests.antt =====
-- The session's kill switch on concrete runs.
use bot_crypto.Prelude.{◌≡◌, refl, true, false, some, List, [], ◌∷◌}
use bot_crypto.Prelude.Int.{ℤ, pos, negsuc}
use bot_crypto.Float.Fixed.{fixed}
use bot_crypto.Paper.KillSwitch.{
  KillSwitch, manual, text, create, check, compute_drawdown, activate, daily_loss_of, Call,
  check_call, reset_daily_call, run,
}
use bot_crypto.Paper.KillSwitch.Laws.{IsConsistent, run-IsConsistent}

-- 10% drawdown, 5% daily loss, two losses in a row.
abbrev fresh : KillSwitch ℤ
fresh = create (pos 1000) (pos 500) 2

-- A day that opened at 1000, with a peak of 1000.
abbrev trading : KillSwitch ℤ
trading = record fresh { daily_start_equity = pos 10000000; peak_equity = pos 10000000 }

check_daily : (check (pos 9400000) (pos 0) trading).1 ≡ true
unfolding check activate compute_drawdown daily_loss_of
check_daily = refl

check_calm : (check (pos 9600000) (pos 0) trading).1 ≡ false
unfolding check activate compute_drawdown daily_loss_of
check_calm = refl

abbrev calls : List (Call ℤ)
calls =
    reset_daily_call (pos 10000000)
    ∷ check_call (pos 10000000) (pos 0)
    ∷ check_call (pos 9400000) (pos 1)
    ∷ []

run-IsConsistent_example : IsConsistent (run calls fresh)
run-IsConsistent_example = run-IsConsistent (pos 1000) (pos 500) 2 calls

abbrev killed : KillSwitch ℤ
killed = record trading {
  active = true;
  triggered_at = some (pos 7);
  trigger_reason = some manual;
  trigger_message = text "stop";
}

abbrev losses : List (ℤ × ℤ)
losses = (negsuc 9, pos 1) ∷ (negsuc 4, pos 2) ∷ []

abbrev once : KillSwitch ℤ
once = record trading { consecutive_losses = 1 }
