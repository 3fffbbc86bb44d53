-- ===== src/Desk/KillSwitch/Laws.antt =====
-- The levels of the kill switch, what each level permits, and the audit trail of its changes.
use bot_crypto.Prelude.{
  ℕ, ◌+◌, ◌≤◌, String, ◌≡◌, refl, Bool, true, false, none, List, [], ◌∷◌, ◌++◌, arith, leb, All,
  if◌then◌else◌,
}
use bot_crypto.Desk.KillSwitch.{
  KillSwitchState, normal, no_new_risk, protection_only, read_only, halted, KillSwitchAction,
  KillSwitch, Change, initial, is_locked, is_action_allowed, activate, deactivate, Call,
  activate_call, deactivate_call, reset_call, apply, run,
}
use Prim.Native.Nat.{min}

-- The order of the states, from NORMAL up to HALTED.
abbrev pub level : KillSwitchState → ℕ
level normal = 0
level no_new_risk = 1
level protection_only = 2
level read_only = 3
level halted = 4

-- A state that is at least as severe permits no action that the milder state refuses.
pub is_action_allowed_antitone :
    (s t : KillSwitchState) (action : String)
    → level s ≤ level t
    → is_action_allowed t action ≡ true
    → is_action_allowed s action ≡ true
unfolding is_action_allowed
is_action_allowed_antitone normal normal a h k = k
is_action_allowed_antitone s t a h k = ground arith

-- An untargeted activation raises the level by one, up to HALTED; `deactivate` succeeds exactly
-- up to PROTECTION_ONLY and then ends in NORMAL, and otherwise it leaves the state.
pub level_changes :
    (ks : KillSwitch) (action : KillSwitchAction) (reason : String) (now : ℕ)
    → (level (activate action none reason now now ks).state ≡ min 4 (level ks.state + 1))
      × ((deactivate now ks).1 ≡ leb (level ks.state) 2)
      × (level (deactivate now ks).0.state ≡ (if leb (level ks.state) 2 then 0 else level ks.state))
unfolding activate deactivate
level_changes ks action reason now = (ground arith, ground arith, ground arith)

-- The changes lead from `s` to `t`, each from the state in which the one before it ended.
abbrev pub Leads : KillSwitchState → List Change → KillSwitchState → Type 0
Leads s [] t = s ≡ t
Leads s (c ∷ h) t = (c.previous ≡ s) × Leads c.current h t

Leads-append :
    (s t : KillSwitchState) (h : List Change) (c : Change)
    → Leads s h t
    → c.previous ≡ t
    → Leads s (h ++ c ∷ []) c.current
Leads-append s t [] c l e = ground arith
Leads-append s t (d ∷ h) c l e = (l.0, Leads-append d.current t h c l.1 e)

abbrev Trail : KillSwitch → Type 0
Trail ks = Leads normal ks.history ks.state

if-Trail :
    (b : Bool) (x y : KillSwitch × Bool) → Trail x.0 → Trail y.0 → Trail (if b then x else y).0
if-Trail true x y h k = h
if-Trail false x y h k = k

apply-Leads : (c : Call) (ks : KillSwitch) → Trail ks → Trail (apply c ks)
unfolding apply
apply-Leads (activate_call a t r now later) ks l = Leads-append normal ks.state ks.history _ l refl
apply-Leads (deactivate_call now) ks l =
    if-Trail (is_locked ks.state) _ _ l (Leads-append normal ks.state ks.history _ l refl)
apply-Leads (reset_call now) ks l = Leads-append normal ks.state ks.history _ l refl

run-Leads-from : (cs : List Call) (ks : KillSwitch) → Trail ks → Trail (run cs ks)
unfolding run
run-Leads-from [] ks l = l
run-Leads-from (c ∷ cs) ks l = run-Leads-from cs (apply c ks) (apply-Leads c ks l)

-- After any calls on a new switch its history is an unbroken trail from NORMAL to its state.
pub run-Leads : (cs : List Call) → Leads normal (run cs initial).history (run cs initial).state
run-Leads cs = run-Leads-from cs initial refl

-- Neither a reset nor an activation with an explicit target.
abbrev pub IsOrdinary : Call → Type 0
IsOrdinary (activate_call a t r now later) = t ≡ none
IsOrdinary (deactivate_call now) = Unit
IsOrdinary (reset_call now) = ⊥

apply-halted :
    (c : Call) (ks : KillSwitch) → IsOrdinary c → ks.state ≡ halted → (apply c ks).state ≡ halted
unfolding apply
apply-halted (activate_call a t r now later) ks o h = ground arith
apply-halted (deactivate_call now) ks o h = ground arith
apply-halted (reset_call now) ks o h = absurd o

-- Activations without a target and deactivations, in any number, leave HALTED as it is.
pub run-halted :
    (cs : List Call) (ks : KillSwitch)
    → All IsOrdinary cs
    → ks.state ≡ halted
    → (run cs ks).state ≡ halted
unfolding run
run-halted [] ks o h = h
run-halted (c ∷ cs) ks o h = run-halted cs (apply c ks) o.1 (apply-halted c ks o.0 h)
