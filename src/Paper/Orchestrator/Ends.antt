-- ===== src/Paper/Orchestrator/Ends.antt =====
-- That the loop ends, and what had to hold for each session that it ran.
use bot_crypto.Prelude.{
  ℕ, zero, suc, ◌+◌, ◌≤◌, ◌<◌, ◌≡◌, refl, sym, ap, subst, true, false, Option, none, some, [], ◌∷◌,
  ◌⊎◌, inl, inr, arith, leb, length, length-append, is_some, Bool-cases, Option-cases,
}
use bot_crypto.Float.{Float}
use bot_crypto.Paper.Cycle.Stages.{Engine}
use bot_crypto.Paper.Session.{Desk, SessionResult, Runtime, is_valid, run_valid, run_session}
use bot_crypto.Paper.Orchestrator.{
  Observed, PaperOrchestrator, Run, ended, gate_failed, is_reached, finish, note_error,
  note_session, after_session, at_gate, loop, create, run,
}

-- The gate is the session's own check of the runtime.
gate-is_valid : (r : Runtime) → gate_failed r ≡ none → is_valid r ≡ true
unfolding gate_failed is_valid
gate-is_valid r h = ground (arith, h)

le-cases : (a b : ℕ) → a ≤ b → (a < b) ⊎ (a ≡ b)
le-cases a b h = elim (Bool-cases (leb b a)) [
  | inl e ↦ inr (ground (arith, e, h))
  | inr e ↦ inl (ground (arith, e))
]

module _ {F : Type 0} ⦃fl : Float F⦄ (engine : Engine F) (max_sessions : Option ℕ)
    (world : ℕ → Observed F) where
  -- After `n` sessions there is none left: the cap is reached, a stop was requested, or a gate fails.
  abbrev pub IsClosed : ℕ → Type 0
  IsClosed n =
      (is_reached max_sessions n ≡ true)
      ⊎ (((world n).stop_before ≡ true) ⊎ (is_some (gate_failed (world n).runtime) ≡ true))

  -- Before each of the sessions from the first number to the second the gate let it pass and no stop was requested.
  pub data Passed : ℕ → ℕ → Type 0 where
    no_session : {a : ℕ} → Passed a a
    session :
        {a b : ℕ}
        → is_valid (world a).runtime ≡ true
        → (world a).stop_before ≡ false
        → is_reached max_sessions a ≡ false
        → Passed (a + 1) b
        → Passed a b

  -- The run ended, no longer running, after at most `n` sessions, each of which passed and left one result.
  abbrev pub EndsBy : ℕ → PaperOrchestrator F → Run F → Type 0
  EndsBy n o r =
      (o' : PaperOrchestrator F) × (r ≡ ended o')
      × (o'.running ≡ false)
      × (o'.sessions_completed ≤ n)
      × (length o'.sessions + o.sessions_completed ≡ length o.sessions + o'.sessions_completed)
      × Passed o.sessions_completed o'.sessions_completed

  ends_here :
      (n : ℕ) (o : PaperOrchestrator F) → o.sessions_completed ≤ n → EndsBy n o (ended (finish o))
  ends_here n o h = (finish o, refl, refl, h, refl, no_session)

  below_closed :
      (n c : ℕ)
      → c ≤ n
      → IsClosed n
      → (world c).stop_before ≡ false
      → gate_failed (world c).runtime ≡ none
      → is_reached max_sessions c ≡ false
      → c < n
  below_closed n c h k s g m = elim (le-cases c n h) [
    | inl lt ↦ lt
    | inr e ↦ closed_here (subst (λ x. IsClosed x) (sym e) k)
  ]
    where
      closed_here : IsClosed c → c < n
      closed_here (inl r) = ground (arith, r, m)
      closed_here (inr (inl r)) = ground (arith, r, s)
      closed_here (inr (inr r)) = ground (arith, r, g)

  run_session-valid :
      (w : Observed F) (d : Desk F)
      → is_valid w.runtime ≡ true
      → run_session w.runtime engine w.input d ≡ some (run_valid engine w.input d)
  unfolding run_session
  run_session-valid w d h = ground (arith, h)

  -- One more session before a run that ends.
  session_first :
      (n : ℕ) (o : PaperOrchestrator F) (x : Desk F × SessionResult F) (r : Run F)
      → is_valid (world o.sessions_completed).runtime ≡ true
      → (world o.sessions_completed).stop_before ≡ false
      → is_reached max_sessions o.sessions_completed ≡ false
      → EndsBy n (note_session o x) r
      → EndsBy n o r
  unfolding note_session
  session_first n o (desk, result) r v s m (o', e, stopped, bound, total, passed) = (
    o',
    e,
    stopped,
    bound,
    omega (arith, total, length-append o.sessions (result ∷ [])),
    session v s m passed,
  )

  completed-note :
      (o : PaperOrchestrator F) (x : Desk F × SessionResult F)
      → (note_session o x).sessions_completed ≡ o.sessions_completed + 1
  unfolding note_session
  completed-note o x = refl

  after_session-EndsBy :
      (continue : PaperOrchestrator F → Run F) (n : ℕ) (o : PaperOrchestrator F)
      (x : Desk F × SessionResult F)
      → o.sessions_completed < n
      → EndsBy n (note_session o x) (continue (note_session o x))
      → EndsBy n
          (note_session o x)
          (after_session engine max_sessions world continue (world o.sessions_completed) o (some x))
  unfolding after_session
  after_session-EndsBy continue n o x h k =
      let here = ends_here n (note_session o x) (omega (arith, h, completed-note o x)) in
      elim (Bool-cases (is_reached max_sessions (note_session o x).sessions_completed)) [
        | inl e ↦ rw e here
        | inr e ↦ rw e (elim (Bool-cases (world o.sessions_completed).stop_after) [
          | inl f ↦ rw f here
          | inr f ↦ rw f k
        ])
      ]

  at_gate-EndsBy :
      (continue : PaperOrchestrator F → Run F) (n : ℕ) (o : PaperOrchestrator F)
      → o.sessions_completed ≤ n
      → IsClosed n
      → (world o.sessions_completed).stop_before ≡ false
      → ((x : Desk F × SessionResult F)
          → o.sessions_completed < n
          → EndsBy n (note_session o x) (continue (note_session o x)))
      → EndsBy n o (
          at_gate engine max_sessions world continue
            (world o.sessions_completed)
            o
            (gate_failed (world o.sessions_completed).runtime))
  unfolding at_gate
  at_gate-EndsBy continue n o h closed s k =
      let w = world o.sessions_completed in
      elim (Option-cases (gate_failed w.runtime)) [
        | inr (e, g) ↦ rw g (finish (note_error e o), refl, refl, h, refl, no_session)
        | inl g ↦ rw g (elim (Bool-cases (is_reached max_sessions o.sessions_completed)) [
          | inl m ↦ rw m (ends_here n o h)
          | inr m ↦
              let valid = gate-is_valid w.runtime g in
              let room = below_closed n o.sessions_completed h closed s g m in
              let x = run_valid engine w.input o.desk in
              rw (m, run_session-valid w o.desk valid)
                (session_first n o x _ valid s m
                  (after_session-EndsBy continue n o x room (k x room)))
        ])
      ]

  -- If after `n` sessions the loop is closed, by the cap, a stop or a failing gate, then from any orchestrator that has
  -- completed no more than `n` the loop ends, with fuel for the sessions left and one more.
  loop-EndsBy :
      (fuel n : ℕ) (o : PaperOrchestrator F)
      → o.sessions_completed ≤ n
      → n < fuel + o.sessions_completed
      → IsClosed n
      → EndsBy n o (loop engine max_sessions world fuel o)
  unfolding loop
  loop-EndsBy zero n o h k closed = ground (arith, h, k)
  loop-EndsBy (suc fuel) n o h k closed =
      elim (Bool-cases (world o.sessions_completed).stop_before) [
        | inl s ↦ rw s (ends_here n o h)
        | inr s ↦ rw s (
            at_gate-EndsBy (loop engine max_sessions world fuel) n o h closed s (λ x room.
              loop-EndsBy fuel n (note_session o x) (omega (arith, room, completed-note o x))
                (omega (arith, k, completed-note o x)) closed))
      ]

module _ {F : Type 0} ⦃fl : Float F⦄ where
  -- Started with valid settings on a fresh orchestrator, the loop ends if for some `n` the cap is at most `n`, or after `n`
  -- sessions a stop is requested or the settings fail the gate: with fuel for n + 1 rounds it returns, no longer running,
  -- and without the ValueError of a session, after at most `n` sessions; each of them left one result, and before each
  -- the settings were valid, no stop was requested and the cap was not reached.
  pub run-EndsBy :
      (r : Runtime) (engine : Engine F) (max_sessions : Option ℕ) (world : ℕ → Observed F) (n : ℕ)
      (desk : Desk F)
      → is_valid r ≡ true
      → IsClosed engine max_sessions world n
      → (o : PaperOrchestrator F) × (run r engine max_sessions world (suc n) (create desk)
          ≡ some (ended o))
        × (o.running ≡ false)
        × (o.sessions_completed ≤ n)
        × (length o.sessions ≡ o.sessions_completed)
        × Passed engine max_sessions world 0 o.sessions_completed
  unfolding run create
  run-EndsBy r engine max_sessions world n desk v closed =
      let o = record (create desk) { running = true } in
      let (o', e, stopped, bound, total, passed) =
        loop-EndsBy engine max_sessions world (suc n) n o (omega arith) (omega arith) closed in
      (o', rw v (ap some e), stopped, bound, omega (arith, total), passed)
