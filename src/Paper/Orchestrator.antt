-- ===== src/Paper/Orchestrator.antt =====
-- The loop of sessions: src/trading_bot/paper/paper_orchestrator.py. What others may change while it sleeps or a session runs,
-- the settings and the request to stop, is the world: a function of the number of sessions completed. The loop has no
-- bound of its own, so it runs on fuel. The status keeps no copy of the last result; the log and a cancellation
-- are left out.
pub mod Ends
mod Tests
use bot_crypto.Prelude.{
  ℕ, zero, suc, ◌+◌, String, Bool, true, false, ◌&&◌, not, Option, none, some, List, [], ◌∷◌, ◌++◌,
  leb, if◌then◌else◌,
}
use bot_crypto.Float.{Float, whole}
use bot_crypto.Paper.Cycle.Stages.{Engine}
use bot_crypto.Paper.Session.{
  Desk, SessionInput, SessionResult, Runtime, is_paper, is_valid, run_session,
}

pub data GateError : Type 0 where
  mode_changed paper_trading_disabled : GateError

-- What the loop reads around one session, and what the scanner and the clock give that session.
pub record Observed (F : Type 0) : Type 0 where
  pub stop_before : Bool
  pub runtime : Runtime
  pub input : SessionInput F
  pub stop_after : Bool

pub record PaperOrchestrator (F : Type 0) : Type 0 where
  pub running : Bool
  pub sessions_completed : ℕ
  pub realized_pnl : F
  pub equity : F
  pub last_errors : List GateError
  pub sessions : List (SessionResult F)
  pub desk : Desk F

pub data Run (F : Type 0) : Type 0 where
  ended : PaperOrchestrator F → Run F
  out_of_fuel : PaperOrchestrator F → Run F
  -- the ValueError of a session
  raised : PaperOrchestrator F → Run F

-- `_gate_failed`, by the error that it notes
unfoldable pub gate_failed : Runtime → Option GateError
gate_failed r =
    if not (is_paper r.mode)
    then some mode_changed
    else if not r.enable_paper_trading
    then some paper_trading_disabled
    else none

-- `self._max_sessions is not None and self._status.sessions_completed >= self._max_sessions`
abbrev pub is_reached : Option ℕ → ℕ → Bool
is_reached none completed = false
is_reached (some n) completed = leb n completed

module _ {F : Type 0} where
  -- The `finally` of the loop.
  abbrev pub finish : PaperOrchestrator F → PaperOrchestrator F
  finish o = record o { running = false }

  abbrev pub note_error : GateError → PaperOrchestrator F → PaperOrchestrator F
  note_error e o = record o { last_errors = o.last_errors ++ e ∷ [] }

  -- The end of `_run_one_session`.
  pub note_session : PaperOrchestrator F → Desk F × SessionResult F → PaperOrchestrator F
  note_session o (desk, result) = record {
    running = o.running;
    sessions_completed = o.sessions_completed + 1;
    realized_pnl = result.execution_summary.realized_pnl;
    equity = desk.broker.equity;
    last_errors = o.last_errors;
    sessions = o.sessions ++ result ∷ [];
    desk = desk;
  }

module _ {F : Type 0} ⦃fl : Float F⦄ (engine : Engine F) (max_sessions : Option ℕ)
    (world : ℕ → Observed F) where
  -- What follows a session: none is its ValueError.
  after_session :
      (PaperOrchestrator F → Run F)
      → Observed F
      → PaperOrchestrator F
      → Option (Desk F × SessionResult F)
      → Run F
  unfolding note_session
  after_session continue w o none = raised (finish o)
  after_session continue w o (some r) =
      let next = note_session o r in
      let rest = continue next in
      if is_reached max_sessions next.sessions_completed
      then ended (finish next)
      else if w.stop_after
      then ended (finish next)
      else rest

  -- The gate, and what follows it.
  at_gate :
      (PaperOrchestrator F → Run F) → Observed F → PaperOrchestrator F → Option GateError → Run F
  unfolding after_session
  at_gate continue w o (some e) = ended (finish (note_error e o))
  at_gate continue w o none =
      let rest = after_session continue w o (run_session w.runtime engine w.input o.desk) in
      if is_reached max_sessions o.sessions_completed then ended (finish o) else rest

  -- `while not self._stop_requested`
  pub loop : ℕ → PaperOrchestrator F → Run F
  unfolding at_gate
  loop zero o = out_of_fuel o
  loop (suc fuel) o =
      let w = world o.sessions_completed in
      let rest = at_gate (loop fuel) w o (gate_failed w.runtime) in
      if w.stop_before then ended (finish o) else rest

module _ {F : Type 0} ⦃fl : Float F⦄ where
  pub create : Desk F → PaperOrchestrator F
  create desk = record {
    running = false;
    sessions_completed = 0;
    realized_pnl = whole 0;
    equity = whole 0;
    last_errors = [];
    sessions = [];
    desk = desk;
  }

  -- None is the ValueError of `_validate_start`, which checks the runtime that it finds.
  pub run :
      Runtime → Engine F → Option ℕ → (ℕ → Observed F) → ℕ → PaperOrchestrator F → Option (Run F)
  run r engine max_sessions world fuel o =
      let started = loop engine max_sessions world fuel (record o { running = true }) in
      if is_valid r then some started else none
