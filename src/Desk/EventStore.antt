-- ===== src/Desk/EventStore.antt =====
-- The append-only event store: src/trading_bot/storage/event_store.py, with the events of
-- src/trading_bot/domain/events/journal.py and the hash chain of src/trading_bot/domain/events/hashing.py.
-- SHA-256 over the rendered fields is the parameter `hash`; the payload is any type with an empty value,
-- the `{}` of the source. Identifiers and times come from outside and are arguments.
pub mod Integrity
pub mod Lifecycle
mod Tests
use bot_crypto.Prelude.{
  ℕ, zero, suc, String, Bool, true, false, not, ◌&&◌, Option, none, some, List, [], ◌∷◌, ◌++◌, ◌≡◌,
  leb, str_eq, if◌then◌else◌, filter,
}

pub data EventType : Type 0 where
  proposal_opened evidence_added risk_passed risk_rejected approval_requested approval_granted :
      EventType
  execution_prepared order_sent order_acknowledged order_resting fill_received position_changed :
      EventType
  protection_verified incident_opened trade_closed trade_reviewed : EventType

-- What is hashed of an event, besides the hash of the event before it.
pub record Body (P : Type 0) : Type 0 where
  pub event_id : String
  pub timestamp : ℕ
  pub ticket_id : String
  pub event_type : EventType
  pub actor : String
  pub payload : P

pub record DeskEvent (P : Type 0) : Type 0 where
  pub body : Body P
  pub previous_hash : String
  pub event_hash : String

pub record EventStore (P : Type 0) : Type 0 where
  pub events : List (DeskEvent P)
  pub previous_hash : String

abbrev pub initial : {P : Type 0} → EventStore P
initial = record { events = []; previous_hash = "" }

-- `(True, "")`, or the two messages with the position of the event.
pub data Verdict : Type 0 where
  valid : Verdict
  hash_mismatch chain_break : ℕ → Verdict

module _ {P : Type 0} (hash : Body P → String → String) where
  abbrev link : Body P → String → DeskEvent P
  link b previous = record { body = b; previous_hash = previous; event_hash = hash b previous }

  -- Returns the store and the event.
  pub append : Body P → EventStore P → EventStore P × DeskEvent P
  append b s = (
    record {
      events = s.events ++ link b s.previous_hash ∷ [];
      previous_hash = hash b s.previous_hash;
    },
    link b s.previous_hash,
  )

  -- The loop of `verify_hash_chain` at position `i`.
  pub verify_from : ℕ → String → List (DeskEvent P) → Verdict
  verify_from i previous [] = valid
  verify_from i previous (e ∷ es) =
      let rest = verify_from (suc i) e.event_hash es in
      if not (str_eq e.event_hash (hash e.body previous))
      then hash_mismatch i
      else if not (str_eq e.previous_hash previous)
      then chain_break i
      else rest

  pub verify_hash_chain : List (DeskEvent P) → Verdict
  verify_hash_chain es = verify_from 0 "" es

  pub verify_integrity : EventStore P → Verdict
  unfolding verify_hash_chain
  verify_integrity s = verify_hash_chain s.events

-- The calls that change the store.
pub data Call (P : Type 0) : Type 0 where
  append_call : Body P → Call P
  clear_call : Call P

module _ {P : Type 0} (hash : Body P → String → String) where
  pub run : List (Call P) → EventStore P → EventStore P
  run [] s = s
  run (append_call b ∷ cs) s = run cs (append hash b s).0
  run (clear_call ∷ cs) s = run cs initial

pub same_type : EventType → EventType → Bool
same_type proposal_opened proposal_opened = true
same_type evidence_added evidence_added = true
same_type risk_passed risk_passed = true
same_type risk_rejected risk_rejected = true
same_type approval_requested approval_requested = true
same_type approval_granted approval_granted = true
same_type execution_prepared execution_prepared = true
same_type order_sent order_sent = true
same_type order_acknowledged order_acknowledged = true
same_type order_resting order_resting = true
same_type fill_received fill_received = true
same_type position_changed position_changed = true
same_type protection_verified protection_verified = true
same_type incident_opened incident_opened = true
same_type trade_closed trade_closed = true
same_type trade_reviewed trade_reviewed = true
same_type a b = false

module _ {P : Type 0} where
  -- A filter that is not given, or an empty ticket id, keeps every event.
  wanted : Option String → Option EventType → Option ℕ → DeskEvent P → Bool
  unfolding same_type
  wanted ticket type since e =
      let b = e.body in
      elim ticket [ none ↦ true | some t ↦ if str_eq t "" then true else str_eq b.ticket_id t ]
      && elim type [ none ↦ true | some t ↦ same_type b.event_type t ]
      && elim since [ none ↦ true | some t ↦ leb t b.timestamp ]

  pub get_events : Option String → Option EventType → Option ℕ → EventStore P → List (DeskEvent P)
  unfolding wanted
  get_events ticket type since s = filter (wanted ticket type since) s.events

  pub get_trade_events : String → EventStore P → List (DeskEvent P)
  get_trade_events ticket s = get_events (some ticket) none none s

pub record Trade (P : Type 0) : Type 0 where
  pub events : List (DeskEvent P)
  pub proposal : Option P
  pub risk_assessment : Option P
  pub approval : Option P
  pub execution : Option P
  pub fills : List P
  pub closed : Bool

module _ {P : Type 0} where
  abbrev empty_trade : Trade P
  empty_trade = record {
    events = [];
    proposal = none;
    risk_assessment = none;
    approval = none;
    execution = none;
    fills = [];
    closed = false;
  }

  -- The `if` ladder over the type of an event.
  note : EventType → P → Trade P → Trade P
  note proposal_opened p t = record t { proposal = some p }
  note risk_passed p t = record t { risk_assessment = some p }
  note risk_rejected p t = record t { risk_assessment = some p }
  note approval_granted p t = record t { approval = some p }
  note order_sent p t = record t { execution = some p }
  note fill_received p t = record t { fills = t.fills ++ p ∷ [] }
  note trade_closed p t = record t { closed = true }
  note type p t = t

  pub replay : List (DeskEvent P) → Trade P → Trade P
  unfolding note
  replay [] t = t
  replay (e ∷ es) t =
      replay es (note e.body.event_type e.body.payload (record t { events = t.events ++ e ∷ [] }))

  pub reconstruct_trade : String → EventStore P → Trade P
  reconstruct_trade ticket s = replay (get_trade_events ticket s) empty_trade
