-- ===== src/Desk/EventStore/Tests.antt =====
-- The store on a concrete trade, with a readable stand-in for the hash: the event's id and the id
-- that the chain began with, or a mark for a body that was altered.
use bot_crypto.Prelude.{String, ◌≡◌, refl, List, [], ◌∷◌, str_eq, if◌then◌else◌}
use bot_crypto.Desk.EventStore.{
  Body, DeskEvent, EventStore, EventType, proposal_opened, fill_received, trade_closed, valid,
  hash_mismatch, append, verify_from, verify_hash_chain, verify_integrity, Call, append_call,
  clear_call, run, initial, get_events, get_trade_events, reconstruct_trade, replay,
}
use bot_crypto.Desk.EventStore.Integrity.{verify_integrity-run, verified_chains_agree}

abbrev event : String → EventType → String → Body String
event event_id type payload = record {
  event_id = event_id;
  timestamp = 7;
  ticket_id = "TA-1";
  event_type = type;
  actor = "system";
  payload = payload;
}

abbrev hash : Body String → String → String
hash b previous = if str_eq b.payload "forged" then "other" else b.event_id

abbrev calls : List (Call String)
calls =
    append_call (event "e0" proposal_opened "lost")
    ∷ clear_call
    ∷ append_call (event "e1" proposal_opened "BTC")
    ∷ append_call (event "e2" fill_received "0.5")
    ∷ append_call (event "e3" trade_closed "")
    ∷ []

abbrev store : EventStore String
store = run hash calls initial

fills-store : (reconstruct_trade "TA-1" store).fills ≡ "0.5" ∷ []
unfolding run append reconstruct_trade replay get_trade_events get_events
fills-store = refl

abbrev forged : DeskEvent String
forged = record {
  body = event "e1" proposal_opened "forged";
  previous_hash = "";
  event_hash = "e1";
}

verify-forged : verify_hash_chain hash (forged ∷ []) ≡ hash_mismatch 0
unfolding verify_hash_chain verify_from
verify-forged = refl

verify_integrity-run_example : verify_integrity hash (run hash calls initial) ≡ valid
verify_integrity-run_example = verify_integrity-run hash calls

abbrev opening : DeskEvent String
opening = record { body = event "e1" proposal_opened "BTC"; previous_hash = ""; event_hash = "e1" }

abbrev fill : DeskEvent String
fill = record { body = event "e2" fill_received "0.5"; previous_hash = "e1"; event_hash = "e2" }

verified_chains_agree_example : opening ∷ fill ∷ [] ≡ opening ∷ fill ∷ []
unfolding verify_hash_chain verify_from
verified_chains_agree_example =
    verified_chains_agree hash (opening ∷ fill ∷ []) (opening ∷ fill ∷ []) refl refl refl refl
      ((λ e. (refl, refl)), ((λ e. (refl, refl)), tt))
