-- ===== src/Desk/EventStore/Lifecycle.antt =====
-- The reconstruction of a trade from its events.
use bot_crypto.Prelude.{
  String, ◌≡◌, refl, sym, ap, ◌∙◌, Bool, true, false, ◌||◌, List, [], ◌∷◌, ◌++◌, arith,
  if◌then◌else◌,
}
use mathlib.Core.List.{append-nil, append_assoc}
use bot_crypto.Desk.EventStore.{
  DeskEvent, EventStore, EventType, fill_received, trade_closed, Trade, replay, note, same_type,
  get_trade_events, reconstruct_trade, empty_trade,
}

or_assoc : (a b c : Bool) → ((a || b) || c) ≡ (a || (if b then true else c))
or_assoc a b c = ground arith

module _ {P : Type 0} where
  abbrev pub fills_of : List (DeskEvent P) → List P
  fills_of [] = []
  fills_of (e ∷ es) =
      let rest = fills_of es in
      if same_type e.body.event_type fill_received then e.body.payload ∷ rest else rest

  abbrev pub any_closed : List (DeskEvent P) → Bool
  any_closed [] = false
  any_closed (e ∷ es) =
      let rest = any_closed es in if same_type e.body.event_type trade_closed then true else rest

  note_lem :
      (type : EventType) (p : P) (t : Trade P)
      → ((note type p t).events ≡ t.events)
        × ((note type p t).fills ≡ t.fills ++ (if same_type type fill_received then p ∷ [] else []))
        × ((note type p t).closed ≡ (t.closed || same_type type trade_closed))
  unfolding note same_type
  note_lem fill_received p t = (refl, refl, ground arith)
  note_lem _ p t = (refl, ground (arith, append-nil t.fills), ground arith)

  abbrev seen : DeskEvent P → Trade P → Trade P
  seen e t = record t { events = t.events ++ e ∷ [] }

  fills-split :
      (b : Bool) (p : P) (xs ys : List P)
      → (xs ++ (if b then p ∷ [] else [])) ++ ys ≡ xs ++ (if b then p ∷ ys else ys)
  fills-split true p xs ys = append_assoc xs (p ∷ []) ys
  fills-split false p xs ys = append_assoc xs [] ys

  replay_lem :
      (es : List (DeskEvent P)) (t : Trade P)
      → ((replay es t).events ≡ t.events ++ es)
        × ((replay es t).fills ≡ t.fills ++ fills_of es)
        × ((replay es t).closed ≡ (t.closed || any_closed es))
  unfolding replay
  replay_lem [] t = (sym (append-nil t.events), sym (append-nil t.fills), ground arith)
  replay_lem (e ∷ es) t =
      let type = e.body.event_type in
      let (events, fills, closed) = note_lem type e.body.payload (seen e t) in
      let (events', fills', closed') = replay_lem es (note type e.body.payload (seen e t)) in
      (
        events' ∙ ap (λ l. l ++ es) events ∙ append_assoc t.events (e ∷ []) es,
        fills'
            ∙ ap (λ l. l ++ fills_of es) fills
            ∙ fills-split (same_type type fill_received) e.body.payload t.fills (fills_of es),
        closed'
            ∙ ap (λ b. b || any_closed es) closed
            ∙ or_assoc t.closed (same_type type trade_closed) (any_closed es),
      )

  -- The trade of a ticket has the ticket's events in order, the payloads of its fills in order, and is
  -- closed exactly if one of them closes it.
  pub reconstruct_trade_lem :
      (ticket : String) (s : EventStore P)
      → let es = get_trade_events ticket s in
        let t = reconstruct_trade ticket s in
        (t.events ≡ es) × (t.fills ≡ fills_of es) × (t.closed ≡ any_closed es)
  unfolding reconstruct_trade
  reconstruct_trade_lem ticket s = replay_lem (get_trade_events ticket s) empty_trade
