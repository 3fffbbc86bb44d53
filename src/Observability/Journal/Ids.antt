-- ===== src/Observability/Journal/Ids.antt =====
-- The ids of the journal's rows.
use bot_crypto.Prelude.{
  ℕ, ◌+◌, ◌≤◌, String, ◌≡◌, true, refl, sym, ap, subst, Option, none, some, List, [], ◌∷◌, map,
  arith, All, All-map, str_eq, eq_iff, if◌then◌else◌,
}
use bot_crypto.Dict.{Dict, insert, lookup-insert}
use bot_crypto.Prelude.Decimal.{lacks_dash}
use bot_crypto.Observability.Journal.Formats.{trade_id_of-base_id}
use bot_crypto.Observability.Journal.{
  base_id, decision_id_of, Exit, TradeRow, TradeJournal, recorded, integrity_error, trade_id_of,
  seen, create, find_trade, get_trade, insert_trade, record_open, close_row, record_close,
  has_rejection, record_blocked, Call, open_call, close_call, blocked_call, apply, run,
}

seen-insert :
    (base key : String) (d : Dict ℕ)
    → seen key (insert base (seen base d + 1) d)
      ≡ (if str_eq base key then seen base d + 1 else seen key d)
unfolding seen
seen-insert base key d = ground (arith, lookup-insert base key (seen base d + 1) d)

seen-grows :
    (base key : String) (d : Dict ℕ) → seen key d ≤ seen key (insert base (seen base d + 1) d)
seen-grows base key d = ground (arith, seen-insert base key d, eq_iff base key)

-- An id that a session with these counters has given out.
record IsIssued (d : Dict ℕ) (id : String) : Type 0 where
  ms : ℕ
  symbol : String
  number : ℕ
  plain : lacks_dash symbol ≡ true
  bounded : number ≤ seen (base_id ms symbol) d
  named : id ≡ trade_id_of (base_id ms symbol) number

IsIssued-grows :
    (base : String) (d : Dict ℕ) (id : String)
    → IsIssued d id
    → IsIssued (insert base (seen base d + 1) d) id
IsIssued-grows base d id h = record {
  ms = h.ms;
  symbol = h.symbol;
  number = h.number;
  plain = h.plain;
  bounded = ground (arith, h.bounded, seen-grows base (base_id h.ms h.symbol) d);
  named = h.named;
}

not-IsIssued :
    (d : Dict ℕ) (ms : ℕ) (symbol : String)
    → lacks_dash symbol ≡ true
    → IsIssued d (trade_id_of (base_id ms symbol) (seen (base_id ms symbol) d + 1))
    → ⊥
not-IsIssued d ms symbol p h =
    let base = base_id ms symbol in
    let (same, number) =
      trade_id_of-base_id ms h.ms symbol h.symbol (seen base d + 1) h.number p h.plain h.named in
    ground (arith, same, number, h.bounded)

-- A trade that the call opens is on a symbol without a dash.
abbrev pub OnPlain : {F D : Type 0} → Call F D → Type 0
OnPlain (open_call ms symbol opened_at details) = lacks_dash symbol ≡ true
OnPlain (close_call id exit) = Unit
OnPlain (blocked_call ms symbol reason blocked_by) = Unit

module _ {F D : Type 0} where
  AllIssued : Dict ℕ → List (TradeRow F D) → Type 0
  AllIssued d ts = All (λ t. IsIssued d t.trade_id) ts

  find-fresh :
      (d : Dict ℕ) (ms : ℕ) (symbol : String) (ts : List (TradeRow F D))
      → lacks_dash symbol ≡ true
      → AllIssued d ts
      → find_trade (trade_id_of (base_id ms symbol) (seen (base_id ms symbol) d + 1)) ts ≡ none
  unfolding AllIssued find_trade
  find-fresh d ms symbol [] p h = refl
  find-fresh d ms symbol (t ∷ ts) p h =
      let id = trade_id_of (base_id ms symbol) (seen (base_id ms symbol) d + 1) in
      ground (
        arith,
        find-fresh d ms symbol ts p h.1,
        eq_iff t.trade_id id,
        (λ (e : t.trade_id ≡ id). not-IsIssued d ms symbol p (subst (IsIssued d) e h.0)),
      )

  close-AllIssued :
      (d : Dict ℕ) (id : String) (exit : Exit F) (ts : List (TradeRow F D))
      → AllIssued d ts
      → AllIssued d (map (close_row id exit) ts)
  unfolding AllIssued
  close-AllIssued d id exit [] h = tt
  close-AllIssued d id exit (t ∷ ts) h =
      (subst (IsIssued d) (ground arith) h.0, close-AllIssued d id exit ts h.1)

  abbrev pub next_id : ℕ → String → TradeJournal F D → String
  next_id ms symbol j =
      let base = base_id ms symbol in trade_id_of base (seen base j.trade_id_seen + 1)

  abbrev pub new_row : ℕ → String → F → D → TradeJournal F D → TradeRow F D
  new_row ms symbol opened_at details j = record {
    trade_id = next_id ms symbol j;
    symbol = symbol;
    opened_at = opened_at;
    details = details;
    exit = none;
  }

  abbrev opened : ℕ → String → F → D → TradeJournal F D → TradeJournal F D
  opened ms symbol opened_at details j =
      let base = base_id ms symbol in
      record j {
        trades = new_row ms symbol opened_at details j ∷ j.trades;
        trade_id_seen = insert base (seen base j.trade_id_seen + 1) j.trade_id_seen;
      }

  record_open-eq :
      (ms : ℕ) (symbol : String) (opened_at : F) (details : D) (j : TradeJournal F D)
      → lacks_dash symbol ≡ true
      → AllIssued j.trade_id_seen j.trades
      → record_open ms symbol opened_at details j
        ≡ (opened ms symbol opened_at details j, recorded (next_id ms symbol j))
  unfolding record_open insert_trade
  record_open-eq ms symbol opened_at details j p h =
      ground (arith, find-fresh j.trade_id_seen ms symbol j.trades p h)

  opened-AllIssued :
      (ms : ℕ) (symbol : String) (opened_at : F) (details : D) (j : TradeJournal F D)
      → lacks_dash symbol ≡ true
      → AllIssued j.trade_id_seen j.trades
      → AllIssued
          (opened ms symbol opened_at details j).trade_id_seen
          (opened ms symbol opened_at details j).trades
  unfolding AllIssued
  opened-AllIssued ms symbol opened_at details j p h =
      let base = base_id ms symbol in
      let d = insert base (seen base j.trade_id_seen + 1) j.trade_id_seen in
      (
        record {
          ms = ms;
          symbol = symbol;
          number = seen base j.trade_id_seen + 1;
          plain = p;
          bounded = ground (arith, seen-insert base base j.trade_id_seen, eq_iff base base);
          named = refl;
        },
        All-map (λ t. IsIssued j.trade_id_seen t.trade_id) (λ t. IsIssued d t.trade_id) j.trades
            (λ t k. IsIssued-grows base j.trade_id_seen t.trade_id k) h,
      )

  blocked-eq :
      (ms : ℕ) (symbol reason : String) (blocked_by : Option String) (j : TradeJournal F D)
      → let k = (record_blocked ms symbol reason blocked_by j).0 in
        (k.trades ≡ j.trades) × (k.trade_id_seen ≡ j.trade_id_seen)
  unfolding record_blocked
  blocked-eq ms symbol reason blocked_by j = ground arith

  apply-AllIssued :
      (c : Call F D) (j : TradeJournal F D)
      → OnPlain c
      → AllIssued j.trade_id_seen j.trades
      → AllIssued (apply c j).trade_id_seen (apply c j).trades
  unfolding apply record_close
  apply-AllIssued (open_call ms symbol opened_at details) j p h =
      subst (λ k. AllIssued k.0.trade_id_seen k.0.trades)
        (sym (record_open-eq ms symbol opened_at details j p h))
        (opened-AllIssued ms symbol opened_at details j p h)
  apply-AllIssued (close_call id exit) j p h = close-AllIssued j.trade_id_seen id exit j.trades h
  apply-AllIssued (blocked_call ms symbol reason blocked_by) j p h =
      let (trades, counters) = blocked-eq ms symbol reason blocked_by j in
      subst (λ d. AllIssued d (record_blocked ms symbol reason blocked_by j).0.trades)
        (sym counters) (subst (AllIssued j.trade_id_seen) (sym trades) h)

  run-AllIssued :
      (cs : List (Call F D)) (j : TradeJournal F D)
      → All (OnPlain) cs
      → AllIssued j.trade_id_seen j.trades
      → AllIssued (run cs j).trade_id_seen (run cs j).trades
  unfolding run
  run-AllIssued [] j p h = h
  run-AllIssued (c ∷ cs) j p h = run-AllIssued cs (apply c j) p.1 (apply-AllIssued c j p.0 h)

  -- In a session on a new journal, whose trades are on symbols without a dash, the opening of a trade is
  -- always recorded, even in the same millisecond as another: under an id that no earlier trade has, as an open trade
  -- that is found by it.
  pub record_open_lem :
      (cs : List (Call F D))
      → All (OnPlain) cs
      → (ms : ℕ) (symbol : String) (opened_at : F) (details : D) → lacks_dash symbol ≡ true
      → let j = run cs create in
        (get_trade (next_id ms symbol j) j ≡ none)
        × ((record_open ms symbol opened_at details j).1 ≡ recorded (next_id ms symbol j))
        × (get_trade (next_id ms symbol j) (record_open ms symbol opened_at details j).0
            ≡ some (new_row ms symbol opened_at details j))
  unfolding get_trade AllIssued find_trade
  record_open_lem cs p ms symbol opened_at details q =
      let j = run cs create in
      let h = run-AllIssued cs create p tt in
      let e = record_open-eq ms symbol opened_at details j q h in
      (
        find-fresh j.trade_id_seen ms symbol j.trades q h,
        ap (λ r. r.1) e,
        ground (arith, e, eq_iff (next_id ms symbol j) (next_id ms symbol j)),
      )

module _ {F D : Type 0} where
  -- Of two signals on one symbol that are blocked in the same millisecond, the second is never recorded: its INSERT
  -- raises, as the id of a rejection has no number.
  pub blocked_twice :
      (ms : ℕ) (symbol reason reason' : String) (by by' : Option String) (j : TradeJournal F D)
      → (record_blocked ms symbol reason' by' (record_blocked ms symbol reason by j).0).1
        ≡ integrity_error
  unfolding record_blocked has_rejection
  blocked_twice ms symbol reason reason' by by' j =
      ground (arith, eq_iff (decision_id_of ms symbol) (decision_id_of ms symbol))
