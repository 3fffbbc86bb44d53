-- ===== src/Market/Quota/Window.antt =====
-- The limit of the quota on every run: whatever the calls of all providers, a provider is granted
-- at most the capacity in any window that ends at a call.
use bot_crypto.Prelude.{
  ℕ, zero, suc, ◌+◌, ◌≤◌, String, ◌≡◌, refl, ap, subst, Bool, true, false, List, [], ◌∷◌, ◌++◌,
  arith, ltb, leb, length, replicate, length-append, length-replicate, filter, All, All-append,
  str_eq, eq_iff, if◌then◌else◌, Bool-cases, inl, inr, ◌∙◌, sym,
}
use mathlib.Core.Path.{subst₂}
use mathlib.Core.List.{append-nil, append_assoc}
use bot_crypto.Dict.{lookup-insert}
use bot_crypto.Market.Quota.{FixedWindowQuota, Result, ok, err, evict, events_of, consume}
use bot_crypto.Market.Quota.Laws.{
  in_window, IsSorted, evict-eq-filter, filter-filter, filter-append,
}

-- What `consume` makes of its provider's deque.
after : ℕ → ℕ → ℕ → ℕ → List ℕ → List ℕ
after window capacity cost now ts =
    let live = evict window now ts in
    if leb cost 0
    then ts
    else if ltb capacity (length live + cost)
    then live
    else live ++ replicate cost now

-- The times that the call adds to the record of grants.
grant : ℕ → ℕ → ℕ → ℕ → List ℕ → List ℕ
grant window capacity cost now ts =
    if leb cost 0
    then []
    else if ltb capacity (length (evict window now ts) + cost)
    then []
    else replicate cost now

is_ok : {A : Type 0} → Result A → Bool
is_ok (ok a) = true
is_ok (err e) = false

pub record Call : Type 0 where
  pub key : String
  pub cost : ℕ
  pub now : ℕ

-- The time stamps granted to `key`, over the run.
pub granted : String → List Call → FixedWindowQuota → List ℕ
unfolding is_ok
granted key [] q = []
granted key (c ∷ cs) q =
    (if str_eq c.key key
      then (if is_ok (consume c.key c.cost c.now q).1 then replicate c.cost c.now else [])
      else [])
    ++ granted key cs (consume c.key c.cost c.now q).0

-- The deque `ts` at time `last` stands for the record `log` of all grants.
record Represents (window capacity last : ℕ) (log ts : List ℕ) : Type 0 where
  ordered : IsSorted ts
  past : All (λ t. t ≤ last) ts
  bounded : length ts ≤ capacity
  same :
      (later : ℕ)
      → last ≤ later
      → filter (in_window window later) log ≡ filter (in_window window later) ts

All-weaken : (a b : ℕ) (ts : List ℕ) → a ≤ b → All (λ t. t ≤ a) ts → All (λ t. t ≤ b) ts
All-weaken a b [] h k = tt
All-weaken a b (t ∷ ts) h k = (omega arith, All-weaken a b ts h k.1)

All-filter_of {κ} : (P : ℕ → Type κ) (p : ℕ → Bool) (ts : List ℕ) → All P ts → All P (filter p ts)
All-filter_of P p [] h = tt
All-filter_of P p (t ∷ ts) h = elim (Bool-cases (p t)) [
  | inl kept ↦ rw kept (h.0, All-filter_of P p ts h.1)
  | inr dropped ↦ rw dropped (All-filter_of P p ts h.1)
]

filter-IsSorted : (p : ℕ → Bool) (ts : List ℕ) → IsSorted ts → IsSorted (filter p ts)
filter-IsSorted p [] s = tt
filter-IsSorted p (t ∷ ts) s = elim (Bool-cases (p t)) [
  | inl kept ↦ rw kept (All-filter_of (λ u. t ≤ u) p ts s.0, filter-IsSorted p ts s.1)
  | inr dropped ↦ rw dropped (filter-IsSorted p ts s.1)
]

All-replicate {κ} : (P : ℕ → Type κ) (n a : ℕ) → P a → All P (replicate n a)
All-replicate P zero a h = tt
All-replicate P (suc n) a h = (h, All-replicate P n a h)

replicate-IsSorted : (n a : ℕ) → IsSorted (replicate n a)
replicate-IsSorted zero a = tt
replicate-IsSorted (suc n) a =
    (All-replicate (λ u. a ≤ u) n a (omega arith), replicate-IsSorted n a)

append-IsSorted :
    (ts us : List ℕ) (m : ℕ)
    → IsSorted ts
    → All (λ t. t ≤ m) ts
    → IsSorted us
    → All (λ u. m ≤ u) us
    → IsSorted (ts ++ us)
append-IsSorted [] us m s a r b = r
append-IsSorted (t ∷ ts) us m s a r b = (
  All-append (λ u. t ≤ u) ts us s.0 (All-above t m us a.0 b),
  append-IsSorted ts us m s.1 a.1 r b,
)
  where
    All-above : (x y : ℕ) (vs : List ℕ) → x ≤ y → All (λ u. y ≤ u) vs → All (λ u. x ≤ u) vs
    All-above x y [] h k = tt
    All-above x y (v ∷ vs) h k = (omega arith, All-above x y vs h k.1)

filter-shorter : (p : ℕ → Bool) (us : List ℕ) → length (filter p us) ≤ length us
filter-shorter p [] = omega arith
filter-shorter p (u ∷ us) = ground (arith, filter-shorter p us)

-- The eviction at `now` keeps the representation.
evict-Represents :
    (window capacity last now : ℕ) (log ts : List ℕ)
    → last ≤ now
    → Represents window capacity last log ts
    → Represents window capacity now log (evict window now ts)
evict-Represents window capacity last now log ts h r =
    rw (evict-eq-filter window now ts r.ordered) (record {
      ordered = filter-IsSorted (in_window window now) ts r.ordered;
      past =
          All-filter_of (λ t. t ≤ now) (in_window window now) ts (All-weaken last now ts h r.past);
      bounded = omega (arith, filter-shorter (in_window window now) ts, r.bounded);
      same = λ later k. r.same later (omega arith) ∙ sym (filter-filter window now later ts k);
    })

push-Represents :
    (window capacity now cost : ℕ) (log ts : List ℕ)
    → length ts + cost ≤ capacity
    → Represents window capacity now log ts
    → Represents window capacity now (log ++ replicate cost now) (ts ++ replicate cost now)
push-Represents window capacity now cost log ts h r = record {
  ordered =
      append-IsSorted ts (replicate cost now) now r.ordered r.past (replicate-IsSorted cost now)
        (All-replicate (λ u. now ≤ u) cost now (omega arith));
  past =
      All-append (λ t. t ≤ now) ts (replicate cost now) r.past
        (All-replicate (λ t. t ≤ now) cost now (omega arith));
  bounded = omega (arith, length-append {0} ts (replicate cost now), length-replicate {0} cost now);
  same = λ later k.
      filter-append (in_window window later) log (replicate cost now)
      ∙ ap (λ l. l ++ filter (in_window window later) (replicate cost now)) (r.same later k)
      ∙ sym (filter-append (in_window window later) ts (replicate cost now));
}

wait-Represents :
    (window capacity last now : ℕ) (log ts : List ℕ)
    → last ≤ now
    → Represents window capacity last log ts
    → Represents window capacity now log ts
wait-Represents window capacity last now log ts h r = record {
  ordered = r.ordered;
  past = All-weaken last now ts h r.past;
  bounded = r.bounded;
  same = λ later k. r.same later (omega arith);
}

after-Represents :
    (window capacity cost last now : ℕ) (log ts : List ℕ)
    → last ≤ now
    → Represents window capacity last log ts
    → Represents window capacity now
        (log ++ grant window capacity cost now ts)
        (after window capacity cost now ts)
unfolding grant after
after-Represents window capacity cost last now log ts h r = elim (Bool-cases (leb cost 0)) [
  | inl free ↦ rw (free, append-nil) (wait-Represents window capacity last now log ts h r)
  | inr costs ↦ elim (Bool-cases (ltb capacity (length (evict window now ts) + cost))) [
    | inl full ↦ rw (costs, full, append-nil) (evict-Represents window capacity last now log ts h r)
    | inr fits ↦
        rw (costs, fits)
          (push-Represents window capacity now cost log (evict window now ts) (ground arith)
            (evict-Represents window capacity last now log ts h r))
  ]
]

module _ (key : String) (cost now : ℕ) (q : FixedWindowQuota) where
  consume_limits :
      ((consume key cost now q).0.window ≡ q.window)
      × ((consume key cost now q).0.capacity ≡ q.capacity)
  unfolding consume
  consume_limits = ground arith

  events_of-consume_self :
      events_of key (consume key cost now q).0
      ≡ after q.window q.capacity cost now (events_of key q)
  unfolding consume after events_of
  events_of-consume_self = ground (
    arith,
    eq_iff key key,
    lookup-insert key key (evict q.window now (events_of key q)) q.events,
    lookup-insert key key (evict q.window now (events_of key q) ++ replicate cost now) q.events,
  )

  events_of-consume_ne :
      (other : String)
      → str_eq key other ≡ false
      → events_of other (consume key cost now q).0 ≡ events_of other q
  unfolding consume events_of
  events_of-consume_ne other h = ground (
    arith,
    lookup-insert key other (evict q.window now (events_of key q)) q.events,
    lookup-insert key other (evict q.window now (events_of key q) ++ replicate cost now) q.events,
  )

  grant_lem :
      (if is_ok (consume key cost now q).1 then replicate cost now else [])
      ≡ grant q.window q.capacity cost now (events_of key q)
  unfolding consume grant is_ok
  grant_lem = ground arith

-- The clock never runs backwards.
abbrev pub InOrder : ℕ → List Call → Type 0
InOrder last [] = Unit
InOrder last (c ∷ cs) = (last ≤ c.now) × InOrder c.now cs

abbrev pub end_time : ℕ → List Call → ℕ
end_time last [] = last
end_time last (c ∷ cs) = end_time c.now cs

-- What one call of the run does to the representation of `key`.
step-Represents :
    (key : String) (last : ℕ) (log : List ℕ) (c : Call) (q : FixedWindowQuota)
    → last ≤ c.now
    → Represents q.window q.capacity last log (events_of key q)
    → Represents q.window q.capacity c.now
        (log
          ++ (if str_eq c.key key
              then (if is_ok (consume c.key c.cost c.now q).1 then replicate c.cost c.now else [])
              else []))
        (events_of key (consume c.key c.cost c.now q).0)
step-Represents key last log c q h r = elim (Bool-cases (str_eq c.key key)) [
  | inl own ↦
      let same_key : c.key ≡ key = (eq_iff c.key key).0 own in
      subst
        (λ k.
          Represents q.window q.capacity last log (events_of k q)
          → Represents q.window q.capacity c.now
              (log
                ++ (if str_eq c.key k
                    then (if is_ok (consume c.key c.cost c.now q).1
                        then replicate c.cost c.now
                        else [])
                    else []))
              (events_of k (consume c.key c.cost c.now q).0))
        same_key
        (λ own_r.
          rw
            (
              (eq_iff c.key c.key).1 refl,
              grant_lem c.key c.cost c.now q,
              events_of-consume_self c.key c.cost c.now q,
            )
            (after-Represents q.window q.capacity c.cost last c.now log (events_of c.key q) h
              own_r))
        r
  | inr foreign ↦
      rw (foreign, append-nil, events_of-consume_ne c.key c.cost c.now q key foreign)
        (wait-Represents q.window q.capacity last c.now log (events_of key q) h r)
]

at_limits :
    {window window' capacity capacity' last : ℕ} {log ts : List ℕ}
    → window ≡ window'
    → capacity ≡ capacity'
    → Represents window capacity last log ts
    → Represents window' capacity' last log ts
at_limits {last = last} {log} {ts} ew ec r = subst₂ (λ w c. Represents w c last log ts) ew ec r

run-bounded :
    (key : String) (window capacity last : ℕ) (log : List ℕ) (cs : List Call) (q : FixedWindowQuota)
    → q.window ≡ window
    → q.capacity ≡ capacity
    → InOrder last cs
    → Represents window capacity last log (events_of key q)
    → length (filter (in_window window (end_time last cs)) (log ++ granted key cs q)) ≤ capacity
unfolding granted
run-bounded key window capacity last log [] q ew ec o r =
    rw (append-nil, r.same last (omega arith))
      (omega (arith, filter-shorter (in_window window last) (events_of key q), r.bounded))
run-bounded key window capacity last log (c ∷ cs) q ew ec o r =
    let limits = consume_limits c.key c.cost c.now q in
    let here = at_limits (sym ew) (sym ec) r in
    rw (← append_assoc) (
      run-bounded key window capacity c.now _ cs (consume c.key c.cost c.now q).0 (limits.0 ∙ ew)
        (limits.1 ∙ ec) o.1 (at_limits ew ec (step-Represents key last log c q o.0 here)))

-- Whatever the calls of any providers, with a clock that never runs backwards, the units granted to
-- a provider within the window that ends at the last call are at most the capacity.
pub granted-bounded :
    (key : String) (window capacity : ℕ) (cs : List Call)
    → InOrder 0 cs
    → length (
        filter
          (in_window window (end_time 0 cs))
          (granted key cs (record { capacity = capacity; window = window; events = [] })))
      ≤ capacity
unfolding events_of
granted-bounded key window capacity cs o =
    run-bounded key window capacity 0 [] cs _ refl refl o
      (record { ordered = tt; past = tt; bounded = omega arith; same = λ later k. refl })
