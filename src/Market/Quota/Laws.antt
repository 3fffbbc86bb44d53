-- ===== src/Market/Quota/Laws.antt =====
-- The quota as a sliding window: what a call sees, when it is granted, and the limit on every run.
use bot_crypto.Prelude.{
  ℕ, ◌+◌, ◌-◌, ◌≤◌, ◌<◌, String, ◌≡◌, refl, Bool, List, [], ◌∷◌, ◌++◌, arith, ltb, leb, length,
  replicate, length-append, length-replicate, filter, All, if◌then◌else◌,
}
use bot_crypto.Market.Quota.{
  FixedWindowQuota, exhausted, ok, err, evict, events_of, oldest_or, consume,
}

-- The event at `t` lies in the window of `window` ticks that ends at `now`.
abbrev pub in_window : ℕ → ℕ → ℕ → Bool
in_window window now t = ltb now (t + window)

-- Times that never decrease.
abbrev pub IsSorted : List ℕ → Type 0
IsSorted [] = Unit
IsSorted (t ∷ ts) = All (λ u. t ≤ u) ts × IsSorted ts

filter-later :
    (window now t : ℕ) (ts : List ℕ)
    → now < t + window
    → All (λ u. t ≤ u) ts
    → filter (in_window window now) ts ≡ ts
filter-later window now t [] h a = refl
filter-later window now t (u ∷ ts) h a = ground (arith, filter-later window now t ts h a.1)

-- On times in order, what the eviction leaves is what lies in the window.
pub evict-eq-filter :
    (window now : ℕ) (ts : List ℕ)
    → IsSorted ts
    → evict window now ts ≡ filter (in_window window now) ts
unfolding evict
evict-eq-filter window now [] s = refl
evict-eq-filter window now (t ∷ ts) s =
    ground (arith, evict-eq-filter window now ts s.1, filter-later window now t ts)

-- A window that ends later holds no event that the earlier one has lost.
pub filter-filter :
    (window now later : ℕ) (ts : List ℕ)
    → now ≤ later
    → filter (in_window window later) (filter (in_window window now) ts)
      ≡ filter (in_window window later) ts
filter-filter window now later [] h = refl
filter-filter window now later (t ∷ ts) h = ground (arith, filter-filter window now later ts h)

pub filter-append :
    (p : ℕ → Bool) (xs ys : List ℕ) → filter p (xs ++ ys) ≡ filter p xs ++ filter p ys
filter-append p [] ys = refl
filter-append p (x ∷ xs) ys = ground (arith, filter-append p xs ys)

-- With the events of the provider in order, a call that costs something is granted exactly if it fits beside
-- those of them that lie in the window, and refused otherwise, with the wait until the oldest leaves.
pub consume_granted :
    (key : String) (cost now : ℕ) (q : FixedWindowQuota)
    → IsSorted (events_of key q)
    → 0 < cost
    → let live = filter (in_window q.window now) (events_of key q) in
      (consume key cost now q).1 ≡ (
        if leb (length live + cost) q.capacity
        then ok (record { provider_key = key; capacity = q.capacity; used = length live + cost })
        else err (exhausted key (oldest_or now live + q.window - now)))
unfolding consume
consume_granted key cost now q s h = rw (evict-eq-filter q.window now (events_of key q) s) (
    ground (
      arith,
      length-append (filter (in_window q.window now) (events_of key q)) (replicate cost now),
      length-replicate cost now,
    ))
