-- ===== src/Market/Quota.antt =====
-- The read quota: src/trading_bot/market_data/quota.py. The clock is in integer ticks, which the
-- caller passes; the lock makes each call one step, so calls are a sequence.
pub mod Laws
pub mod Window
mod Tests
use bot_crypto.Prelude.{
  ℕ, zero, suc, ◌+◌, ◌-◌, String, Bool, Option, none, some, List, [], ◌∷◌, ◌++◌, ltb, leb,
  if◌then◌else◌, length, replicate,
}
use bot_crypto.Dict.{Dict, lookup, insert}

pub data QuotaError : Type 0 where
  configuration : QuotaError
  exhausted : (provider_key : String) → (retry_after : ℕ) → QuotaError

pub record QuotaState : Type 0 where
  pub provider_key : String
  pub capacity : ℕ
  pub used : ℕ

pub remaining : QuotaState → ℕ
remaining q = q.capacity - q.used

pub record FixedWindowQuota : Type 0 where
  pub capacity : ℕ
  pub window : ℕ
  pub events : Dict (List ℕ)

pub data Result (A : Type 0) : Type 0 where
  ok : A → Result A
  err : QuotaError → Result A

pub create : ℕ → ℕ → Result FixedWindowQuota
create capacity window =
    if leb capacity 0
    then err configuration
    else if leb window 0
    then err configuration
    else ok (record { capacity = capacity; window = window; events = [] })

-- `_evict`: drops from the front while `events[0] <= now - window`
pub evict : ℕ → ℕ → List ℕ → List ℕ
evict window now [] = []
evict window now (t ∷ ts) = if leb (t + window) now then evict window now ts else t ∷ ts

-- `self._events[provider_key]`: the `defaultdict` gives the empty deque
pub events_of : String → FixedWindowQuota → List ℕ
events_of key q = elim (lookup key q.events) [ none ↦ [] | some ts ↦ ts ]

abbrev put : String → List ℕ → FixedWindowQuota → FixedWindowQuota
put key ts q = record q { events = insert key ts q.events }

abbrev state_of : String → List ℕ → FixedWindowQuota → QuotaState
state_of key ts q = record { provider_key = key; capacity = q.capacity; used = length ts }

pub check : String → ℕ → FixedWindowQuota → FixedWindowQuota × QuotaState
check key now q =
    let live = evict q.window now (events_of key q) in (put key live q, state_of key live q)

pub oldest_or : ℕ → List ℕ → ℕ
oldest_or now [] = now
oldest_or now (t ∷ ts) = t

-- The eviction is kept also where the call raises.
pub consume : String → ℕ → ℕ → FixedWindowQuota → FixedWindowQuota × Result QuotaState
unfolding oldest_or
consume key cost now q =
    let live = evict q.window now (events_of key q) in
    let taken = live ++ replicate cost now in
    if leb cost 0
    then (q, err configuration)
    else if ltb q.capacity (length live + cost)
    then (put key live q, err (exhausted key (oldest_or now live + q.window - now)))
    else (put key taken q, ok (state_of key taken q))
