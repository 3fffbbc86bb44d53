-- ===== src/Research/Registry/Periods.antt =====
-- The ledger of consumed periods only grows.
use bot_crypto.Prelude.{
  ℕ, String, ◌≡◌, refl, Bool, true, false, ◌||◌, Option, none, some, List, [], ◌∷◌, ◌++◌, arith,
  ltb, count, inl, inr, Option-cases,
}
use bot_crypto.Research.Registry.{
  ExperimentStatus, running, invalidated, ConsumedPeriod, Registry, Hashes, overlaps, get,
  preregister, update_status, verify_hash, accept, execute_and_verify, record_consumed_period,
  is_consumed, Call, preregister_call, status_call, verify_call, execute_call, consume_call, apply,
  run,
}

count-append :
    (f : ConsumedPeriod → Bool) (xs : List ConsumedPeriod) (p : ConsumedPeriod)
    → ltb 0 (count f (xs ++ p ∷ [])) ≡ (ltb 0 (count f xs) || f p)
count-append f [] p = ground arith
count-append f (x ∷ xs) p = ground (arith, count-append f xs p)

module _ {J R : Type 0} where
  update_status-periods :
      (id : String) (st : ExperimentStatus) (res : Option R) (dec : String) (at : Option ℕ)
      (now : ℕ) (r : Registry J R)
      → (update_status id st res dec at now r).0.consumed_periods ≡ r.consumed_periods
  unfolding update_status
  update_status-periods id st res dec at now r = elim (Option-cases (get id r)) [
    | inl e ↦ ground (arith, e)
    | inr (rec, e) ↦ ground (arith, e)
  ]

  verify_hash-periods :
      (id : String) (h : Hashes) (now : ℕ) (r : Registry J R)
      → (verify_hash id h now r).0.consumed_periods ≡ r.consumed_periods
  unfolding verify_hash
  verify_hash-periods id h now r = elim (Option-cases (get id r)) [
    | inl e ↦ ground (arith, e)
    | inr (rec, e) ↦
        ground (
          arith,
          e,
          update_status-periods id invalidated none "INVALIDATED_HASH_CHANGED" none now r,
        )
  ]

  accept-periods :
      (id : String) (res : R) (dec : String) (now : ℕ) (r : Registry J R × Bool)
      → (accept id res dec now r).0.consumed_periods ≡ r.0.consumed_periods
  unfolding accept
  accept-periods id res dec now (r, false) = refl
  accept-periods id res dec now (r, true) = update_status-periods id running (some res) _ none now r

  -- Whether a call records a period that overlaps the window.
  abbrev pub consumes : String → String → ℕ → ℕ → Call J R → Bool
  consumes symbol timeframe start stop (consume_call p) = overlaps symbol timeframe start stop p
  consumes symbol timeframe start stop c = false

  apply-is_consumed :
      (symbol timeframe : String) (start stop : ℕ) (c : Call J R) (r : Registry J R)
      → is_consumed symbol timeframe start stop (apply c r)
        ≡ (is_consumed symbol timeframe start stop r || consumes symbol timeframe start stop c)
  unfolding is_consumed apply preregister execute_and_verify record_consumed_period
  apply-is_consumed symbol timeframe start stop (preregister_call spec now) r = ground arith
  apply-is_consumed symbol timeframe start stop (status_call id st res dec at now) r =
      ground (arith, update_status-periods id st res dec at now r)
  apply-is_consumed symbol timeframe start stop (verify_call id h now) r =
      ground (arith, verify_hash-periods id h now r)
  apply-is_consumed symbol timeframe start stop (execute_call id h res dec now) r = ground (
    arith,
    accept-periods id res dec now (verify_hash id h now r),
    verify_hash-periods id h now r,
  )
  apply-is_consumed symbol timeframe start stop (consume_call p) r =
      count-append (overlaps symbol timeframe start stop) r.consumed_periods p

  abbrev pub any_consumes : String → String → ℕ → ℕ → List (Call J R) → Bool
  any_consumes symbol timeframe start stop [] = false
  any_consumes symbol timeframe start stop (c ∷ cs) =
      consumes symbol timeframe start stop c || any_consumes symbol timeframe start stop cs

  -- After any calls a window counts as consumed exactly if it did before or one of the calls recorded a period that
  -- overlaps it: nothing makes a consumed window fresh again.
  pub run-is_consumed :
      (symbol timeframe : String) (start stop : ℕ) (cs : List (Call J R)) (r : Registry J R)
      → is_consumed symbol timeframe start stop (run cs r)
        ≡ (is_consumed symbol timeframe start stop r || any_consumes symbol timeframe start stop cs)
  unfolding run
  run-is_consumed symbol timeframe start stop [] r = ground arith
  run-is_consumed symbol timeframe start stop (c ∷ cs) r = ground (
    arith,
    run-is_consumed symbol timeframe start stop cs (apply c r),
    apply-is_consumed symbol timeframe start stop c r,
  )
