-- ===== src/Research/Registry/Freeze.antt =====
-- What an experiment was registered with is frozen, and only its own hashes let a result in.
use bot_crypto.Prelude.{
  ℕ, String, ◌≡◌, refl, Bool, true, false, Option, none, some, List, [], ◌∷◌, arith, str_eq, eq_iff,
  if◌then◌else◌, inl, inr, Option-cases, Bool-cases,
}
use bot_crypto.Dict.{lookup, lookup-insert}
use bot_crypto.Research.Registry.{
  ExperimentStatus, running, new_record, invalidated, Spec, ExperimentRecord, Registry, Hashes, get,
  preregister, updated, update_status, same_hashes, verify_hash, accept, execute_and_verify,
  record_consumed_period, Call, preregister_call, status_call, verify_call, execute_call,
  consume_call, apply, run,
}

module _ {J R : Type 0} where
  -- The experiment is registered with the same specification, at the same time.
  abbrev pub Keeps : String → ExperimentRecord J R → Registry J R → Type 0
  Keeps id rec r =
      (now : ExperimentRecord J R) × (get id r ≡ some now)
      × (now.spec ≡ rec.spec)
      × (now.created_at ≡ rec.created_at)

  get-update_status :
      (key id : String) (status : ExperimentStatus) (results : Option R) (decision : String)
      (at : Option ℕ) (now : ℕ) (r : Registry J R)
      → get id (update_status key status results decision at now r).0 ≡ (
          if str_eq key id
          then elim (get id r) [
            | none ↦ none
            | some rec ↦ some (updated status results decision at now rec)
          ]
          else get id r)
  unfolding get update_status
  get-update_status key id status results decision at now r =
      elim (Option-cases (lookup key r.experiments)) [
        | inl e ↦ ground (arith, eq_iff key id)
        | inr (rec, e) ↦ ground (
          arith,
          eq_iff key id,
          lookup-insert key id (updated status results decision at now rec) r.experiments,
        )
      ]

  update-Keeps :
      (key id : String) (status : ExperimentStatus) (results : Option R) (decision : String)
      (at : Option ℕ) (now : ℕ) (rec : ExperimentRecord J R) (r : Registry J R)
      → Keeps id rec r
      → Keeps id rec (update_status key status results decision at now r).0
  unfolding updated
  update-Keeps key id status results decision at now rec r (cur, e, s, t) =
      let law = get-update_status key id status results decision at now r in
      elim (Bool-cases (str_eq key id)) [
        | inl same ↦ (updated status results decision at now cur, ground (arith, law), s, t)
        | inr other ↦ (cur, ground (arith, law), s, t)
      ]

  preregister-Keeps :
      (spec : Spec J) (now : ℕ) (id : String) (rec : ExperimentRecord J R) (r : Registry J R)
      → Keeps id rec r
      → Keeps id rec (preregister spec now r).0
  unfolding preregister get
  preregister-Keeps spec now id rec r (cur, e, s, t) = (
    cur,
    ground (
      arith,
      eq_iff spec.experiment_id id,
      lookup-insert spec.experiment_id id (new_record spec now) r.experiments,
    ),
    s,
    t,
  )

  verify-Keeps :
      (key id : String) (h : Hashes) (now : ℕ) (rec : ExperimentRecord J R) (r : Registry J R)
      → Keeps id rec r
      → Keeps id rec (verify_hash key h now r).0
  unfolding verify_hash
  verify-Keeps key id h now rec r k = elim (Option-cases (get key r)) [
    | inl e ↦ rw (e, verify_hash) k
    | inr (cur, e) ↦ elim (Bool-cases (same_hashes h cur.spec)) [
      | inl same ↦ rw (e, verify_hash, same) k
      | inr other ↦
          rw (e, verify_hash, other) (update-Keeps key id invalidated none _ none now rec r k)
    ]
  ]

  accept-Keeps :
      (key id : String) (results : R) (decision : String) (now : ℕ) (rec : ExperimentRecord J R)
      (r : Registry J R × Bool)
      → Keeps id rec r.0
      → Keeps id rec (accept key results decision now r).0
  unfolding accept
  accept-Keeps key id results decision now rec (r, false) k = k
  accept-Keeps key id results decision now rec (r, true) k =
      update-Keeps key id running (some results) _ none now rec r k

  apply-Keeps :
      (c : Call J R) (id : String) (rec : ExperimentRecord J R) (r : Registry J R)
      → Keeps id rec r
      → Keeps id rec (apply c r)
  unfolding apply execute_and_verify record_consumed_period get
  apply-Keeps (preregister_call spec now) id rec r k = preregister-Keeps spec now id rec r k
  apply-Keeps (status_call key st res dec at now) id rec r k =
      update-Keeps key id st res dec at now rec r k
  apply-Keeps (verify_call key h now) id rec r k = verify-Keeps key id h now rec r k
  apply-Keeps (execute_call key h res dec now) id rec r k =
      accept-Keeps key id res dec now rec (verify_hash key h now r)
        (verify-Keeps key id h now rec r k)
  apply-Keeps (consume_call p) id rec r k = k

  -- Whatever calls follow, a registered experiment stays registered, with the specification, hashes included, and the
  -- time that it was registered with.
  pub run-Keeps :
      (cs : List (Call J R)) (id : String) (rec : ExperimentRecord J R) (r : Registry J R)
      → Keeps id rec r
      → Keeps id rec (run cs r)
  unfolding run
  run-Keeps [] id rec r k = k
  run-Keeps (c ∷ cs) id rec r k = run-Keeps cs id rec (apply c r) (apply-Keeps c id rec r k)

  -- The execution of a registered experiment with its own hashes records the results and sets it running; with any
  -- other hash it invalidates it and leaves it without results. An unknown experiment stays unknown.
  pub execute_and_verify_lem :
      (id : String) (h : Hashes) (results : R) (decision : String) (now : ℕ) (r : Registry J R)
      → get id (execute_and_verify id h results decision now r).0 ≡ elim (get id r) [
        | none ↦ none
        | some rec ↦
            if same_hashes h rec.spec
            then some (
                updated running
                  (some results)
                  (if str_eq decision "" then "executed_with_verified_hashes" else decision)
                  none
                  now
                  rec)
            else some (updated invalidated none "INVALIDATED_HASH_CHANGED" none now rec)
      ]
  unfolding execute_and_verify accept verify_hash
  execute_and_verify_lem id h results decision now r = elim (Option-cases (get id r)) [
    | inl e ↦ ground (arith, e)
    | inr (rec, e) ↦ ground (
      arith,
      e,
      eq_iff id id,
      get-update_status id id invalidated none "INVALIDATED_HASH_CHANGED" none now r,
      get-update_status id id running (some results)
          (if str_eq decision "" then "executed_with_verified_hashes" else decision) none now r,
    )
  ]

  -- Invalidation is not final: an execution with the registered hashes makes an invalidated experiment a running one,
  -- with results.
  pub invalidated_revives :
      (id : String) (h : Hashes) (results : R) (decision : String) (now : ℕ) (r : Registry J R)
      (rec : ExperimentRecord J R)
      → get id r ≡ some rec
      → rec.status ≡ invalidated
      → same_hashes h rec.spec ≡ true
      → (after : ExperimentRecord J R) × (get id (execute_and_verify id h results decision now r).0
          ≡ some after)
        × (after.status ≡ running)
        × (after.results ≡ some results)
  unfolding updated
  invalidated_revives id h results decision now r rec e was same = (
    updated running (some results)
        (if str_eq decision "" then "executed_with_verified_hashes" else decision) none now rec,
    ground (arith, execute_and_verify_lem id h results decision now r),
    refl,
    refl,
  )
