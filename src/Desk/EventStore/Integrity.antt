-- ===== src/Desk/EventStore/Integrity.antt =====
-- The hash chain: what the store builds verifies, and a verified chain is fixed by its last hash.
use bot_crypto.Prelude.{ℕ, suc, String, ◌≡◌, refl, List, [], ◌∷◌, ◌++◌, arith, eq_iff, length}
use mathlib.Core.Path.{subst}
use bot_crypto.Desk.EventStore.{
  Body, DeskEvent, EventStore, valid, append, verify_from, verify_hash_chain, verify_integrity,
  Call, append_call, clear_call, run, initial, link,
}

module _ {P : Type 0} where
  -- The hash of the last event, or `previous` if there is none.
  abbrev pub last_hash : String → List (DeskEvent P) → String
  last_hash previous [] = previous
  last_hash previous (e ∷ es) = last_hash e.event_hash es

module _ {P : Type 0} (hash : Body P → String → String) where
  -- What the verification of a first event says.
  abbrev IsLinked : DeskEvent P → String → Type 0
  IsLinked e previous = (e.event_hash ≡ hash e.body previous) × (e.previous_hash ≡ previous)

  verify-cons :
      (i : ℕ) (previous : String) (e : DeskEvent P) (es : List (DeskEvent P))
      → verify_from hash i previous (e ∷ es) ≡ valid
      → IsLinked e previous × (verify_from hash (suc i) e.event_hash es ≡ valid)
  unfolding verify_from
  verify-cons i previous e es h =
      ground (arith, eq_iff e.event_hash (hash e.body previous), eq_iff e.previous_hash previous)

  verify-append :
      (i : ℕ) (previous : String) (es : List (DeskEvent P)) (b : Body P)
      → verify_from hash i previous es ≡ valid
      → verify_from hash i previous (es ++ link hash b (last_hash previous es) ∷ []) ≡ valid
  unfolding verify_from
  verify-append i previous [] b h =
      ground (arith, eq_iff (hash b previous) (hash b previous), eq_iff previous previous)
  verify-append i previous (e ∷ es) b h = ground (arith, verify-append (suc i) e.event_hash es b)

  last_hash-append :
      (previous : String) (es : List (DeskEvent P)) (e : DeskEvent P)
      → last_hash previous (es ++ e ∷ []) ≡ e.event_hash
  last_hash-append previous [] e = refl
  last_hash-append previous (x ∷ es) e = last_hash-append x.event_hash es e

  -- The store's own chain verifies and ends in the hash that the store links the next event to.
  record IsChained (s : EventStore P) : Type 0 where
    verified : verify_from hash 0 "" s.events ≡ valid
    linked : last_hash "" s.events ≡ s.previous_hash

  append-IsChained : (b : Body P) (s : EventStore P) → IsChained s → IsChained (append hash b s).0
  unfolding append
  append-IsChained b s c = record {
    verified =
        subst (λ p. verify_from hash 0 "" (s.events ++ link hash b p ∷ []) ≡ valid) c.linked
          (verify-append 0 "" s.events b c.verified);
    linked = last_hash-append "" s.events (link hash b s.previous_hash);
  }

  run-IsChained : (cs : List (Call P)) (s : EventStore P) → IsChained s → IsChained (run hash cs s)
  unfolding run verify_from
  run-IsChained [] s c = c
  run-IsChained (append_call b ∷ cs) s c =
      run-IsChained cs (append hash b s).0 (append-IsChained b s c)
  run-IsChained (clear_call ∷ cs) s c =
      run-IsChained cs initial (record { verified = refl; linked = refl })

  -- Whatever is appended and cleared, the integrity check of the store succeeds.
  pub verify_integrity-run :
      (cs : List (Call P)) → verify_integrity hash (run hash cs initial) ≡ valid
  unfolding verify_integrity verify_from
  verify_integrity-run cs =
      (run-IsChained cs initial (record { verified = refl; linked = refl })).verified

  verify-prefix :
      (i : ℕ) (previous : String) (es fs : List (DeskEvent P))
      → verify_from hash i previous (es ++ fs) ≡ valid
      → verify_from hash i previous es ≡ valid
  unfolding verify_from
  verify-prefix i previous [] fs h = refl
  verify-prefix i previous (e ∷ es) fs h = ground (arith, verify-prefix (suc i) e.event_hash es fs)

  -- A chain that has lost its last events still verifies.
  pub verify_truncated :
      (es fs : List (DeskEvent P))
      → verify_hash_chain hash (es ++ fs) ≡ valid
      → verify_hash_chain hash es ≡ valid
  unfolding verify_hash_chain
  verify_truncated es fs h = verify-prefix 0 "" es fs h

  -- The hash tells the events of the two chains apart, position by position.
  abbrev pub NoCollision : List (DeskEvent P) → List (DeskEvent P) → Type 0
  NoCollision (e ∷ es) (f ∷ fs) =
      (hash e.body e.previous_hash ≡ hash f.body f.previous_hash
        → (e.body ≡ f.body) × (e.previous_hash ≡ f.previous_hash))
      × NoCollision es fs
  NoCollision es fs = Unit

  chains_agree :
      (i : ℕ) (p q : String) (es fs : List (DeskEvent P))
      → verify_from hash i p es ≡ valid
      → verify_from hash i q fs ≡ valid
      → length es ≡ length fs
      → last_hash p es ≡ last_hash q fs
      → NoCollision es fs
      → (es ≡ fs) × (p ≡ q)
  chains_agree i p q [] [] v w l e n = (refl, e)
  chains_agree i p q [] (f ∷ fs) v w l e n = absurd (omega arith)
  chains_agree i p q (x ∷ es) [] v w l e n = absurd (omega arith)
  chains_agree i p q (x ∷ es) (f ∷ fs) v w l e n =
      let (linked, rest) = verify-cons i p x es v in
      let (linked', rest') = verify-cons i q f fs w in
      let (tails, hashes) =
        chains_agree (suc i) x.event_hash f.event_hash es fs rest rest' (omega arith) e n.1 in
      heads x f es fs p q linked linked' tails hashes n.0
    where
      heads :
          (x f : DeskEvent P) (es fs : List (DeskEvent P)) (p q : String)
          → IsLinked x p
          → IsLinked f q
          → es ≡ fs
          → x.event_hash ≡ f.event_hash
          → (hash x.body x.previous_hash ≡ hash f.body f.previous_hash
              → (x.body ≡ f.body) × (x.previous_hash ≡ f.previous_hash))
          → (x ∷ es ≡ f ∷ fs) × (p ≡ q)
      heads x f es fs p q a b t h n =
          let (bodies, links) = n (cc (a.0, a.1, b.0, b.1, h)) in
          (ground arith, cc (a.1, b.1, links))

  -- Two chains that verify, of one length and with one last hash, are the same chain, unless two of their
  -- events at one position collide.
  pub verified_chains_agree :
      (es fs : List (DeskEvent P))
      → verify_hash_chain hash es ≡ valid
      → verify_hash_chain hash fs ≡ valid
      → length es ≡ length fs
      → last_hash "" es ≡ last_hash "" fs
      → NoCollision es fs
      → es ≡ fs
  unfolding verify_hash_chain
  verified_chains_agree es fs v w l e n = (chains_agree 0 "" "" es fs v w l e n).0
