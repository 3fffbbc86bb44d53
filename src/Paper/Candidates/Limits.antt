-- ===== src/Paper/Candidates/Limits.antt =====
-- The limits of the consolidated portfolio.
use bot_crypto.Prelude.{
  Bool, ℕ, suc, ◌+◌, ◌≤◌, String, ◌≡◌, refl, true, false, List, [], ◌∷◌, ◌++◌, arith, leb, str_eq,
  eq_iff, length, count, All, All-map, All-append, length-append, count-append, if◌then◌else◌,
}
use bot_crypto.Float.{Float}
use bot_crypto.Dict.{Dict, insert, lookup-insert}
use bot_crypto.Paper.Candidates.{
  TradeCandidate, Reason, duplicate_candidate, correlation_group_limit, portfolio_size_cap,
  CandidatePortfolio, empty, same_key, is_seen, group_of, count_of, reject, note_seen, accept,
  consider, consider_all, rank_in, ranked, build_portfolio,
}

count_of-insert :
    (g h : String) (n : ℕ) (counts : Dict ℕ)
    → count_of h (insert g n counts) ≡ (if str_eq g h then n else count_of h counts)
unfolding count_of
count_of-insert g h n counts = ground (arith, lookup-insert g h n counts)

module _ {F : Type 0} where
  -- How many of the candidates are in the group.
  abbrev pub in_group : String → List (TradeCandidate F) → ℕ
  in_group g cs = count (λ c. str_eq (group_of c) g) cs

  -- No two of the candidates have one asset, strategy and direction.
  abbrev pub AreDistinct : List (TradeCandidate F) → Type 0
  AreDistinct [] = Unit
  AreDistinct (c ∷ cs) = All (λ d. same_key d c ≡ false) cs × AreDistinct cs

  record IsWithin (max_per_group max_candidates : ℕ) (p : CandidatePortfolio F) : Type 0 where
    size : length p.candidates ≤ max_candidates
    counted : (g : String) → in_group g p.candidates ≡ count_of g p.group_counts
    bounded : (g : String) → count_of g p.group_counts ≤ max_per_group
    known : All (λ c. is_seen c p.seen ≡ true) p.candidates
    distinct : AreDistinct p.candidates

  distinct-append :
      (cs : List (TradeCandidate F)) (c : TradeCandidate F)
      → AreDistinct cs
      → All (λ d. same_key c d ≡ false) cs
      → AreDistinct (cs ++ c ∷ [])
  distinct-append [] c h k = (tt, tt)
  distinct-append (d ∷ ds) c h k = (
    All-append (λ e. same_key e d ≡ false) ds (c ∷ []) h.0 (k.0, tt),
    distinct-append ds c h.1 k.1,
  )

  same_key_trans :
      (a b c : TradeCandidate F) → same_key a b ≡ true → same_key b c ≡ true → same_key a c ≡ true
  unfolding same_key
  same_key_trans a b c h k = ground (
    arith,
    eq_iff a.asset b.asset,
    eq_iff b.asset c.asset,
    eq_iff a.asset c.asset,
    eq_iff a.strategy_id b.strategy_id,
    eq_iff b.strategy_id c.strategy_id,
    eq_iff a.strategy_id c.strategy_id,
    eq_iff a.direction b.direction,
    eq_iff b.direction c.direction,
    eq_iff a.direction c.direction,
  )

  seen_same :
      (a b : TradeCandidate F) (seen : List (TradeCandidate F))
      → same_key a b ≡ true
      → is_seen b seen ≡ true
      → is_seen a seen ≡ true
  unfolding is_seen
  seen_same a b [] h k = ground arith
  seen_same a b (c ∷ cs) h k = ground (arith, seen_same a b cs h, same_key_trans a b c h)

  -- A candidate that is not seen has another key than every candidate that is.
  fresh :
      (c : TradeCandidate F) (seen cs : List (TradeCandidate F))
      → is_seen c seen ≡ false
      → All (λ d. is_seen d seen ≡ true) cs
      → All (λ d. same_key c d ≡ false) cs
  fresh c seen cs h k =
      All-map (λ d. is_seen d seen ≡ true) (λ d. same_key c d ≡ false) cs
        (λ d e. ground (arith, seen_same c d seen)) k

  same_key_refl : (c : TradeCandidate F) → same_key c c ≡ true
  unfolding same_key
  same_key_refl c = ground (
    arith,
    eq_iff c.asset c.asset,
    eq_iff c.strategy_id c.strategy_id,
    eq_iff c.direction c.direction,
  )

  known-note :
      (c : TradeCandidate F) (p : CandidatePortfolio F)
      → All (λ d. is_seen d p.seen ≡ true) p.candidates
      → All (λ d. is_seen d (note_seen c p).seen ≡ true) p.candidates
  unfolding is_seen
  known-note c p h =
      All-map (λ d. is_seen d p.seen ≡ true) (λ d. is_seen d (c ∷ p.seen) ≡ true) p.candidates
        (λ d e. ground arith) h

  note-IsWithin :
      (g n : ℕ) (c : TradeCandidate F) (p : CandidatePortfolio F)
      → IsWithin g n p
      → IsWithin g n (note_seen c p)
  note-IsWithin g n c p h = record {
    size = h.size;
    counted = h.counted;
    bounded = h.bounded;
    known = known-note c p h.known;
    distinct = h.distinct;
  }

  accept-IsWithin :
      (g n : ℕ) (c : TradeCandidate F) (p : CandidatePortfolio F)
      → IsWithin g n p
      → is_seen c p.seen ≡ false
      → leb g (count_of (group_of c) p.group_counts) ≡ false
      → leb n (length p.candidates) ≡ false
      → IsWithin g n (accept c (note_seen c p))
  unfolding accept is_seen
  accept-IsWithin g n c p h new room small = record {
    size = ground (arith, length-append p.candidates (c ∷ []));
    counted = λ k. ground (
      arith,
      h.counted k,
      count-append (λ d. str_eq (group_of d) k) p.candidates (c ∷ []),
      count_of-insert (group_of c) k (count_of (group_of c) p.group_counts + 1) p.group_counts,
      eq_iff (group_of c) k,
    );
    bounded = λ k. ground (
      arith,
      h.bounded k,
      count_of-insert (group_of c) k (count_of (group_of c) p.group_counts + 1) p.group_counts,
    );
    known =
        All-append (λ d. is_seen d (c ∷ p.seen) ≡ true) p.candidates (c ∷ [])
          (known-note c p h.known) (ground (arith, same_key_refl c), tt);
    distinct = distinct-append p.candidates c h.distinct (fresh c p.seen p.candidates new h.known);
  }

  reject-IsWithin :
      (g n : ℕ) (c : TradeCandidate F) (r : Reason) (p : CandidatePortfolio F)
      → IsWithin g n p
      → IsWithin g n (reject c r p)
  unfolding reject
  reject-IsWithin g n c r p h = record {
    size = h.size;
    counted = h.counted;
    bounded = h.bounded;
    known = h.known;
    distinct = h.distinct;
  }

  consider-IsWithin :
      (g n : ℕ) (c : TradeCandidate F) (p : CandidatePortfolio F)
      → IsWithin g n p
      → IsWithin g n (consider g n c p)
  unfolding consider
  consider-IsWithin g n c p h = grind (
    arith,
    reject-IsWithin g n c duplicate_candidate p h,
    reject-IsWithin g n c (correlation_group_limit (group_of c)) (note_seen c p)
        (note-IsWithin g n c p h),
    reject-IsWithin g n c portfolio_size_cap (note_seen c p) (note-IsWithin g n c p h),
    accept-IsWithin g n c p h,
  )

  consider_all-IsWithin :
      (g n : ℕ) (cs : List (TradeCandidate F)) (p : CandidatePortfolio F)
      → IsWithin g n p
      → IsWithin g n (consider_all g n cs p)
  unfolding consider_all
  consider_all-IsWithin g n [] p h = h
  consider_all-IsWithin g n (c ∷ cs) p h =
      consider_all-IsWithin g n cs (consider g n c p) (consider-IsWithin g n c p h)

  empty-IsWithin : (g n : ℕ) → IsWithin g n empty
  unfolding count_of
  empty-IsWithin g n = record {
    size = omega arith;
    counted = λ k. refl;
    bounded = λ k. omega arith;
    known = tt;
    distinct = tt;
  }

  -- How many of the rejected candidates pass a test.
  abbrev pub count_rejected : (TradeCandidate F → Bool) → List (TradeCandidate F × Reason) → ℕ
  count_rejected test [] = 0
  count_rejected test ((c, reason) ∷ rs) =
      let rest = count_rejected test rs in if test c then suc rest else rest

  count_rejected-append :
      (test : TradeCandidate F → Bool) (rs ss : List (TradeCandidate F × Reason))
      → count_rejected test (rs ++ ss) ≡ count_rejected test rs + count_rejected test ss
  count_rejected-append test [] ss = omega arith
  count_rejected-append test ((c, reason) ∷ rs) ss =
      ground (arith, count_rejected-append test rs ss)

  -- How many of the candidates that the portfolio has decided pass a test.
  abbrev decided : (TradeCandidate F → Bool) → CandidatePortfolio F → ℕ
  decided test p = count test p.candidates + count_rejected test p.rejected

  decided-consider :
      (test : TradeCandidate F → Bool) (g n : ℕ) (c : TradeCandidate F) (p : CandidatePortfolio F)
      → decided test (consider g n c p) ≡ (if test c then suc (decided test p) else decided test p)
  unfolding consider accept reject
  decided-consider test g n c p = ground (
    arith,
    count-append test p.candidates (c ∷ []),
    count_rejected-append test p.rejected ((c, duplicate_candidate) ∷ []),
    count_rejected-append test p.rejected ((c, correlation_group_limit (group_of c)) ∷ []),
    count_rejected-append test p.rejected ((c, portfolio_size_cap) ∷ []),
  )

  decided-consider_all :
      (test : TradeCandidate F → Bool) (g n : ℕ) (cs : List (TradeCandidate F))
      (p : CandidatePortfolio F)
      → decided test (consider_all g n cs p) ≡ count test cs + decided test p
  unfolding consider_all
  decided-consider_all test g n [] p = omega arith
  decided-consider_all test g n (c ∷ cs) p =
      ground
        (arith, decided-consider_all test g n cs (consider g n c p), decided-consider test g n c p)

module _ {F : Type 0} ⦃fl : Float F⦄ where
  count-rank_in :
      (test : TradeCandidate F → Bool) (c : TradeCandidate F) (cs : List (TradeCandidate F))
      → count test (rank_in c cs) ≡ (if test c then suc (count test cs) else count test cs)
  unfolding rank_in
  count-rank_in test c [] = refl
  count-rank_in test c (d ∷ ds) = ground (arith, count-rank_in test c ds)

  count-ranked :
      (test : TradeCandidate F → Bool) (cs : List (TradeCandidate F))
      → count test (ranked cs) ≡ count test cs
  unfolding ranked
  count-ranked test [] = refl
  count-ranked test (c ∷ cs) =
      ground (arith, count-rank_in test c (ranked cs), count-ranked test cs)

  -- The portfolio that build_portfolio returns has at most max_candidates candidates, of each correlation group at most
  -- max_per_group, and no two of one asset, strategy and direction. Its candidates and those that it rejected, each with a
  -- reason, are together the candidates given, each as often as it was: whatever the test, as many of them pass it.
  pub build_portfolio_lem :
      (max_per_group max_candidates : ℕ) (cs : List (TradeCandidate F))
      → (length (build_portfolio max_per_group max_candidates cs).candidates ≤ max_candidates)
        × ((group : String)
            → in_group group (build_portfolio max_per_group max_candidates cs).candidates
              ≤ max_per_group)
        × AreDistinct (build_portfolio max_per_group max_candidates cs).candidates
        × ((test : TradeCandidate F → Bool)
            → count test (build_portfolio max_per_group max_candidates cs).candidates
                + count_rejected test (build_portfolio max_per_group max_candidates cs).rejected
              ≡ count test cs)
  unfolding build_portfolio
  build_portfolio_lem g n cs =
      let h = consider_all-IsWithin g n (ranked cs) empty (empty-IsWithin g n) in
      (
        h.size,
        λ k. omega (arith, h.counted k, h.bounded k),
        h.distinct,
        λ test.
            omega (arith, decided-consider_all test g n (ranked cs) empty, count-ranked test cs),
      )
