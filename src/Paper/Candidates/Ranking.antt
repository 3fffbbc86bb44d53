-- ===== src/Paper/Candidates/Ranking.antt =====
-- The order in which the candidates are taken: by score, the highest first.
use bot_crypto.Prelude.{
  ℕ, ◌≤◌, ◌≡◌, refl, Bool, true, false, List, [], ◌∷◌, ◌++◌, arith, leb, leb→le, length, All,
  All-map, All-append, ◌⊎◌, inl, inr,
}
use bot_crypto.Float.{Float, IsOrdered, ◌≤F◌}
use bot_crypto.Paper.Candidates.{
  TradeCandidate, Reason, duplicate_candidate, correlation_group_limit, portfolio_size_cap,
  CandidatePortfolio, empty, reject, note_seen, accept, consider, consider_all, rank_in, ranked,
  build_portfolio, group_of,
}

-- Whether the candidate was rejected since the portfolio was full.
abbrev pub is_size_cap : Reason → Bool
is_size_cap duplicate_candidate = false
is_size_cap (correlation_group_limit g) = false
is_size_cap portfolio_size_cap = true

module _ {F : Type 0} ⦃fl : Float F⦄ where
  -- No candidate of the list scores higher than `c`.
  abbrev pub AreBelow : TradeCandidate F → List (TradeCandidate F) → Type 0
  AreBelow c cs = All (λ d. d.score ≤F c.score ≡ true) cs

  -- None scores lower than `c`.
  abbrev pub AreAbove : TradeCandidate F → List (TradeCandidate F) → Type 0
  AreAbove c cs = All (λ d. c.score ≤F d.score ≡ true) cs

  abbrev pub IsDescending : List (TradeCandidate F) → Type 0
  IsDescending [] = Unit
  IsDescending (c ∷ cs) = AreBelow c cs × IsDescending cs

  -- A candidate rejected since the portfolio was full scores no higher than every candidate in it.
  abbrev pub IsBest : List (TradeCandidate F) → TradeCandidate F × Reason → Type 0
  IsBest accepted (c, reason) = (is_size_cap reason ≡ false) ⊎ AreAbove c accepted

  -- Every rejected one is below what is in, and once one was rejected for the size the portfolio is full.
  record IsKept (n : ℕ) (cs : List (TradeCandidate F)) (p : CandidatePortfolio F) : Type 0 where
    above : All (λ c. AreAbove c p.candidates) cs
    full :
        All
          (λ r. (is_size_cap r.1 ≡ false) ⊎ (AreAbove r.0 p.candidates × (n ≤ length p.candidates)))
          p.rejected
    descending : IsDescending p.candidates

  module _ (o : IsOrdered fl) where
    AreBelow-trans :
        (c d : TradeCandidate F) (cs : List (TradeCandidate F))
        → d.score ≤F c.score ≡ true
        → AreBelow d cs
        → AreBelow c cs
    AreBelow-trans c d cs h =
        All-map (λ e. e.score ≤F d.score ≡ true) (λ e. e.score ≤F c.score ≡ true) cs
          (λ e k. o.le_trans e.score d.score c.score k h)

    AreBelow-rank_in :
        (c d : TradeCandidate F) (cs : List (TradeCandidate F))
        → d.score ≤F c.score ≡ true
        → AreBelow c cs
        → AreBelow c (rank_in d cs)
    unfolding rank_in
    AreBelow-rank_in c d [] h k = (h, tt)
    AreBelow-rank_in c d (e ∷ es) h k = grind (arith, AreBelow-rank_in c d es h k.1)

    rank_in-IsDescending :
        (c : TradeCandidate F) (cs : List (TradeCandidate F))
        → IsDescending cs
        → IsDescending (rank_in c cs)
    unfolding rank_in
    rank_in-IsDescending c [] h = (tt, tt)
    rank_in-IsDescending c (d ∷ ds) h = grind (
      arith,
      rank_in-IsDescending c ds h.1,
      AreBelow-rank_in d c ds,
      AreBelow-trans c d ds,
      o.lt-eq-not-le c.score d.score,
      o.le_total d.score c.score,
    )

    ranked-IsDescending : (cs : List (TradeCandidate F)) → IsDescending (ranked cs)
    unfolding ranked
    ranked-IsDescending [] = tt
    ranked-IsDescending (c ∷ cs) = rank_in-IsDescending c (ranked cs) (ranked-IsDescending cs)

  IsDescending-append :
      (cs : List (TradeCandidate F)) (c : TradeCandidate F)
      → IsDescending cs
      → AreAbove c cs
      → IsDescending (cs ++ c ∷ [])
  IsDescending-append [] c h k = (tt, tt)
  IsDescending-append (d ∷ ds) c h k = (
    All-append (λ e. e.score ≤F d.score ≡ true) ds (c ∷ []) h.0 (k.0, tt),
    IsDescending-append ds c h.1 k.1,
  )

  above-append :
      (c : TradeCandidate F) (accepted cs : List (TradeCandidate F))
      → All (λ d. AreAbove d accepted) cs
      → AreBelow c cs
      → All (λ d. AreAbove d (accepted ++ c ∷ [])) cs
  above-append c accepted [] h k = tt
  above-append c accepted (d ∷ ds) h k = (
    All-append (λ e. d.score ≤F e.score ≡ true) accepted (c ∷ []) h.0 (k.0, tt),
    above-append c accepted ds h.1 k.1,
  )

  reject-IsKept :
      (n : ℕ) (c : TradeCandidate F) (cs : List (TradeCandidate F)) (r : Reason)
      (p : CandidatePortfolio F)
      → IsKept n (c ∷ cs) p
      → (is_size_cap r ≡ false) ⊎ (n ≤ length p.candidates)
      → IsKept n cs (reject c r p)
  unfolding reject
  reject-IsKept n c cs r p h k = record {
    above = h.above.1;
    full =
        All-append
          (λ r. (is_size_cap r.1 ≡ false) ⊎ (AreAbove r.0 p.candidates × (n ≤ length p.candidates)))
          p.rejected ((c, r) ∷ []) h.full
          (elim k [ inl e ↦ inl e | inr e ↦ inr (h.above.0, e) ], tt);
    descending = h.descending;
  }

  note-IsKept :
      (n : ℕ) (c : TradeCandidate F) (cs : List (TradeCandidate F)) (p : CandidatePortfolio F)
      → IsKept n cs p
      → IsKept n cs (note_seen c p)
  note-IsKept n c cs p h = record { above = h.above; full = h.full; descending = h.descending }

  accept-IsKept :
      (n : ℕ) (c : TradeCandidate F) (cs : List (TradeCandidate F)) (p : CandidatePortfolio F)
      → IsKept n (c ∷ cs) p
      → AreBelow c cs
      → leb n (length p.candidates) ≡ false
      → IsKept n cs (accept c p)
  unfolding accept
  accept-IsKept n c cs p h k small = record {
    above = above-append c p.candidates cs h.above.1 k;
    full =
        All-map
          (λ r. (is_size_cap r.1 ≡ false) ⊎ (AreAbove r.0 p.candidates × (n ≤ length p.candidates)))
          (λ r.
            (is_size_cap r.1 ≡ false)
            ⊎ (AreAbove r.0 (p.candidates ++ c ∷ []) × (n ≤ length (p.candidates ++ c ∷ []))))
          p.rejected (λ r e. ground (arith, e)) h.full;
    descending = IsDescending-append p.candidates c h.descending h.above.0;
  }

  consider-IsKept :
      (g n : ℕ) (c : TradeCandidate F) (cs : List (TradeCandidate F)) (p : CandidatePortfolio F)
      → IsKept n (c ∷ cs) p
      → AreBelow c cs
      → IsKept n cs (consider g n c p)
  unfolding consider
  consider-IsKept g n c cs p h k = grind (
    arith,
    reject-IsKept n c cs duplicate_candidate p h (inl refl),
    reject-IsKept n c cs (correlation_group_limit (group_of c)) (note_seen c p)
        (note-IsKept n c (c ∷ cs) p h) (inl refl),
    λ (full : leb n (length p.candidates) ≡ true).
        reject-IsKept n c cs portfolio_size_cap (note_seen c p) (note-IsKept n c (c ∷ cs) p h)
          (inr (leb→le n (length p.candidates) full)),
    accept-IsKept n c cs (note_seen c p) (note-IsKept n c (c ∷ cs) p h) k,
  )

  consider_all-IsKept :
      (g n : ℕ) (cs : List (TradeCandidate F)) (p : CandidatePortfolio F)
      → IsKept n cs p
      → IsDescending cs
      → IsKept n [] (consider_all g n cs p)
  unfolding consider_all
  consider_all-IsKept g n [] p h k = h
  consider_all-IsKept g n (c ∷ cs) p h k =
      consider_all-IsKept g n cs (consider g n c p) (consider-IsKept g n c cs p h k.0) k.1

  nothing_above : (cs : List (TradeCandidate F)) → All (λ c. AreAbove c []) cs
  nothing_above [] = tt
  nothing_above (c ∷ cs) = (tt, nothing_above cs)

  -- Where the scores are totally ordered: the candidates in the portfolio stand in descending order of score, and a
  -- candidate that was rejected since the portfolio was full scores no higher than each of them.
  pub build_portfolio-IsDescending :
      (o : IsOrdered fl) (max_per_group max_candidates : ℕ) (cs : List (TradeCandidate F))
      → IsDescending (build_portfolio max_per_group max_candidates cs).candidates
        × All
            (IsBest (build_portfolio max_per_group max_candidates cs).candidates)
            (build_portfolio max_per_group max_candidates cs).rejected
  unfolding build_portfolio
  build_portfolio-IsDescending o g n cs =
      let h =
        consider_all-IsKept g n (ranked cs) empty
          (record { above = nothing_above (ranked cs); full = tt; descending = tt })
          (ranked-IsDescending o cs) in
      (
        h.descending,
        All-map _ (IsBest (build_portfolio g n cs).candidates) (build_portfolio g n cs).rejected
            (λ r e. elim e [ inl k ↦ inl k | inr k ↦ inr k.0 ]) h.full,
      )
