-- ===== src/Paper/Candidates.antt =====
-- The consolidation of candidates: src/trading_bot/paper/candidate_portfolio.py. Its warnings are left out. `sorted` is
-- a stable insertion sort; an expected risk and a regime that nothing reads are left out too.
pub mod Limits
pub mod Ranking
mod Tests
use bot_crypto.Prelude.{
  ℕ, suc, ◌+◌, String, Bool, true, false, ◌&&◌, ◌||◌, Option, none, some, List, [], ◌∷◌, ◌++◌, ltb,
  leb, str_eq, length, if◌then◌else◌,
}
use bot_crypto.Float.{Float, whole, ◌<F◌}
use bot_crypto.Dict.{Dict, lookup, insert}

pub record TradeCandidate (F : Type 0) : Type 0 where
  pub asset : String
  pub strategy_id : String
  pub family : String
  -- "LONG" or "SHORT"
  pub direction : String
  pub timestamp : ℕ
  pub score : F
  pub entry_reference : F
  pub structural_stop : F
  pub correlation_group : Option String

pub data Reason : Type 0 where
  duplicate_candidate : Reason
  correlation_group_limit : String → Reason
  portfolio_size_cap : Reason

-- The portfolio, with the two local variables of the loop: the keys seen and the counts of the groups.
pub record CandidatePortfolio (F : Type 0) : Type 0 where
  pub candidates : List (TradeCandidate F)
  pub rejected : List (TradeCandidate F × Reason)
  pub seen : List (TradeCandidate F)
  pub group_counts : Dict ℕ

-- `group_counts.get(group, 0)`
unfoldable pub count_of : String → Dict ℕ → ℕ
count_of g counts = elim (lookup g counts) [ none ↦ 0 | some n ↦ n ]

-- `concentration_max_per_group`
pub max_count : Dict ℕ → ℕ
max_count [] = 0
max_count ((g, n) ∷ counts) = let m = max_count counts in if ltb m n then n else m

module _ {F : Type 0} where
  abbrev pub empty : CandidatePortfolio F
  empty = record { candidates = []; rejected = []; seen = []; group_counts = [] }

  -- Whether the keys (asset, strategy_id, direction) are equal.
  unfoldable pub same_key : TradeCandidate F → TradeCandidate F → Bool
  same_key a b =
      str_eq a.asset b.asset && str_eq a.strategy_id b.strategy_id && str_eq a.direction b.direction

  unfoldable pub is_seen : TradeCandidate F → List (TradeCandidate F) → Bool
  is_seen c [] = false
  is_seen c (d ∷ ds) = same_key c d || is_seen c ds

  -- `cand.correlation_group or cand.asset`
  unfoldable pub group_of : TradeCandidate F → String
  group_of c = elim c.correlation_group [
    | none ↦ c.asset
    | some g ↦ if str_eq g "" then c.asset else g
  ]

  unfoldable pub reject : TradeCandidate F → Reason → CandidatePortfolio F → CandidatePortfolio F
  reject c reason p = record p { rejected = p.rejected ++ (c, reason) ∷ [] }

  abbrev pub note_seen : TradeCandidate F → CandidatePortfolio F → CandidatePortfolio F
  note_seen c p = record p { seen = c ∷ p.seen }

  unfoldable pub accept : TradeCandidate F → CandidatePortfolio F → CandidatePortfolio F
  accept c p = record p {
    group_counts = insert (group_of c) (count_of (group_of c) p.group_counts + 1) p.group_counts;
    candidates = p.candidates ++ c ∷ [];
  }

  -- One round of the loop.
  unfoldable pub consider : ℕ → ℕ → TradeCandidate F → CandidatePortfolio F → CandidatePortfolio F
  consider max_per_group max_candidates c p =
      if is_seen c p.seen
      then reject c duplicate_candidate p
      else if leb max_per_group (count_of (group_of c) p.group_counts)
      then reject c (correlation_group_limit (group_of c)) (note_seen c p)
      else if leb max_candidates (length p.candidates)
      then reject c portfolio_size_cap (note_seen c p)
      else accept c (note_seen c p)

  unfoldable pub consider_all :
      ℕ → ℕ → List (TradeCandidate F) → CandidatePortfolio F → CandidatePortfolio F
  consider_all max_per_group max_candidates [] p = p
  consider_all max_per_group max_candidates (c ∷ cs) p =
      consider_all max_per_group max_candidates cs (consider max_per_group max_candidates c p)

  -- Whether the portfolio gets the warning that all share one group.
  pub shares_one_group : CandidatePortfolio F → Bool
  shares_one_group p =
      leb 2 (length p.candidates)
      && (elim p.group_counts [ [] ↦ false | (g ∷ gs) ↦ leb (length gs) 0 ])

module _ {F : Type 0} ⦃fl : Float F⦄ where
  -- The key is the negated score, so a higher score goes first, and of equal scores the earlier candidate.
  unfoldable pub rank_in : TradeCandidate F → List (TradeCandidate F) → List (TradeCandidate F)
  rank_in c [] = c ∷ []
  rank_in c (d ∷ ds) =
      let rest = rank_in c ds in if c.score <F d.score then d ∷ rest else c ∷ d ∷ ds

  unfoldable pub ranked : List (TradeCandidate F) → List (TradeCandidate F)
  ranked [] = []
  ranked (c ∷ cs) = rank_in c (ranked cs)

  unfoldable pub build_portfolio : ℕ → ℕ → List (TradeCandidate F) → CandidatePortfolio F
  build_portfolio max_per_group max_candidates cs =
      consider_all max_per_group max_candidates (ranked cs) empty
