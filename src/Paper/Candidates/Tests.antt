-- ===== src/Paper/Candidates/Tests.antt =====
-- A cycle's candidates, with the limits of the source.
use bot_crypto.Prelude.{
  Bool, count, ℕ, ◌≤◌, String, ◌≡◌, refl, List, [], ◌∷◌, length, map, ◌+◌, none, All,
}
use bot_crypto.Prelude.Int.{ℤ, pos}
use bot_crypto.Float.Integers.{integers, integers-IsOrdered}
use bot_crypto.Paper.Candidates.{
  TradeCandidate, consider_all, consider, reject, accept, is_seen, same_key, group_of, count_of,
  rank_in, ranked, build_portfolio,
}
use bot_crypto.Paper.Candidates.Limits.{in_group, count_rejected, AreDistinct, build_portfolio_lem}
use bot_crypto.Paper.Candidates.Ranking.{IsDescending, IsBest, build_portfolio-IsDescending}

abbrev candidate : String → ℕ → TradeCandidate ℤ
candidate asset score = record {
  asset = asset;
  strategy_id = "trend";
  family = "trend";
  direction = "LONG";
  timestamp = 7;
  score = pos score;
  entry_reference = pos 100;
  structural_stop = pos 99;
  correlation_group = none;
}

-- The second of BTC is a duplicate.
abbrev cycle : List (TradeCandidate ℤ)
cycle =
    candidate "BTC" 2
    ∷ candidate "ETH" 5
    ∷ candidate "BTC" 1
    ∷ candidate "SOL" 4
    ∷ candidate "XRP" 1
    ∷ []

assets : map (λ c. c.asset) (build_portfolio 1 3 cycle).candidates ≡ "ETH" ∷ "SOL" ∷ "BTC" ∷ []
unfolding build_portfolio ranked rank_in consider_all consider reject accept is_seen same_key
    group_of count_of
assets = refl

build_portfolio_lem_example :
    (length (build_portfolio 1 3 cycle).candidates ≤ 3)
    × ((group : String) → in_group group (build_portfolio 1 3 cycle).candidates ≤ 1)
    × AreDistinct (build_portfolio 1 3 cycle).candidates
    × ((test : TradeCandidate ℤ → Bool)
        → count test (build_portfolio 1 3 cycle).candidates
            + count_rejected test (build_portfolio 1 3 cycle).rejected
          ≡ count test cycle)
build_portfolio_lem_example = build_portfolio_lem 1 3 cycle

build_portfolio-IsDescending_example :
    IsDescending (build_portfolio 1 3 cycle).candidates
    × All (IsBest (build_portfolio 1 3 cycle).candidates) (build_portfolio 1 3 cycle).rejected
build_portfolio-IsDescending_example = build_portfolio-IsDescending integers-IsOrdered 1 3 cycle
