-- ===== src/Paper/Portfolio/Tests.antt =====
-- The portfolio manager on concrete sizes and calls.
use bot_crypto.Prelude.{◌≡◌, refl, none, List, [], ◌∷◌}
use bot_crypto.Prelude.Int.{ℤ, pos, negsuc}
use bot_crypto.Float.{whole, fsum_from}
use bot_crypto.Float.Fixed.{fixed, fixed-IsOrdered}
use bot_crypto.Signal.{buy}
use bot_crypto.Paper.Portfolio.{
  PortfolioManager, create, compute_position_size, capped, equity_of, risk_budget_of,
  max_notional_of, max_total_of, open_position, close_position, check_risk_limits,
  daily_loss_breached, Call, open_call, close_call, run, apply,
}
use bot_crypto.Paper.Portfolio.Laws.{IsBooked, pnls, run-IsBooked}

-- 10000 of capital, 0.25% risk, 25% exposure, six positions, 5% daily loss, 10% drawdown.
abbrev manager : PortfolioManager ℤ
manager = create (whole 10000) (pos 25) (pos 2500) 6 (pos 500) (pos 1000)

-- A risk of 25 at a stop of 0.5% asks for 5000, which is capped to 2500.
capped_notional :
    (compute_position_size "BTC/USDT" buy (whole 100) (pos 50) none manager).notional ≡ whole 2500
unfolding compute_position_size capped equity_of risk_budget_of max_notional_of max_total_of
capped_notional = refl

-- A loss of 600 breaches the daily limit of 5%.
abbrev calls : List (Call ℤ)
calls =
    open_call "BTC/USDT" (whole 2500)
    ∷ open_call "BTC/USDT" (whole 100)
    ∷ close_call "BTC/USDT" (negsuc 5999999)
    ∷ []

loss_breaches : check_risk_limits (whole 9400) (run calls manager) ≡ daily_loss_breached
unfolding check_risk_limits run apply open_position close_position
loss_breaches = refl

run-IsBooked_example :
    IsBooked (whole 10000) (fsum_from (whole 10000) (pnls calls)) (run calls manager)
run-IsBooked_example =
    run-IsBooked fixed-IsOrdered (whole 10000) (pos 25) (pos 2500) 6 (pos 500) (pos 1000) calls
