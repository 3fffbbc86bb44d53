-- ===== src/Paper/Portfolio/Laws.antt =====
-- The portfolio manager's sizes keep the limits, and its books follow from the calls.
use bot_crypto.Prelude.{
  ℕ, String, ◌≡◌, refl, ap, true, false, not, ◌&&◌, Option, List, [], ◌∷◌, arith, ltb, length,
  if◌then◌else◌, eq_iff,
}
use bot_crypto.Float.{
  Float, IsOrdered, whole, ◌+F◌, ◌*F◌, ◌/F◌, fsum, fsum_from, le_refl, le_of_lt, le_of_not_lt,
}
use bot_crypto.Dict.{
  Dict, contains, insert, erase, values, IsUnique, insert-IsUnique, erase-IsUnique,
}
use bot_crypto.Signal.{Side}
use bot_crypto.Paper.Portfolio.{
  PortfolioManager, compute_position_size, capped, equity_of, max_notional_of, max_total_of,
  risk_budget_of, open_position, close_position, reset_daily, create, Call, open_call, close_call,
  reset_call, apply, run,
}

-- The results that the closings bring, in order.
abbrev pub pnls : {F : Type 0} → List (Call F) → List F
pnls [] = []
pnls (close_call symbol pnl ∷ cs) = pnl ∷ pnls cs
pnls (c ∷ cs) = pnls cs

module _ {F : Type 0} ⦃fl : Float F⦄ where
  capped-le :
      (o : IsOrdered fl) (price stop equity : F) (m : PortfolioManager F)
      → fl.le (capped price stop equity m).1 (max_notional_of equity m) ≡ true
  unfolding capped
  capped-le o price stop equity m =
      let limit = max_notional_of equity m in
      let wanted = risk_budget_of equity m /F (price *F stop) *F price in
      ground (arith, le_refl o limit, le_of_not_lt o limit wanted)

  -- With amounts in a total order, a size is within the limits exactly if the stop and the price are positive, a
  -- position is free and the total exposure with the capped notional is not above its limit; it then has the capped
  -- quantity and notional, and the notional is at most the exposure allowed to one position.
  pub compute_position_size_lem :
      (o : IsOrdered fl) (symbol : String) (side : Side) (price stop : F) (current : Option F)
      (m : PortfolioManager F)
      → let size = compute_position_size symbol side price stop current m in
        let equity = equity_of current m in
        let (qty, notional) = capped price stop equity m in
        (size.within_limits ≡ (
          fl.lt (whole 0) stop
          && fl.lt (whole 0) price
          && ltb (length m.positions) m.max_positions
          && fl.le (fsum (values m.positions) +F notional) (max_total_of equity m)))
        × (size.quantity ≡ (if size.within_limits then qty else whole 0))
        × (size.notional ≡ (if size.within_limits then notional else whole 0))
        × (fl.le notional (max_notional_of equity m) ≡ true)
  unfolding compute_position_size
  compute_position_size_lem o symbol side price stop current m =
      let equity = equity_of current m in
      (
        ground (
          arith,
          o.lt-eq-not-le (whole 0) stop,
          o.lt-eq-not-le (whole 0) price,
          o.lt-eq-not-le (max_total_of equity m)
              (fsum (values m.positions) +F (capped price stop equity m).1),
        ),
        ground arith,
        ground arith,
        capped-le o price stop equity m,
      )

  -- The capital is the one given, the peak covers the initial capital and the capital, and no symbol has two
  -- positions.
  pub record IsBooked (initial booked : F) (m : PortfolioManager F) : Type 0 where
    pub capital : m.capital ≡ booked
    pub peak : fl.le m.capital m.peak_equity ≡ true
    pub high : fl.le initial m.peak_equity ≡ true
    pub unique : IsUnique m.positions

  open-IsBooked :
      (initial capital : F) (symbol : String) (notional : F) (m : PortfolioManager F)
      → IsBooked initial capital m
      → IsBooked initial capital (open_position symbol notional m).0
  unfolding open_position
  open-IsBooked initial capital symbol notional m h =
      ground (arith, insert-IsUnique symbol notional m.positions h.unique)

  close-IsBooked :
      (o : IsOrdered fl) (initial capital : F) (symbol : String) (pnl : F) (m : PortfolioManager F)
      → IsBooked initial capital m
      → IsBooked initial (capital +F pnl) (close_position symbol pnl m)
  unfolding close_position
  close-IsBooked o initial capital symbol pnl m h = record {
    capital = ap (λ c. c +F pnl) h.capital;
    peak =
        ground
          (arith, le_refl o (m.capital +F pnl), le_of_not_lt o m.peak_equity (m.capital +F pnl));
    high = ground (
      arith,
      h.high,
      le_of_lt o m.peak_equity (m.capital +F pnl),
      o.le_trans initial m.peak_equity (m.capital +F pnl),
    );
    unique = erase-IsUnique symbol m.positions h.unique;
  }

  run-IsBooked_from :
      (o : IsOrdered fl) (initial capital : F) (cs : List (Call F)) (m : PortfolioManager F)
      → IsBooked initial capital m
      → IsBooked initial (fsum_from capital (pnls cs)) (run cs m)
  unfolding run apply reset_daily
  run-IsBooked_from o initial capital [] m h = h
  run-IsBooked_from o initial capital (open_call symbol notional ∷ cs) m h =
      run-IsBooked_from o initial capital cs _ (open-IsBooked initial capital symbol notional m h)
  run-IsBooked_from o initial capital (close_call symbol pnl ∷ cs) m h =
      run-IsBooked_from o initial (capital +F pnl) cs _
        (close-IsBooked o initial capital symbol pnl m h)
  run-IsBooked_from o initial capital (reset_call ∷ cs) m h =
      run-IsBooked_from o initial capital cs _
        (record { capital = h.capital; peak = h.peak; high = h.high; unique = h.unique })

  -- With amounts in a total order, after any calls on a new manager the capital is the initial capital with the
  -- results of the closings added in turn, the peak is at least the initial capital and the capital, and no symbol
  -- has two positions.
  pub run-IsBooked :
      (o : IsOrdered fl) (initial risk exposure : F) (max_positions : ℕ) (loss fall : F)
      (cs : List (Call F))
      → IsBooked initial
          (fsum_from initial (pnls cs))
          (run cs (create initial risk exposure max_positions loss fall))
  run-IsBooked o initial risk exposure max_positions loss fall cs =
      run-IsBooked_from o initial initial cs _
        (record { capital = refl; peak = le_refl o initial; high = le_refl o initial; unique = tt })

module _ {V : Type 0} where
  erase-insert_new :
      (k : String) (v : V) (d : Dict V) → contains k d ≡ false → erase k (insert k v d) ≡ d
  erase-insert_new k v [] h = ground (arith, eq_iff k k)
  erase-insert_new k v ((j, w) ∷ d) h = ground (arith, erase-insert_new k v d)

module _ {F : Type 0} ⦃fl : Float F⦄ where
  -- A position that was opened and then closed leaves the positions as they were, and no position is opened on a
  -- symbol that has one.
  pub close-open :
      (symbol : String) (notional pnl : F) (m : PortfolioManager F)
      → ((open_position symbol notional m).1 ≡ not (contains symbol m.positions))
        × ((open_position symbol notional m).1 ≡ true
            → (close_position symbol pnl (open_position symbol notional m).0).positions
              ≡ m.positions)
  unfolding open_position close_position
  close-open symbol notional pnl m =
      (ground arith, λ h. ground (arith, erase-insert_new symbol notional m.positions))
