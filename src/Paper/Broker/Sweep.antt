-- ===== src/Paper/Broker/Sweep.antt =====
-- What the two checks leave open: exactly the positions that their rule does not close.
use bot_crypto.Prelude.{
  String, ◌≡◌, refl, Bool, true, false, Option, none, some, List, [], ◌∷◌, arith, str_eq, eq_iff,
  if◌then◌else◌, is_some, ◌∙◌,
}
use bot_crypto.Float.{Float}
use bot_crypto.Dict.{
  Dict, lookup, keys, IsUnique, erase-IsUnique, lookup-erase_self, lookup-erase_ne,
}
use bot_crypto.Paper.Broker.Types.{PaperPosition, PaperBroker, BothHitPolicy, Candle}
use bot_crypto.Paper.Broker.Orders.{
  ExitRule, close_position, visit, sweep, price_rule, candle_rule, check_positions,
  check_positions_ohlc,
}

abbrev pub member : String → List String → Bool
member j [] = false
member j (k ∷ ks) = let rest = member j ks in if str_eq k j then true else rest

module _ {F : Type 0} where
  -- The position of `symbol`, if the rule leaves it open.
  abbrev pub survivor : ExitRule F → String → Option (PaperPosition F) → Option (PaperPosition F)
  survivor rule symbol none = none
  survivor rule symbol (some p) = if is_some (rule symbol p) then none else some p

module _ {F : Type 0} ⦃fl : Float F⦄ (rule : ExitRule F) (ohlc : Bool) (now : F) where
  visit-IsUnique :
      (k : String) (b : PaperBroker F)
      → IsUnique b.positions
      → IsUnique (visit rule ohlc now k b).0.positions
  unfolding visit close_position
  visit-IsUnique k b u = grind (arith, erase-IsUnique)

  lookup-visit :
      (k j : String) (b : PaperBroker F)
      → IsUnique b.positions
      → lookup j (visit rule ohlc now k b).0.positions
        ≡ (if str_eq k j then survivor rule j (lookup j b.positions) else lookup j b.positions)
  unfolding visit close_position
  lookup-visit k j b u =
      ground (arith, eq_iff k j, lookup-erase_self k b.positions u, lookup-erase_ne k j b.positions)

  sweep-IsUnique :
      (ks : List String) (b : PaperBroker F)
      → IsUnique b.positions
      → IsUnique (sweep rule ohlc now ks b).0.positions
  unfolding sweep
  sweep-IsUnique [] b u = u
  sweep-IsUnique (k ∷ ks) b u = sweep-IsUnique ks (visit rule ohlc now k b).0 (visit-IsUnique k b u)

  -- Visiting a key twice is visiting it once.
  survivor_twice :
      (j : String) (o : Option (PaperPosition F))
      → survivor rule j (survivor rule j o) ≡ survivor rule j o
  survivor_twice j o = ground arith

  lookup-sweep :
      (ks : List String) (j : String) (b : PaperBroker F)
      → IsUnique b.positions
      → lookup j (sweep rule ohlc now ks b).0.positions
        ≡ (if member j ks then survivor rule j (lookup j b.positions) else lookup j b.positions)
  unfolding sweep
  lookup-sweep [] j b u = refl
  lookup-sweep (k ∷ ks) j b u =
      lookup-sweep ks j (visit rule ohlc now k b).0 (visit-IsUnique k b u)
      ∙ rw lookup-visit_at (ground (arith, survivor_twice j (lookup j b.positions)))
    where
      lookup-visit_at :
          lookup j (visit rule ohlc now k b).0.positions
          ≡ (if str_eq k j then survivor rule j (lookup j b.positions) else lookup j b.positions)
      lookup-visit_at = lookup-visit k j b u

member-keys :
    {V : Type 0} (j : String) (v : V) (d : Dict V) → lookup j d ≡ some v → member j (keys d) ≡ true
member-keys j v [] h = cc
member-keys j v ((i, w) ∷ d) h = ground (arith, member-keys j v d)

module _ {F : Type 0} ⦃fl : Float F⦄ (rule : ExitRule F) (ohlc : Bool) (now : F) where
  lookup-sweep_all :
      (j : String) (b : PaperBroker F)
      → IsUnique b.positions
      → lookup j (sweep rule ohlc now (keys b.positions) b).0.positions
        ≡ survivor rule j (lookup j b.positions)
  lookup-sweep_all j b u =
      lookup-sweep rule ohlc now (keys b.positions) j b u ∙ all_visited (lookup j b.positions) refl
    where
      all_visited :
          (o : Option (PaperPosition F))
          → lookup j b.positions ≡ o
          → (if member j (keys b.positions) then survivor rule j o else o) ≡ survivor rule j o
      all_visited none e = ground arith
      all_visited (some p) e = rw (member-keys j p b.positions e)

module _ {F : Type 0} ⦃fl : Float F⦄ where
  -- With one position at most for each symbol, after `check_positions` a symbol has the position it had, unless its
  -- price reached the stop or the target: exactly then the position is gone.
  pub lookup-check_positions :
      (prices : Dict F) (now : F) (symbol : String) (b : PaperBroker F)
      → IsUnique b.positions
      → lookup symbol (check_positions prices now b).0.positions
        ≡ survivor (price_rule prices) symbol (lookup symbol b.positions)
  unfolding check_positions
  lookup-check_positions prices now symbol b u =
      lookup-sweep_all (price_rule prices) false now symbol b u

  -- With one position at most for each symbol, after `check_positions_ohlc` a symbol has the position it had, unless
  -- its candle touched the stop or the target: exactly then the position is gone.
  pub lookup-check_positions_ohlc :
      (policy : BothHitPolicy) (candles : Dict (Candle F)) (now : F) (symbol : String)
      (b : PaperBroker F)
      → IsUnique b.positions
      → lookup symbol (check_positions_ohlc policy candles now b).0.positions
        ≡ survivor (candle_rule policy candles) symbol (lookup symbol b.positions)
  unfolding check_positions_ohlc
  lookup-check_positions_ohlc policy candles now symbol b u =
      lookup-sweep_all (candle_rule policy candles) true now symbol b u
