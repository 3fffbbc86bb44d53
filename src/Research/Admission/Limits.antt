-- ===== src/Research/Admission/Limits.antt =====
-- The limits that the controller keeps.
use bot_crypto.Prelude.{
  ℕ, ◌+◌, ◌≤◌, ◌<◌, String, ◌≡◌, refl, subst, Bool, Option, none, List, [], ◌∷◌, arith, length,
  count, Option-cases, inl, inr, if◌then◌else◌,
}
use bot_crypto.Float.{Float}
use bot_crypto.Dict.{
  Dict, lookup, insert, erase, values, IsUnique, insert-IsUnique, erase-IsUnique, length-insert_new,
}
use bot_crypto.Risk.Policy.{Risk}
use bot_crypto.Paper.Adapter.{AlphaSignal, Direction, long, short}
use bot_crypto.Research.Admission.{
  AdmissionController, same_direction, max_per_direction, gate, answer, block, check_signal,
  record_open, record_close, activate_kill_switch, reset_daily, Act, offer_act, close_act, stop_act,
  day_act, open_if, act, run, create,
}

module _ {V : Type 0} where
  count-insert :
      (p : V → Bool) (k : String) (v : V) (d : Dict V)
      → lookup k d ≡ none
      → count p (values (insert k v d)) ≡ count p (values d) + (if p v then 1 else 0)
  count-insert p k v [] h = ground arith
  count-insert p k v ((j, w) ∷ d) h = ground (arith, count-insert p k v d)

  count-erase :
      (p : V → Bool) (k : String) (d : Dict V) → count p (values (erase k d)) ≤ count p (values d)
  count-erase p k [] = omega arith
  count-erase p k ((j, w) ∷ d) = ground (arith, count-erase p k d)

  length-erase_le : (k : String) (d : Dict V) → length (erase k d) ≤ length d
  length-erase_le k [] = omega arith
  length-erase_le k ((j, w) ∷ d) = ground (arith, length-erase_le k d)

-- One more in a direction that has room leaves every direction within its bound.
room_for :
    (x d : Direction) (ds : List Direction) (n : ℕ)
    → count (λ e. same_direction e d) ds ≤ n
    → count (λ e. same_direction e x) ds < n
    → count (λ e. same_direction e d) ds + (if same_direction x d then 1 else 0) ≤ n
room_for long long ds n h k = omega (arith, k)
room_for long short ds n h k = omega (arith, h)
room_for short long ds n h k = omega (arith, h)
room_for short short ds n h k = omega (arith, k)

module _ {F : Type 0} ⦃fl : Float F⦄ where
  -- How many positions are open in the direction.
  abbrev pub count_of : Direction → AdmissionController F → ℕ
  count_of d c = count (λ e. same_direction e d) (values c.state.open_positions)

  -- One position a symbol, no more of them than the risk policy allows, no more in one direction than half of that, or one,
  -- and no more opened in a day than the policy allows.
  pub record IsLimited (risk : Risk F) (c : AdmissionController F) : Type 0 where
    policy : c.risk ≡ risk
    unique : IsUnique c.state.open_positions
    size : length c.state.open_positions ≤ risk.max_open_positions
    direction : (d : Direction) → count_of d c ≤ max_per_direction risk.max_open_positions
    today : c.state.trades_today ≤ risk.max_trades_per_day

  -- What the gates have compared when they let a signal pass.
  gate-none :
      (s : AlphaSignal F) (c : AdmissionController F)
      → gate s c ≡ none
      → (c.state.trades_today < c.risk.max_trades_per_day)
        × (length c.state.open_positions < c.risk.max_open_positions)
        × (lookup s.symbol c.state.open_positions ≡ none)
        × (count_of s.direction c < max_per_direction c.risk.max_open_positions)
  unfolding gate
  gate-none s c h = ground (arith, h)

  record_open-IsLimited :
      (risk : Risk F) (s : AlphaSignal F) (c : AdmissionController F)
      → gate s c ≡ none
      → IsLimited risk c
      → IsLimited risk (record_open s.symbol s.direction c)
  unfolding record_open
  record_open-IsLimited risk s c g h =
      let (today, size, new, direction) = gate-none s c g in
      let allowed =
        subst
          (λ r.
            (c.state.trades_today < r.max_trades_per_day)
            × (length c.state.open_positions < r.max_open_positions)
            × (count_of s.direction c < max_per_direction r.max_open_positions))
          h.policy (today, size, direction) in
      record {
        policy = h.policy;
        unique = insert-IsUnique s.symbol s.direction c.state.open_positions h.unique;
        size =
            omega
              (arith, length-insert_new s.symbol s.direction c.state.open_positions new, allowed.1);
        direction = λ d. ground (
          arith,
          count-insert (λ e. same_direction e d) s.symbol s.direction c.state.open_positions new,
          room_for s.direction d (values c.state.open_positions)
              (max_per_direction risk.max_open_positions) (h.direction d) allowed.2,
        );
        today = omega (arith, allowed.0);
      }

  record_close-IsLimited :
      (risk : Risk F) (symbol : String) (pnl : F) (c : AdmissionController F)
      → IsLimited risk c
      → IsLimited risk (record_close symbol pnl c)
  unfolding record_close
  record_close-IsLimited risk symbol pnl c h = record {
    policy = h.policy;
    unique = erase-IsUnique symbol c.state.open_positions h.unique;
    size = omega (arith, h.size, length-erase_le symbol c.state.open_positions);
    direction = λ d.
        omega (
          arith,
          h.direction d,
          count-erase (λ e. same_direction e d) symbol c.state.open_positions,
        );
    today = h.today;
  }

  offer-IsLimited :
      (risk : Risk F) (s : AlphaSignal F) (rsi : Option F) (c : AdmissionController F)
      → IsLimited risk c
      → IsLimited risk (open_if s (check_signal s rsi c))
  unfolding check_signal answer block open_if
  offer-IsLimited risk s rsi c h = elim (Option-cases (gate s c)) [
    | inl g ↦ rw g (record_open-IsLimited risk s c g h)
    | inr (reason, g) ↦ rw g (record {
      policy = h.policy;
      unique = h.unique;
      size = h.size;
      direction = h.direction;
      today = h.today;
    })
  ]

  act-IsLimited :
      (risk : Risk F) (a : Act F) (c : AdmissionController F)
      → IsLimited risk c
      → IsLimited risk (act a c)
  unfolding act activate_kill_switch reset_daily
  act-IsLimited risk (offer_act s rsi) c h = offer-IsLimited risk s rsi c h
  act-IsLimited risk (close_act symbol pnl) c h = record_close-IsLimited risk symbol pnl c h
  act-IsLimited risk stop_act c h = record {
    policy = h.policy;
    unique = h.unique;
    size = h.size;
    direction = h.direction;
    today = h.today;
  }
  act-IsLimited risk day_act c h = record {
    policy = h.policy;
    unique = h.unique;
    size = h.size;
    direction = h.direction;
    today = omega arith;
  }

  run-acts-IsLimited :
      (risk : Risk F) (acts : List (Act F)) (c : AdmissionController F)
      → IsLimited risk c
      → IsLimited risk (run acts c)
  unfolding run
  run-acts-IsLimited risk [] c h = h
  run-acts-IsLimited risk (a ∷ acts) c h =
      run-acts-IsLimited risk acts (act a c) (act-IsLimited risk a c h)

  -- Whatever signals a client offers a new controller, opening a position exactly for those that are admitted, and in
  -- whatever order it closes positions, stops and begins days: no symbol has two open positions, there are no more of them
  -- than max_open_positions, in one direction no more than half of that or one, and no more are opened in a day
  -- than max_trades_per_day.
  pub run-IsLimited :
      (risk : Risk F) (equity : F) (acts : List (Act F))
      → IsLimited risk (run acts (create risk equity))
  unfolding create
  run-IsLimited risk equity acts = run-acts-IsLimited risk acts (create risk equity) (record {
    policy = refl;
    unique = tt;
    size = omega arith;
    direction = λ d. omega arith;
    today = omega arith;
  })
