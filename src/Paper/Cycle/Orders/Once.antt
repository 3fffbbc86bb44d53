-- ===== src/Paper/Cycle/Orders/Once.antt =====
-- The identities that any number of cycles execute.
use bot_crypto.Prelude.{
  ℕ, ◌+◌, String, ◌≡◌, refl, true, false, List, [], ◌∷◌, ◌++◌, arith, length, All, All-map,
  All-append, length-append, str_eq, eq_iff,
}
use bot_crypto.Float.{Float}
use bot_crypto.Dict.{Dict}
use bot_crypto.Market.Candles.{Ohlcv}
use bot_crypto.Execution.Idempotency.{
  IdempotencyGuard, is_duplicate, register, register-is_duplicate,
}
use bot_crypto.Risk.Manager.{RiskManager}
use bot_crypto.Paper.Broker.{PaperBroker}
use bot_crypto.Paper.Cycle.Stages.{Engine}
use bot_crypto.Paper.Cycle.Orders.{run_cycle_sync}
use bot_crypto.Paper.Cycle.Orders.Fills.{Fills, done, fill, run_cycle-Fills}

-- What one cycle is given besides the guard; between two cycles the risk manager and the broker may change at will.
pub record Input (F : Type 0) : Type 0 where
  pub manager : RiskManager F
  pub now : F
  pub history : Dict (List (Ohlcv F))
  pub timestamps : Dict ℕ
  pub broker : PaperBroker F

-- No identity is listed twice.
abbrev pub AreOnce : List String → Type 0
AreOnce [] = Unit
AreOnce (c ∷ cs) = All (λ d. str_eq d c ≡ false) cs × AreOnce cs

-- The identities are new to the one guard, known to the other, and distinct; and what was known stays known.
record IsNews (cs : List String) (g g' : IdempotencyGuard) : Type 0 where
  new : All (λ c. is_duplicate c g ≡ false) cs
  known : All (λ c. is_duplicate c g' ≡ true) cs
  once : AreOnce cs
  kept : (c : String) → is_duplicate c g ≡ true → is_duplicate c g' ≡ true

apart :
    (c : String) (cs : List String) (g : IdempotencyGuard)
    → is_duplicate c g ≡ true
    → All (λ d. is_duplicate d g ≡ false) cs
    → All (λ d. str_eq d c ≡ false) cs
apart c cs g h n = All-map _ (λ d. str_eq d c ≡ false) cs (λ d k. ground (arith, k, eq_iff d c)) n

append-AreOnce :
    (cs ds : List String) (g : IdempotencyGuard)
    → AreOnce cs
    → AreOnce ds
    → All (λ c. is_duplicate c g ≡ true) cs
    → All (λ d. is_duplicate d g ≡ false) ds
    → AreOnce (cs ++ ds)
append-AreOnce [] ds g h k m n = k
append-AreOnce (c ∷ cs) ds g h k m n = (
  All-append (λ d. str_eq d c ≡ false) cs ds h.0 (apart c ds g m.0 n),
  append-AreOnce cs ds g h.1 k m.1 n,
)

append-IsNews :
    (cs ds : List String) (g g' g'' : IdempotencyGuard)
    → IsNews cs g g'
    → IsNews ds g' g''
    → IsNews (cs ++ ds) g g''
append-IsNews cs ds g g' g'' h k = record {
  new =
      All-append (λ c. is_duplicate c g ≡ false) cs ds h.new
        (All-map _ (λ c. is_duplicate c g ≡ false) ds (λ c n. ground (arith, n, h.kept c)) k.new);
  known =
      All-append (λ c. is_duplicate c g'' ≡ true) cs ds
        (All-map _ (λ c. is_duplicate c g'' ≡ true) cs (λ c n. k.kept c n) h.known) k.known;
  once = append-AreOnce cs ds g' h.once k.once h.known k.new;
  kept = λ c n. k.kept c (h.kept c n);
}

module _ {F : Type 0} ⦃fl : Float F⦄ where
  Fills-IsNews :
      (m : RiskManager F) (now : F) (cs : List String) (g g' : IdempotencyGuard)
      (b b' : PaperBroker F)
      → Fills m now cs g b g' b'
      → IsNews cs g g'
  Fills-IsNews m now [] g g' b b' done = record { new = tt; known = tt; once = tt; kept = λ c h. h }
  Fills-IsNews m now (_ ∷ cs) g g' b b' (fill c s size d k x f) =
      let h = Fills-IsNews m now cs (register c "" g) g' _ b' f in
      record {
        new = (
          d,
          All-map _ (λ e. is_duplicate e g ≡ false) cs
              (λ e n. ground (arith, n, register-is_duplicate e c "" g)) h.new,
        );
        known = (h.kept c (ground (arith, register-is_duplicate c c "" g, eq_iff c c)), h.known);
        once = (
          All-map _ (λ e. str_eq e c ≡ false) cs
              (λ e n. ground (arith, n, register-is_duplicate e c "" g)) h.new,
          h.once,
        );
        kept = λ e n. h.kept e (ground (arith, n, register-is_duplicate e c "" g));
      }

  -- A number of cycles on one guard, with the total of their orders.
  pub run_cycles : Engine F → List (Input F) → IdempotencyGuard → IdempotencyGuard × ℕ
  run_cycles e [] g = (g, 0)
  run_cycles e (i ∷ is) g =
      let s = run_cycle_sync e i.manager i.now i.history i.timestamps g i.broker in
      let rest = run_cycles e is s.guard in (rest.0, s.counts.orders_created + rest.1)

  -- The identities that the cycles execute, in order, from one guard to another.
  pub data Executes (e : Engine F)
      : List (Input F) → List String → IdempotencyGuard → IdempotencyGuard → Type 0 where
    no_cycle : {g : IdempotencyGuard} → Executes e [] [] g g
    cycle :
        {is : List (Input F)} {ds : List String} {g g'' : IdempotencyGuard} (i : Input F)
        (cs : List String)
        → Fills i.manager i.now cs g i.broker
            (run_cycle_sync e i.manager i.now i.history i.timestamps g i.broker).guard
            (run_cycle_sync e i.manager i.now i.history i.timestamps g i.broker).broker
        → Executes e is ds
            (run_cycle_sync e i.manager i.now i.history i.timestamps g i.broker).guard
            g''
        → Executes e (i ∷ is) (cs ++ ds) g g''

  run_cycles-IsNews :
      (e : Engine F) (is : List (Input F)) (g : IdempotencyGuard)
      → (cs : List String) × Executes e is cs g (run_cycles e is g).0
        × (length cs ≡ (run_cycles e is g).1)
        × IsNews cs g (run_cycles e is g).0
  unfolding run_cycles
  run_cycles-IsNews e [] g =
      ([], no_cycle, refl, record { new = tt; known = tt; once = tt; kept = λ c h. h })
  run_cycles-IsNews e (i ∷ is) g =
      let s = run_cycle_sync e i.manager i.now i.history i.timestamps g i.broker in
      let (cs, f, n, bound) = run_cycle-Fills i.manager i.now e i.history i.timestamps g i.broker in
      let (ds, x, k, news) = run_cycles-IsNews e is s.guard in
      (
        cs ++ ds,
        cycle i cs f x,
        omega (arith, length-append cs ds, n, k),
        append-IsNews cs ds g s.guard (run_cycles e is s.guard).0
            (Fills-IsNews i.manager i.now cs g s.guard i.broker s.broker f) news,
      )

  -- Over any number of cycles on one guard, whatever the risk manager, the market and the broker are in each: the intent
  -- identities executed are as many as the orders that the cycles counted, no identity is executed twice, none was
  -- registered before the first cycle, and all are registered after the last.
  pub executed_once :
      (e : Engine F) (is : List (Input F)) (g : IdempotencyGuard)
      → (cs : List String) × Executes e is cs g (run_cycles e is g).0
        × (length cs ≡ (run_cycles e is g).1)
        × AreOnce cs
        × All (λ c. is_duplicate c g ≡ false) cs
        × All (λ c. is_duplicate c (run_cycles e is g).0 ≡ true) cs
  executed_once e is g =
      let (cs, x, n, h) = run_cycles-IsNews e is g in (cs, x, n, h.once, h.new, h.known)
