-- ===== src/Execution/Idempotency.antt =====
-- The idempotency guard: src/trading_bot/execution/idempotency.py. A set of texts is a list that is
-- read by membership; `add` leaves a set that has the text.
mod Tests
use bot_crypto.Prelude.{
  ℕ, ◌+◌, String, ◌≡◌, refl, Bool, true, false, ◌||◌, List, [], ◌∷◌, arith, str_eq, eq_iff,
  if◌then◌else◌, length,
}

-- The sets of ids; `_ttl_seconds` is left out, as no method reads it.
pub record IdempotencyGuard : Type 0 where
  pub sent_cloids : List String
  pub sent_order_ids : List String

abbrev pub initial : IdempotencyGuard
initial = record { sent_cloids = []; sent_order_ids = [] }

unfoldable pub member : String → List String → Bool
member x [] = false
member x (y ∷ ys) = str_eq x y || member x ys

unfoldable pub add : String → List String → List String
add x ys = if member x ys then ys else x ∷ ys

unfoldable pub is_duplicate : String → IdempotencyGuard → Bool
is_duplicate cloid g = member cloid g.sent_cloids

pub was_order_sent : String → IdempotencyGuard → Bool
was_order_sent order_id g = member order_id g.sent_order_ids

unfoldable pub register : String → String → IdempotencyGuard → IdempotencyGuard
register cloid order_id g = record {
  sent_cloids = add cloid g.sent_cloids;
  sent_order_ids = if str_eq order_id "" then g.sent_order_ids else add order_id g.sent_order_ids;
}

pub clear : IdempotencyGuard → IdempotencyGuard
clear g = initial

pub active_count : IdempotencyGuard → ℕ
active_count g = length g.sent_cloids + length g.sent_order_ids

-- The calls that change the guard.
pub data Call : Type 0 where
  register_call : String → String → Call
  clear_call : Call

pub run : List Call → IdempotencyGuard → IdempotencyGuard
run [] g = g
run (register_call c o ∷ cs) g = run cs (register c o g)
run (clear_call ∷ cs) g = run cs (clear g)

member-add : (x y : String) (ys : List String) → member x (add y ys) ≡ (str_eq x y || member x ys)
unfolding add member
member-add x y [] = ground arith
member-add x y (z ∷ zs) = ground (arith, eq_iff x y, present x y (z ∷ zs))
  where
    present :
        (a b : String) (l : List String) → str_eq a b ≡ true → member b l ≡ true → member a l ≡ true
    present a b [] e m = cc
    present a b (c ∷ l) e m = ground (arith, eq_iff a b, eq_iff a c, eq_iff b c, present a b l e)

pub register-is_duplicate :
    (x cloid order_id : String) (g : IdempotencyGuard)
    → is_duplicate x (register cloid order_id g) ≡ (str_eq x cloid || is_duplicate x g)
unfolding is_duplicate register
register-is_duplicate x cloid order_id g = member-add x cloid g.sent_cloids

-- The client order ids registered since the last `clear`, given those registered before.
abbrev pub registered : String → List Call → Bool → Bool
registered x [] before = before
registered x (register_call c o ∷ cs) before = registered x cs (str_eq x c || before)
registered x (clear_call ∷ cs) before = registered x cs false

run-is_duplicate :
    (x : String) (cs : List Call) (g : IdempotencyGuard)
    → is_duplicate x (run cs g) ≡ registered x cs (is_duplicate x g)
unfolding run is_duplicate register clear member
run-is_duplicate x [] g = refl
run-is_duplicate x (register_call c o ∷ cs) g =
    rw (run-is_duplicate x cs (register c o g)) (rw (member-add x c g.sent_cloids) refl)
run-is_duplicate x (clear_call ∷ cs) g = run-is_duplicate x cs (clear g)

-- After any calls on a new guard, a client order id counts as a duplicate exactly if it was registered
-- after the last `clear`.
pub is_duplicate_exact :
    (x : String) (cs : List Call) → is_duplicate x (run cs initial) ≡ registered x cs false
unfolding is_duplicate member
is_duplicate_exact x cs = run-is_duplicate x cs initial
