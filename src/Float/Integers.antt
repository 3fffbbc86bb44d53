-- ===== src/Float/Integers.antt =====
-- The integers as an arithmetic that does not round sums and products: a literal is rounded up, and a quotient towards
-- zero. The tests use it where a theorem asks for exact arithmetic.
use bot_crypto.Prelude.{ℕ, ◌+◌, ◌-◌, ◌/◌, ◌<◌, ◌≡◌, true, ◌&&◌, arith}
use native.Mathlib.Nat.{div-eq-sub-div}
use bot_crypto.Prelude.Int.{ℤ, pos, negsuc, ◌+ℤ◌, ◌-ℤ◌, ◌*ℤ◌, ◌/ℤ◌, leb_ℤ, ltb_ℤ, +ℤ_assoc, *ℤ-sub}
use bot_crypto.Float.{Float, IsOrdered, IsUnrounded, IsSigned}

instance abbrev pub integers : Float ℤ
integers = record {
  add = λ a b. a +ℤ b;
  sub = λ a b. a -ℤ b;
  mul = λ a b. a *ℤ b;
  div = λ a b. a /ℤ b;
  lt = ltb_ℤ;
  le = leb_ℤ;
  eq = λ a b. leb_ℤ a b && leb_ℤ b a;
  decimal = λ n d. pos ((n + (d - 1)) / d);
  round = λ a n. a;
}

pub integers-IsOrdered : IsOrdered integers
integers-IsOrdered = record {
  le_trans = λ a b c h k. ground arith;
  lt-eq-not-le = λ a b. ground arith;
  le_total = λ a b h. ground arith;
}

pub integers-IsUnrounded : IsUnrounded integers
integers-IsUnrounded = record {
  add_assoc = +ℤ_assoc;
  add-zero = λ a. ground arith;
  sub_self = λ a. ground arith;
  sub-add = λ a b c. ground arith;
  add-sub = λ a b. ground arith;
  sub_then_add = λ a b c. ground arith;
  mul-sub = *ℤ-sub;
}

literal_pos : (n d : ℕ) → 0 < n → 0 < d → ltb_ℤ (pos 0) (pos ((n + (d - 1)) / d)) ≡ true
literal_pos n d h k =
    let e : (n + (d - 1)) / d ≡ (n + (d - 1) - d) / d + 1 = div-eq-sub-div k (omega arith) in
    ground (arith, e)

mul_nonneg :
    (a b : ℤ) → leb_ℤ (pos 0) a ≡ true → leb_ℤ (pos 0) b ≡ true → leb_ℤ (pos 0) (a *ℤ b) ≡ true
mul_nonneg (pos a) (pos b) h k = ground arith
mul_nonneg (pos a) (negsuc b) h k = ground arith
mul_nonneg (negsuc a) b h k = ground arith

div_nonneg :
    (a b : ℤ) → leb_ℤ (pos 0) a ≡ true → ltb_ℤ (pos 0) b ≡ true → leb_ℤ (pos 0) (a /ℤ b) ≡ true
div_nonneg (pos a) (pos b) h k = ground arith
div_nonneg (pos a) (negsuc b) h k = ground arith
div_nonneg (negsuc a) b h k = ground arith

pub integers-IsSigned : IsSigned integers
integers-IsSigned = record {
  literal_pos = literal_pos;
  add_nonneg = λ a b h k. ground arith;
  mul_nonneg = mul_nonneg;
  div_nonneg = div_nonneg;
  round_nonneg = λ a n h. h;
}
