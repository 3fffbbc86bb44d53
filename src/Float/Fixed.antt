-- ===== src/Float/Fixed.antt =====
-- Fixed-point numbers with four decimals: an arithmetic for `Float` that runs, used by the tests.
use bot_crypto.Prelude.{◌*◌, ◌/◌, ◌&&◌, arith}
use bot_crypto.Prelude.Int.{ℤ, pos, ◌+ℤ◌, ◌-ℤ◌, ◌*ℤ◌, ◌/ℤ◌, leb_ℤ, ltb_ℤ}
use bot_crypto.Float.{Float, IsOrdered}

-- The value in units of 1/10000.
abbrev pub Fixed : Type 0
Fixed = ℤ

abbrev scale : ℤ
scale = pos 10000

-- Rounding to four decimals or more changes nothing; to fewer is not needed by the tests.
instance abbrev pub fixed : Float ℤ
fixed = record {
  add = λ a b. a +ℤ b;
  sub = λ a b. a -ℤ b;
  mul = λ a b. a *ℤ b /ℤ scale;
  div = λ a b. a *ℤ scale /ℤ b;
  lt = ltb_ℤ;
  le = leb_ℤ;
  eq = λ a b. leb_ℤ a b && leb_ℤ b a;
  decimal = λ n d. pos (n * 10000 / d);
  round = λ a n. a;
}

pub fixed-IsOrdered : IsOrdered fixed
fixed-IsOrdered = record {
  le_trans = λ a b c h k. ground arith;
  lt-eq-not-le = λ a b. ground arith;
  le_total = λ a b h. ground arith;
}
