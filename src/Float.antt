-- ===== src/Float.antt =====
-- Python's `float`. The development computes with no floating-point format: the arithmetic is an
-- interface, and every function that uses floats is generic in it. What a theorem needs of
-- the arithmetic stands in its hypotheses, as one of the law records below.
pub mod Fixed
pub mod Integers
use bot_crypto.Prelude.{ℕ, ◌<◌, ◌≡◌, Bool, true, false, not, if◌then◌else◌, arith, List, [], ◌∷◌}

pub record Float (F : Type 0) : Type 0 where
  pub add : F → F → F
  pub sub : F → F → F
  pub mul : F → F → F
  pub div : F → F → F
  pub lt : F → F → Bool
  pub le : F → F → Bool
  pub eq : F → F → Bool
  -- `decimal n d` is the float nearest to n / d: the literals of the source
  pub decimal : ℕ → ℕ → F
  -- Python's `round(x, n)`
  pub round : F → ℕ → F

module _ {F : Type 0} ⦃fl : Float F⦄ where
  infixl 65 ◌+F◌ ◌-F◌
  infixl 70 ◌*F◌ ◌/F◌
  infix 50 ◌<F◌ ◌≤F◌ ◌==F◌
  abbrev pub ◌+F◌ : F → F → F
  a +F b = fl.add a b

  abbrev pub ◌-F◌ : F → F → F
  a -F b = fl.sub a b

  abbrev pub ◌*F◌ : F → F → F
  a *F b = fl.mul a b

  abbrev pub ◌/F◌ : F → F → F
  a /F b = fl.div a b

  abbrev pub ◌<F◌ : F → F → Bool
  a <F b = fl.lt a b

  abbrev pub ◌≤F◌ : F → F → Bool
  a ≤F b = fl.le a b

  abbrev pub ◌==F◌ : F → F → Bool
  a ==F b = fl.eq a b

  -- The literal of a whole number.
  abbrev pub whole : ℕ → F
  whole n = fl.decimal n 1

  -- Python's `max(a, b)` and `min(a, b)`: the first argument, unless the second beats it.
  abbrev pub fmax : F → F → F
  fmax a b = if a <F b then b else a

  abbrev pub fmin : F → F → F
  fmin a b = if b <F a then b else a

  -- `abs(x)`
  abbrev pub fabs : F → F
  fabs a = if a <F whole 0 then whole 0 -F a else a

  -- `sum(xs)`, from the left
  abbrev pub fsum_from : F → List F → F
  fsum_from acc [] = acc
  fsum_from acc (x ∷ xs) = fsum_from (acc +F x) xs

  abbrev pub fsum : List F → F
  fsum xs = fsum_from (whole 0) xs

  abbrev pub IsNonNegative : F → Type 0
  IsNonNegative a = fl.le (whole 0) a ≡ true

-- The comparisons are those of a total order: IEEE 754 says so of all values but NaN.
pub record IsOrdered {F : Type 0} (fl : Float F) : Type 0 where
  pub le_trans : (a b c : F) → fl.le a b ≡ true → fl.le b c ≡ true → fl.le a c ≡ true
  pub lt-eq-not-le : (a b : F) → fl.lt a b ≡ not (fl.le b a)
  pub le_total : (a b : F) → fl.le a b ≡ false → fl.le b a ≡ true

module _ {F : Type 0} ⦃fl : Float F⦄ (o : IsOrdered fl) where
  pub le_refl : (a : F) → fl.le a a ≡ true
  le_refl a = ground (arith, o.le_total a a)

  pub le_of_lt : (a b : F) → fl.lt a b ≡ true → fl.le a b ≡ true
  le_of_lt a b h = ground (arith, o.lt-eq-not-le a b, o.le_total b a)

  pub le_of_not_lt : (a b : F) → fl.lt a b ≡ false → fl.le b a ≡ true
  le_of_not_lt a b h = ground (arith, o.lt-eq-not-le a b)

  pub le-fmax_left : (a b : F) → fl.le a (fmax a b) ≡ true
  le-fmax_left a b = ground (arith, le_refl a, le_of_lt a b)

  pub le-fmax_right : (a b : F) → fl.le b (fmax a b) ≡ true
  le-fmax_right a b = ground (arith, le_refl b, le_of_not_lt a b)

  pub fmin-le_left : (a b : F) → fl.le (fmin a b) a ≡ true
  fmin-le_left a b = ground (arith, le_refl a, le_of_lt b a)

  pub fmin-le_right : (a b : F) → fl.le (fmin a b) b ≡ true
  fmin-le_right a b = ground (arith, le_refl b, le_of_not_lt b a)

-- The laws of an arithmetic that does not round, as far as the accounting uses them.
pub record IsUnrounded {F : Type 0} (fl : Float F) : Type 0 where
  pub add_assoc : (a b c : F) → fl.add (fl.add a b) c ≡ fl.add a (fl.add b c)
  pub add-zero : (a : F) → fl.add a (fl.decimal 0 1) ≡ a
  pub sub_self : (a : F) → fl.sub a a ≡ fl.decimal 0 1
  pub sub-add : (a b c : F) → fl.sub a (fl.add b c) ≡ fl.sub (fl.sub a c) b
  pub add-sub : (a b : F) → fl.sub (fl.add a b) a ≡ b
  pub sub_then_add : (a b c : F) → fl.add (fl.sub a b) c ≡ fl.add a (fl.sub c b)
  pub mul-sub : (a b q : F) → fl.mul (fl.sub a b) q ≡ fl.sub (fl.mul a q) (fl.mul b q)

-- What rounding keeps of signs: the results of operations on numbers that are not negative are not negative, and a
-- positive literal is a positive number.
pub record IsSigned {F : Type 0} (fl : Float F) : Type 0 where
  pub literal_pos : (n d : ℕ) → 0 < n → 0 < d → fl.lt (fl.decimal 0 1) (fl.decimal n d) ≡ true
  pub add_nonneg :
      (a b : F)
      → fl.le (fl.decimal 0 1) a ≡ true
      → fl.le (fl.decimal 0 1) b ≡ true
      → fl.le (fl.decimal 0 1) (fl.add a b) ≡ true
  pub mul_nonneg :
      (a b : F)
      → fl.le (fl.decimal 0 1) a ≡ true
      → fl.le (fl.decimal 0 1) b ≡ true
      → fl.le (fl.decimal 0 1) (fl.mul a b) ≡ true
  pub div_nonneg :
      (a b : F)
      → fl.le (fl.decimal 0 1) a ≡ true
      → fl.lt (fl.decimal 0 1) b ≡ true
      → fl.le (fl.decimal 0 1) (fl.div a b) ≡ true
  pub round_nonneg :
      (a : F) (n : ℕ)
      → fl.le (fl.decimal 0 1) a ≡ true
      → fl.le (fl.decimal 0 1) (fl.round a n) ≡ true
