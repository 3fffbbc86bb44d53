-- ===== src/Prelude/Decimal.antt =====
-- Texts that Python's formatting makes: decimal numbers, and pieces joined by a dash.
use Prim.Native.Char.{Char, code}
use Prim.Native.String.{String, ◌++◌}
use Prim.Native.String.append
use Prim.Native.Nat.{ℕ, zero, suc, ◌+◌, ◌*◌, ◌-◌, ◌/◌, ◌%◌, ◌<◌}
use mathlib.Core.Path.{◌≡◌, refl, sym, ap, ◌∙◌}
use mathlib.Core.Bool.{Bool, true, false, not, ◌&&◌}
use native.Mathlib.Omega.{arith}
use text.Mathlib.TextLemmas.{append_cancel_left, head-eq_of_cons-eq, tail-eq_of_cons-eq}
use bot_crypto.Prelude.Tests.{ltb, ◌==◌, if◌then◌else◌}

unfoldable pub digit : ℕ → String
digit zero = "0"
digit (suc zero) = "1"
digit (suc (suc zero)) = "2"
digit (suc (suc (suc zero))) = "3"
digit (suc (suc (suc (suc zero)))) = "4"
digit (suc (suc (suc (suc (suc zero))))) = "5"
digit (suc (suc (suc (suc (suc (suc zero)))))) = "6"
digit (suc (suc (suc (suc (suc (suc (suc zero))))))) = "7"
digit (suc (suc (suc (suc (suc (suc (suc (suc zero)))))))) = "8"
digit _ = "9"

-- Enough fuel is the number with one more.
unfoldable pub decimal_with : ℕ → ℕ → String
decimal_with zero n = ""
decimal_with (suc fuel) n =
    let rest = decimal_with fuel (n / 10) in if ltb n 10 then digit n else rest ++ digit (n % 10)

-- `str(n)`
unfoldable pub decimal : ℕ → String
decimal n = decimal_with (suc n) n

-- The number that a text of digits goes on from `n`.
read_from : ℕ → String → ℕ
read_from n String.[] = n
read_from n (String.◌∷◌ c s) = read_from (10 * n + (code c - 48)) s

-- No dash occurs in the text.
unfoldable pub lacks_dash : String → Bool
lacks_dash String.[] = true
lacks_dash (String.◌∷◌ c s) = not (code c == b'-') && lacks_dash s

-- `s.replace("/", "")`
unfoldable pub without_slash : String → String
without_slash String.[] = ""
without_slash (String.◌∷◌ c s) =
    let rest = without_slash s in if code c == b'/' then rest else String.◌∷◌ c rest

read_from-append : (n : ℕ) (s t : String) → read_from n (s ++ t) ≡ read_from (read_from n s) t
unfolding read_from
read_from-append n String.[] t = ap (read_from n) (append.nil t)
read_from-append n (String.◌∷◌ c s) t =
    ap (read_from n) (append.cons c s t) ∙ read_from-append (10 * n + (code c - 48)) s t

read_from-digit : (n d : ℕ) → d < 10 → read_from n (digit d) ≡ 10 * n + d
unfolding read_from digit
read_from-digit n zero h = omega arith
read_from-digit n (suc zero) h = omega arith
read_from-digit n (suc (suc zero)) h = omega arith
read_from-digit n (suc (suc (suc zero))) h = omega arith
read_from-digit n (suc (suc (suc (suc zero)))) h = omega arith
read_from-digit n (suc (suc (suc (suc (suc zero))))) h = omega arith
read_from-digit n (suc (suc (suc (suc (suc (suc zero)))))) h = omega arith
read_from-digit n (suc (suc (suc (suc (suc (suc (suc zero))))))) h = omega arith
read_from-digit n (suc (suc (suc (suc (suc (suc (suc (suc zero)))))))) h = omega arith
read_from-digit n (suc (suc (suc (suc (suc (suc (suc (suc (suc zero))))))))) h = omega arith
read_from-digit n (suc (suc (suc (suc (suc (suc (suc (suc (suc (suc d)))))))))) h = ground arith

read_from-decimal_with : (fuel n : ℕ) → n < fuel → read_from 0 (decimal_with fuel n) ≡ n
unfolding decimal_with
read_from-decimal_with zero n h = ground arith
read_from-decimal_with (suc fuel) n h = ground (
  arith,
  read_from-digit 0 n,
  read_from-append 0 (decimal_with fuel (n / 10)) (digit (n % 10)),
  read_from-digit (read_from 0 (decimal_with fuel (n / 10))) (n % 10),
  read_from-decimal_with fuel (n / 10),
)

pub decimal-injective : (m n : ℕ) → decimal m ≡ decimal n → m ≡ n
unfolding decimal
decimal-injective m n e =
    sym (read_from-decimal_with (suc m) m (omega arith))
    ∙ ap (read_from 0) e
    ∙ read_from-decimal_with (suc n) n (omega arith)

if-lacks_dash :
    (b : Bool) (c : Char) (s : String)
    → lacks_dash s ≡ true
    → (b ≡ false → (code c == b'-') ≡ false)
    → lacks_dash (if b then s else String.◌∷◌ c s) ≡ true
unfolding lacks_dash
if-lacks_dash true c s h k = h
if-lacks_dash false c s h k = ground (arith, h, k refl)

pub lacks_dash-without_slash :
    (s : String) → lacks_dash s ≡ true → lacks_dash (without_slash s) ≡ true
unfolding lacks_dash without_slash
lacks_dash-without_slash String.[] h = refl
lacks_dash-without_slash (String.◌∷◌ c s) h =
    if-lacks_dash (code c == b'/') c (without_slash s)
      (lacks_dash-without_slash s (ground (arith, h))) (λ e. ground (arith, h))

lacks_dash-append :
    (s t : String) → lacks_dash s ≡ true → lacks_dash t ≡ true → lacks_dash (s ++ t) ≡ true
unfolding lacks_dash
lacks_dash-append String.[] t h k = ap lacks_dash (append.nil t) ∙ k
lacks_dash-append (String.◌∷◌ c s) t h k =
    ap lacks_dash (append.cons c s t)
    ∙ ground (arith, h, lacks_dash-append s t (ground (arith, h)) k)

lacks_dash-digit : (n : ℕ) → lacks_dash (digit n) ≡ true
unfolding lacks_dash digit
lacks_dash-digit zero = refl
lacks_dash-digit (suc zero) = refl
lacks_dash-digit (suc (suc zero)) = refl
lacks_dash-digit (suc (suc (suc zero))) = refl
lacks_dash-digit (suc (suc (suc (suc zero)))) = refl
lacks_dash-digit (suc (suc (suc (suc (suc zero))))) = refl
lacks_dash-digit (suc (suc (suc (suc (suc (suc zero)))))) = refl
lacks_dash-digit (suc (suc (suc (suc (suc (suc (suc zero))))))) = refl
lacks_dash-digit (suc (suc (suc (suc (suc (suc (suc (suc zero)))))))) = refl
lacks_dash-digit (suc (suc (suc (suc (suc (suc (suc (suc (suc n))))))))) = refl

lacks_dash-decimal_with : (fuel n : ℕ) → lacks_dash (decimal_with fuel n) ≡ true
unfolding decimal_with lacks_dash
lacks_dash-decimal_with zero n = refl
lacks_dash-decimal_with (suc fuel) n = ground (
  arith,
  lacks_dash-digit n,
  lacks_dash-append (decimal_with fuel (n / 10)) (digit (n % 10))
      (lacks_dash-decimal_with fuel (n / 10)) (lacks_dash-digit (n % 10)),
)

pub lacks_dash-decimal : (n : ℕ) → lacks_dash (decimal n) ≡ true
unfolding decimal
lacks_dash-decimal n = lacks_dash-decimal_with (suc n) n

dash-append : (s : String) → "-" ++ s ≡ String.◌∷◌ "-" s
dash-append s = append.cons "-" "" s ∙ ap (λ t. String.◌∷◌ "-" t) (append.nil s)

-- What stands before and after the first dash.
pub split_dash :
    (a b s t : String)
    → lacks_dash a ≡ true
    → lacks_dash b ≡ true
    → a ++ ("-" ++ s) ≡ b ++ ("-" ++ t)
    → (a ≡ b) × (s ≡ t)
unfolding lacks_dash
split_dash String.[] String.[] s t h k e =
    (refl, append_cancel_left "-" s t (sym (append.nil ("-" ++ s)) ∙ e ∙ append.nil ("-" ++ t)))
split_dash String.[] (String.◌∷◌ d b) s t h k e =
    let q = sym (append.nil ("-" ++ s) ∙ dash-append s) ∙ e ∙ append.cons d b ("-" ++ t) in
    let c : "-" ≡ d = head-eq_of_cons-eq q in ground (arith, k, ap code c)
split_dash (String.◌∷◌ c a) String.[] s t h k e =
    let q = sym (append.cons c a ("-" ++ s)) ∙ e ∙ append.nil ("-" ++ t) ∙ dash-append t in
    let d : c ≡ "-" = head-eq_of_cons-eq q in ground (arith, h, ap code d)
split_dash (String.◌∷◌ c a) (String.◌∷◌ d b) s t h k e =
    let q = sym (append.cons c a ("-" ++ s)) ∙ e ∙ append.cons d b ("-" ++ t) in
    let r = split_dash a b s t (ground (arith, h)) (ground (arith, k)) (tail-eq_of_cons-eq q) in
    (cc (head-eq_of_cons-eq q, r.0), r.1)

pub has_dash : (a s : String) → lacks_dash (a ++ ("-" ++ s)) ≡ false
unfolding lacks_dash
has_dash String.[] s = ap lacks_dash (append.nil ("-" ++ s) ∙ dash-append s)
has_dash (String.◌∷◌ c a) s =
    ap lacks_dash (append.cons c a ("-" ++ s)) ∙ ground (arith, has_dash a s)
