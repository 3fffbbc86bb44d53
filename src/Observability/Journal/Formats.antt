-- ===== src/Observability/Journal/Formats.antt =====
-- The texts of the trade ids: what is before and after their dashes.
use text.Mathlib.TextLemmas.{append_assoc, append_cancel_left}
use Prim.Native.String.{◌++◌}
use bot_crypto.Prelude.{
  ℕ, String, ◌≡◌, sym, ap, ◌∙◌, true, false, inl, inr, arith, ◌==◌, Bool-cases,
}
use bot_crypto.Prelude.Decimal.{
  decimal, decimal-injective, lacks_dash, lacks_dash-decimal, without_slash,
  lacks_dash-without_slash, split_dash, has_dash,
}
use bot_crypto.Observability.Journal.{base_id, trade_id_of}

trade_id_of-first : (s : String) (n : ℕ) → (n == 1) ≡ true → trade_id_of s n ≡ s
unfolding trade_id_of
trade_id_of-first s n h = ground (arith, h)

trade_id_of-later :
    (s : String) (n : ℕ) → (n == 1) ≡ false → trade_id_of s n ≡ s ++ ("-" ++ decimal n)
unfolding trade_id_of
trade_id_of-later s n h = ground (arith, h)

base-apart :
    (s t : String) (n : ℕ) → lacks_dash s ≡ true → (n == 1) ≡ false → s ≡ trade_id_of t n → ⊥
base-apart s t n h k e =
    let q = ap lacks_dash (e ∙ trade_id_of-later t n k) in
    ground (arith, h, q, has_dash t (decimal n))

-- Texts without a dash are told apart from their numbered forms, as are the numbers.
trade_id_of-injective :
    (s t : String) (m n : ℕ)
    → lacks_dash s ≡ true
    → lacks_dash t ≡ true
    → trade_id_of s m ≡ trade_id_of t n
    → (s ≡ t) × (m ≡ n)
trade_id_of-injective s t m n h k e = elim (Bool-cases (m == 1)) [
  | inl p ↦ elim (Bool-cases (n == 1)) [
    | inl q ↦ (sym (trade_id_of-first s m p) ∙ e ∙ trade_id_of-first t n q, ground (arith, p, q))
    | inr q ↦ elim (base-apart s t n h q (sym (trade_id_of-first s m p) ∙ e)) [ ]
  ]
  | inr p ↦ elim (Bool-cases (n == 1)) [
    | inl q ↦ elim (base-apart t s m k p (sym (e ∙ trade_id_of-first t n q))) [ ]
    | inr q ↦
        let r =
          split_dash s t (decimal m) (decimal n) h k
            (sym (trade_id_of-later s m p) ∙ e ∙ trade_id_of-later t n q) in
        (r.0, decimal-injective m n r.1)
  ]
]

-- `f"{prefix}{ms}-{s}"`, numbered: all of it after the prefix and the number is read back.
trade_id_of-append :
    (prefix s : String) (k n : ℕ)
    → trade_id_of (prefix ++ (decimal k ++ ("-" ++ s))) n
      ≡ prefix ++ (decimal k ++ ("-" ++ trade_id_of s n))
unfolding trade_id_of
trade_id_of-append prefix s k n = elim (Bool-cases (n == 1)) [
  | inl p ↦ ground (arith, p)
  | inr p ↦
      let tail = "-" ++ decimal n in
      let e : (prefix ++ (decimal k ++ ("-" ++ s))) ++ tail
          ≡ prefix ++ (decimal k ++ ("-" ++ (s ++ tail))) =
        append_assoc prefix (decimal k ++ ("-" ++ s)) tail
        ∙ ap (◌++◌ prefix) (
            append_assoc (decimal k) ("-" ++ s) tail
            ∙ ap (◌++◌ (decimal k)) (append_assoc "-" s tail)) in
      ground (arith, p, e)
]

-- Trades on symbols without a dash have ids that tell their bases and their numbers apart.
pub trade_id_of-base_id :
    (ms ms' : ℕ) (s s' : String) (m n : ℕ)
    → lacks_dash s ≡ true
    → lacks_dash s' ≡ true
    → trade_id_of (base_id ms s) m ≡ trade_id_of (base_id ms' s') n
    → (base_id ms s ≡ base_id ms' s') × (m ≡ n)
unfolding base_id
trade_id_of-base_id ms ms' s s' m n h k e =
    let a = without_slash s in
    let b = without_slash s' in
    let q = sym (trade_id_of-append "T-" a ms m) ∙ e ∙ trade_id_of-append "T-" b ms' n in
    let (d, r) =
      split_dash (decimal ms) (decimal ms') (trade_id_of a m) (trade_id_of b n)
        (lacks_dash-decimal ms) (lacks_dash-decimal ms') (append_cancel_left "T-" _ _ q) in
    let (w, number) =
      trade_id_of-injective a b m n (lacks_dash-without_slash s h) (lacks_dash-without_slash s' k)
        r in
    (cc (d, w), number)
