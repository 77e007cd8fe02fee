-- ===== src/Base/Decimal.antt =====
-- `%d` of package `fmt`: a number in decimal.
use foto.Base.Int.{ℤ, pos, negsuc}
use Prim.Native.Nat.{ℕ, zero, suc, ◌+◌, ◌-◌, ◌*◌, ◌/◌, ◌%◌, ◌<◌}
use mathlib.Core.Path.{◌≡◌, refl, ◌∙◌, sym, ap}
use mathlib.Core.Bool.{Bool, true}
use native.Mathlib.Decide.{dec_lt}
use foto.Base.Lists.{all}
use mathlib.Core.List.{[], ◌∷◌, foldl}
use native.Mathlib.Omega.{arith}
use mathlib.Core.Logic.{inl, inr}
use foto.Base.Tests.{ltb, if◌then◌else◌, Bool-cases}
use foto.Base.Strings.{Bytes}

-- The digits of `n` in front of `out`, on fuel.
digits : ℕ → ℕ → Bytes → Bytes
digits zero n out = out
digits (suc fuel) n out =
    let rest = digits fuel (n / 10) ((b'0' + n % 10) ∷ out) in
    if ltb n 10 then (b'0' + n) ∷ out else rest

unfoldable pub decimal : ℕ → Bytes
unfolding digits
decimal n = digits (suc n) n []

unfoldable pub decimal_ℤ : ℤ → Bytes
unfolding decimal
decimal_ℤ (pos n) = decimal n
decimal_ℤ (negsuc n) = b'-' ∷ decimal (suc n)

-- The number that digits spell behind `n`.
abbrev pub value : ℕ → Bytes → ℕ
value = foldl (λ n c. n * 10 + (c - b'0'))

value-digits : (fuel n : ℕ) (out : Bytes) → n < fuel → value 0 (digits fuel n out) ≡ value n out
unfolding digits
value-digits zero n out h = absurd (omega arith)
value-digits (suc fuel) n out h =
    let last : n / 10 * 10 + (b'0' + n % 10 - b'0') ≡ n = omega arith in
    let one : 0 * 10 + (b'0' + n - b'0') ≡ n = omega arith in
    ground (arith, last, one, value-digits fuel (n / 10) ((b'0' + n % 10) ∷ out))

pub value-decimal : (n : ℕ) → value 0 (decimal n) ≡ n
unfolding decimal
value-decimal n = value-digits (suc n) n [] (omega arith)

-- Different numbers print differently.
pub decimal-injective : (m n : ℕ) → decimal m ≡ decimal n → m ≡ n
decimal-injective m n e = sym (value-decimal m) ∙ (ap (value 0) e ∙ value-decimal n)

digits-all :
    (p : ℕ → Bool)
    → ((d : ℕ) → d < 10 → p (b'0' + d) ≡ true)
    → (fuel n : ℕ) (out : Bytes) → all p out ≡ true
    → all p (digits fuel n out) ≡ true
unfolding digits
digits-all p good zero n out h = h
digits-all p good (suc fuel) n out h =
    let one = good (n % 10) (omega arith) in
    elim (dec_lt n 10) [
      | yes small ↦ let whole = good n small in ground arith
      | no large ↦
          let rest = digits-all p good fuel (n / 10) ((b'0' + n % 10) ∷ out) (rw (one, h) refl) in
          ground arith
    ]

-- A test that the digits and the sign pass, the whole text passes.
pub decimal_ℤ-all :
    (p : ℕ → Bool)
    → ((d : ℕ) → d < 10 → p (b'0' + d) ≡ true)
    → p b'-' ≡ true
    → (n : ℤ) → all p (decimal_ℤ n) ≡ true
unfolding decimal decimal_ℤ
decimal_ℤ-all p good sign (pos n) = digits-all p good (suc n) n [] refl
decimal_ℤ-all p good sign (negsuc n) = rw sign (digits-all p good (suc (suc n)) (suc n) [] refl)

digits-cons :
    (fuel n c : ℕ) (out : Bytes) → (d : ℕ) × (rest : Bytes) × (digits fuel n (c ∷ out) ≡ d ∷ rest)
unfolding digits
digits-cons zero n c out = (c, out, refl)
digits-cons (suc fuel) n c out = elim (Bool-cases (ltb n 10)) [
  | inl small ↦ (b'0' + n, c ∷ out, rw small refl)
  | inr large ↦ rw large (digits-cons fuel (n / 10) (b'0' + n % 10) (c ∷ out))
]

-- A number is printed as one digit or more.
pub decimal-digits :
    (p : ℕ → Bool) (n : ℕ)
    → ((d : ℕ) → d < 10 → p (b'0' + d) ≡ true)
    → (d : ℕ) × (rest : Bytes) × (decimal n ≡ d ∷ rest) × (all p (d ∷ rest) ≡ true)
unfolding decimal digits
decimal-digits p n good =
    let whole = digits-all p good (suc n) n [] refl in
    elim (Bool-cases (ltb n 10)) [
      | inl small ↦ (b'0' + n, [], rw small refl, rw small at whole)
      | inr large ↦
          let (d, rest, e) = digits-cons n (n / 10) (b'0' + n % 10) [] in
          (d, rest, rw large e, ap (all p) (sym e) ∙ rw large at whole)
    ]
