-- ===== src/Base/Atoi.antt =====
-- `Atoi` of package `strconv`, for an `int` of 64 bits.
use foto.Base.Int.{ℤ, pos, negsuc, pos_part, neg_part}
use foto.Base.Decimal.{decimal, decimal_ℤ, value, value-decimal, decimal-digits}
use Prim.Native.Nat.{ℕ, zero, suc, ◌+◌, ◌^◌, ◌≤◌, ◌<◌}
use mathlib.Core.Path.{◌≡◌, refl, ap, ◌∙◌, sym, subst}
use mathlib.Core.Logic.{inl, inr}
use mathlib.Core.Bool.{Bool, true, false, ◌&&◌}
use mathlib.Core.Option.{Option, none, some}
use mathlib.Core.List.{[], ◌∷◌}
use native.Mathlib.Omega.{arith}
use foto.Base.Lists.{all}
use foto.Base.Tests.{◌==◌, leb, ltb, if◌then◌else◌, Bool-cases, ltb→lt, lt→ltb, and_split}
use foto.Base.Strings.{Bytes}

abbrev pub is_digit : ℕ → Bool
is_digit c = leb b'0' c && leb c b'9'

-- The number that a text of digits spells.
unfoldable pub magnitude : Bytes → Option ℕ
magnitude [] = none
magnitude (c ∷ s) = if all is_digit (c ∷ s) then some (value 0 (c ∷ s)) else none

-- A number with its sign, if an int64 holds it.
abbrev pub positive : ℕ → Option ℤ
positive n = if ltb n (2 ^ 63) then some (pos n) else none

abbrev pub negative : ℕ → Option ℤ
negative zero = some (pos 0)
negative (suc n) = if ltb n (2 ^ 63) then some (negsuc n) else none

some-injective : {a b : ℤ} → some a ≡ some b → a ≡ b
some-injective h = cc

abbrev pub signed : (ℕ → Option ℤ) → Option ℕ → Option ℤ
signed sign none = none
signed sign (some n) = sign n

unfoldable pub atoi : Bytes → Option ℤ
unfolding magnitude
atoi [] = none
atoi (c ∷ s) =
    if c == b'-'
    then signed negative (magnitude s)
    else if c == b'+'
    then signed positive (magnitude s)
    else signed positive (magnitude (c ∷ s))

-- What an int64 holds.
abbrev pub IsInt64 : ℤ → Type 0
IsInt64 n = (pos_part n < 2 ^ 63) × (neg_part n ≤ 2 ^ 63)

is_digit-digit : (d : ℕ) → d < 10 → is_digit (b'0' + d) ≡ true
is_digit-digit d h = ground arith

positive-IsInt64 : (n : ℕ) (z : ℤ) → positive n ≡ some z → IsInt64 z
positive-IsInt64 n z h = elim (Bool-cases (ltb n (2 ^ 63))) [
  | inl e ↦ subst IsInt64 (some-injective (rw e at h)) (ltb→lt n (2 ^ 63) e, omega arith)
  | inr e ↦ absurd (cc (rw e at h))
]

negative-IsInt64 : (n : ℕ) (z : ℤ) → negative n ≡ some z → IsInt64 z
negative-IsInt64 zero z h = subst IsInt64 (some-injective h) (omega arith, omega arith)
negative-IsInt64 (suc n) z h = elim (Bool-cases (ltb n (2 ^ 63))) [
  | inl e ↦
      let below = ltb→lt n (2 ^ 63) e in
      subst IsInt64 (some-injective (rw e at h)) (omega arith, omega arith)
  | inr e ↦ absurd (cc (rw e at h))
]

signed-IsInt64 :
    (sign : ℕ → Option ℤ) (o : Option ℕ) (z : ℤ)
    → ((n : ℕ) (y : ℤ) → sign n ≡ some y → IsInt64 y)
    → signed sign o ≡ some z
    → IsInt64 z
signed-IsInt64 sign none z good h = cc
signed-IsInt64 sign (some n) z good h = good n z h

-- What is read fits an int64.
pub atoi-IsInt64 : (s : Bytes) (z : ℤ) → atoi s ≡ some z → IsInt64 z
unfolding atoi
atoi-IsInt64 [] z h = absurd (cc h)
atoi-IsInt64 (c ∷ s) z h = elim (Bool-cases (c == b'-')) [
  | inl m ↦ signed-IsInt64 negative (magnitude s) z negative-IsInt64 (rw m at h)
  | inr m ↦ elim (Bool-cases (c == b'+')) [
    | inl p ↦ signed-IsInt64 positive (magnitude s) z positive-IsInt64 (rw (m, p) at h)
    | inr p ↦ signed-IsInt64 positive (magnitude (c ∷ s)) z positive-IsInt64 (rw (m, p) at h)
  ]
]

magnitude-decimal : (n : ℕ) → magnitude (decimal n) ≡ some n
unfolding magnitude
magnitude-decimal n =
    let (d, rest, e, h) = decimal-digits is_digit n is_digit-digit in
    ap magnitude e ∙ (rw h (ap (λ s. some (value 0 s)) (sym e)) ∙ ap some (value-decimal n))

atoi-unsigned :
    (d : ℕ) (rest : Bytes)
    → all is_digit (d ∷ rest) ≡ true
    → atoi (d ∷ rest) ≡ signed positive (magnitude (d ∷ rest))
unfolding atoi
atoi-unsigned d rest h =
    let (digit, _) = and_split (is_digit d) (all is_digit rest) h in
    let m : (d == b'-') ≡ false = ground arith in
    let p : (d == b'+') ≡ false = ground arith in rw (m, p) refl

atoi-decimal : (n : ℕ) → atoi (decimal n) ≡ positive n
atoi-decimal n =
    let (d, rest, e, h) = decimal-digits is_digit n is_digit-digit in
    ap atoi e
    ∙ (atoi-unsigned d rest h
        ∙ (ap (λ s. signed positive (magnitude s)) (sym e)
            ∙ ap (signed positive) (magnitude-decimal n)))

atoi-minus : (s : Bytes) → atoi (b'-' ∷ s) ≡ signed negative (magnitude s)
unfolding atoi
atoi-minus s = refl

-- What `%d` prints of an int64 is read back.
pub atoi-decimal_ℤ : (n : ℤ) → IsInt64 n → atoi (decimal_ℤ n) ≡ some n
unfolding decimal_ℤ
atoi-decimal_ℤ (pos n) (lo, hi) = atoi-decimal n ∙ rw (lt→ltb n (2 ^ 63) lo) refl
atoi-decimal_ℤ (negsuc n) (lo, hi) =
    atoi-minus (decimal (suc n))
    ∙ (ap (signed negative) (magnitude-decimal (suc n)) ∙ rw (lt→ltb n (2 ^ 63) (omega arith)) refl)
