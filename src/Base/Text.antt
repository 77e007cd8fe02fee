-- ===== src/Base/Text.antt =====
-- `TrimSpace`, `ToLower` and `TrimSuffix` of package `strings`, on the bytes of a text.
use foto.Base.Tests.{leb, ◌==◌, if◌then◌else◌, Option-cases}
use mathlib.Core.Path.{◌≡◌, refl, ap, ◌∙◌}
use mathlib.Core.Logic.{inl, inr}
use native.Mathlib.Omega.{arith}
use foto.Base.Lists.{length, all, any, any-reverse}
use foto.Base.Strings.{Bytes}
use Prim.Native.Nat.{ℕ, zero, suc, ◌+◌}
use mathlib.Core.Bool.{Bool, false, not, ◌&&◌, ◌||◌}
use mathlib.Core.Option.{Option, none, some}
use mathlib.Core.List.{[], ◌∷◌, reverse, map, reverse-reverse}

is_ascii_space : ℕ → Bool
is_ascii_space c = (leb 9 c && leb c 13) || c == 32

-- The white space of Unicode above ASCII, in UTF-8: U+0085, U+00A0, and those of three bytes.
is_space2 : ℕ → ℕ → Bool
is_space2 a b = a == 0xC2 && (b == 0x85 || b == 0xA0)

is_space3 : ℕ → ℕ → ℕ → Bool
is_space3 a b c =
    (a == 0xE1 && (b == 0x9A && c == 0x80))
    || ((a == 0xE2
          && ((b == 0x80 && ((leb 0x80 c && leb c 0x8A) || (c == 0xA8 || (c == 0xA9 || c == 0xAF))))
              || (b == 0x81 && c == 0x9F)))
        || (a == 0xE3 && (b == 0x80 && c == 0x80)))

-- The rest of a text behind one leading space, if it has one.
strip_left : Bytes → Option Bytes
unfolding is_ascii_space is_space2 is_space3
strip_left [] = none
strip_left (a ∷ []) = if is_ascii_space a then some [] else none
strip_left (a ∷ b ∷ []) =
    if is_ascii_space a then some (b ∷ []) else if is_space2 a b then some [] else none
strip_left (a ∷ b ∷ c ∷ s) =
    if is_ascii_space a
    then some (b ∷ c ∷ s)
    else if is_space2 a b
    then some (c ∷ s)
    else if is_space3 a b c
    then some s
    else none

-- The same at the end of a text that is given backwards.
strip_right : Bytes → Option Bytes
unfolding is_ascii_space is_space2 is_space3
strip_right [] = none
strip_right (a ∷ []) = if is_ascii_space a then some [] else none
strip_right (b ∷ a ∷ []) =
    if is_ascii_space b then some (a ∷ []) else if is_space2 a b then some [] else none
strip_right (c ∷ b ∷ a ∷ s) =
    if is_ascii_space c
    then some (b ∷ a ∷ s)
    else if is_space2 b c
    then some (a ∷ s)
    else if is_space3 a b c
    then some s
    else none

-- On fuel: a round shortens the text, so its length is enough.
strip_all : (Bytes → Option Bytes) → ℕ → Bytes → Bytes
strip_all strip zero s = s
strip_all strip (suc fuel) s = elim (strip s) [ none ↦ s | some t ↦ strip_all strip fuel t ]

unfoldable pub trim_space : Bytes → Bytes
unfolding strip_all strip_left strip_right
trim_space s =
    let t = strip_all strip_left (length s) s in
    reverse (strip_all strip_right (length t) (reverse t))

abbrev lower_byte : ℕ → ℕ
lower_byte c = if leb b'A' c && leb c b'Z' then c + 32 else c

-- `ToLower`: byte by byte on ASCII; on other texts it follows the tables of package `unicode`, the
-- first argument.
unfoldable pub to_lower : (Bytes → Bytes) → Bytes → Bytes
to_lower unicode_lower s = if all (λ c. leb c 127) s then map lower_byte s else unicode_lower s

-- `TrimSuffix` with a suffix of one byte.
unfoldable pub trim_suffix : ℕ → Bytes → Bytes
trim_suffix c [] = []
trim_suffix c (a ∷ []) = if a == c then [] else a ∷ []
trim_suffix c (a ∷ b ∷ s) = a ∷ trim_suffix c (b ∷ s)

-- A round of trimming leaves out bytes and brings none in.
IsStrip : (Bytes → Option Bytes) → Type 0
IsStrip strip = (p : ℕ → Bool) (s t : Bytes) → any p s ≡ false → strip s ≡ some t → any p t ≡ false

strip_left-IsStrip : IsStrip strip_left
unfolding IsStrip strip_left
strip_left-IsStrip p [] t h e = absurd (cc e)
strip_left-IsStrip p (a ∷ []) t h e = ground arith
strip_left-IsStrip p (a ∷ b ∷ []) t h e = ground arith
strip_left-IsStrip p (a ∷ b ∷ c ∷ s) t h e = ground arith

strip_right-IsStrip : IsStrip strip_right
unfolding IsStrip strip_right
strip_right-IsStrip p [] t h e = absurd (cc e)
strip_right-IsStrip p (a ∷ []) t h e = ground arith
strip_right-IsStrip p (a ∷ b ∷ []) t h e = ground arith
strip_right-IsStrip p (a ∷ b ∷ c ∷ s) t h e = ground arith

strip_all-any :
    (strip : Bytes → Option Bytes) (good : IsStrip strip) (p : ℕ → Bool) (fuel : ℕ) (s : Bytes)
    → any p s ≡ false
    → any p (strip_all strip fuel s) ≡ false
unfolding strip_all IsStrip
strip_all-any strip good p zero s h = h
strip_all-any strip good p (suc fuel) s h = elim (Option-cases (strip s)) [
  | inl e ↦ rw (strip_all, e) h
  | inr (t, e) ↦ rw (strip_all, e) (strip_all-any strip good p fuel t (good p s t h e))
]

-- Trimming brings no byte in.
pub trim_space-any : (p : ℕ → Bool) (s : Bytes) → any p s ≡ false → any p (trim_space s) ≡ false
unfolding trim_space
trim_space-any p s h =
    let t = strip_all strip_left (length s) s in
    any-reverse p _ (
      strip_all-any strip_right strip_right-IsStrip p (length t) (reverse t)
        (any-reverse p t (strip_all-any strip_left strip_left-IsStrip p (length s) s h)))

-- No letter, digit or sign of ASCII.
abbrev pub is_blank : ℕ → Bool
is_blank c = not (leb 33 c && leb c 126)

strip_left-none : (s : Bytes) → any is_blank s ≡ false → strip_left s ≡ none
unfolding strip_left
strip_left-none [] h = refl
strip_left-none (a ∷ []) h = ground arith
strip_left-none (a ∷ b ∷ []) h = ground arith
strip_left-none (a ∷ b ∷ c ∷ s) h = ground arith

strip_right-none : (s : Bytes) → any is_blank s ≡ false → strip_right s ≡ none
unfolding strip_right
strip_right-none [] h = refl
strip_right-none (a ∷ []) h = ground arith
strip_right-none (b ∷ a ∷ []) h = ground arith
strip_right-none (c ∷ b ∷ a ∷ s) h = ground arith

strip_all-none :
    (strip : Bytes → Option Bytes) (fuel : ℕ) (s : Bytes)
    → strip s ≡ none
    → strip_all strip fuel s ≡ s
unfolding strip_all
strip_all-none strip zero s h = refl
strip_all-none strip (suc fuel) s h = rw (strip_all, h) refl

-- A text without white space and without a byte above ASCII is not trimmed.
pub trim_space-eq_self : (s : Bytes) → any is_blank s ≡ false → trim_space s ≡ s
unfolding trim_space
trim_space-eq_self s h =
    let left = strip_all-none strip_left (length s) s (strip_left-none s h) in
    ap (λ t. reverse (strip_all strip_right (length t) (reverse t))) left
    ∙ (ap reverse (
          strip_all-none strip_right (length s) (reverse s)
            (strip_right-none (reverse s) (any-reverse is_blank s h)))
        ∙ reverse-reverse s)
