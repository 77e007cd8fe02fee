-- ===== src/Base/Split.antt =====
-- `Split` and `Join` of package `strings`, with a separator of one byte.
use Prim.Native.Nat.{ℕ}
use mathlib.Core.Path.{◌≡◌, refl, ap, ◌∙◌}
use mathlib.Core.Bool.{Bool, false}
use mathlib.Core.List.{List, [], ◌∷◌, ◌++◌}
use native.Mathlib.Omega.{arith}
use mathlib.Core.Logic.{inl, inr}
use foto.Base.Tests.{◌==◌, if◌then◌else◌, Bool-cases}
use foto.Base.Lists.{any, All}
use foto.Base.Strings.{Bytes}

module _ (sep : ℕ) where
  -- Texts with the separator between them.
  abbrev pub join : List Bytes → Bytes
  join [] = []
  join (s ∷ []) = s
  join (s ∷ t ∷ texts) = s ++ sep ∷ join (t ∷ texts)

  -- A byte in front of the first text.
  abbrev pub cons_first : ℕ → List Bytes → List Bytes
  cons_first c [] = (c ∷ []) ∷ []
  cons_first c (t ∷ texts) = (c ∷ t) ∷ texts

  unfoldable pub split : Bytes → List Bytes
  split [] = [] ∷ []
  split (c ∷ s) = let rest = split s in if c == sep then [] ∷ rest else cons_first c rest

  -- The separator is in the text.
  abbrev pub has_sep : Bytes → Bool
  has_sep = any (λ c. c == sep)

  pub split-append : (s t : Bytes) → has_sep s ≡ false → split (s ++ sep ∷ t) ≡ s ∷ split t
  unfolding split
  split-append [] t h = ground arith
  split-append (c ∷ s) t h = ground (arith, split-append s t)

  pub split-alone : (s : Bytes) → has_sep s ≡ false → split s ≡ s ∷ []
  unfolding split
  split-alone [] h = refl
  split-alone (c ∷ s) h = ground (arith, split-alone s)

  pub split-join :
      (s : Bytes) (texts : List Bytes)
      → All (λ t. has_sep t ≡ false) (s ∷ texts)
      → split (join (s ∷ texts)) ≡ s ∷ texts
  split-join s [] (h, _) = split-alone s h
  split-join s (t ∷ texts) (h, k) =
      split-append s (join (t ∷ texts)) h ∙ ap (λ l. s ∷ l) (split-join t texts k)

  cons_first-All :
      (c : ℕ) (texts : List Bytes)
      → (c == sep) ≡ false
      → All (λ t. has_sep t ≡ false) texts
      → All (λ t. has_sep t ≡ false) (cons_first c texts)
  cons_first-All c [] e _ = (rw e refl, tt)
  cons_first-All c (t ∷ texts) e (h, k) = (rw (e, h) refl, k)

  -- No part has the separator in it.
  pub split-All : (s : Bytes) → All (λ t. has_sep t ≡ false) (split s)
  unfolding split
  split-All [] = (refl, tt)
  split-All (c ∷ s) = elim (Bool-cases (c == sep)) [
    | inl e ↦ rw e (refl, split-All s)
    | inr e ↦ rw e (cons_first-All c (split s) e (split-All s))
  ]
