-- ===== src/Config/Laws.antt =====
-- What the configuration holds.
use foto.Base.{
  ◌≡◌, refl, ap, ◌∙◌, inl, inr, false, ◌==◌, All-map, Bool-cases, some, Option-cases, List, [], ◌∷◌,
  Bytes, is_empty, All,
}
use foto.Base.Int.{ℤ}
use foto.Base.Decimal.{decimal_ℤ}
use foto.Base.Atoi.{atoi, IsInt64, atoi-IsInt64, atoi-decimal_ℤ}
use foto.Base.Split.{split, join, has_sep, split-join, split-All}
use foto.Base.Text.{trim_space, trim_space-any}
use foto.Config.{Environment, env_int, keep_hosts, split_hosts}

-- A number in decimal that an int64 holds is read as that number.
pub env_int-decimal_ℤ :
    (env : Environment) (key : Bytes) (fallback n : ℤ)
    → IsInt64 n
    → env key ≡ some (decimal_ℤ n)
    → env_int env key fallback ≡ n
unfolding env_int
env_int-decimal_ℤ env key fallback n fits e = rw (env_int, e, atoi-decimal_ℤ n fits) refl

-- Whatever the variable holds, the number fits an int64 if the default does.
pub env_int-IsInt64 :
    (env : Environment) (key : Bytes) (fallback : ℤ)
    → IsInt64 fallback
    → IsInt64 (env_int env key fallback)
unfolding env_int
env_int-IsInt64 env key fallback fits = elim (Option-cases (env key)) [
  | inl e ↦ rw (env_int, e) fits
  | inr (v, e) ↦ elim (Option-cases (atoi v)) [
    | inl b ↦ rw (env_int, e, b) fits
    | inr (n, b) ↦ rw (env_int, e, b) (atoi-IsInt64 v n b)
  ]
]

-- A host of the list: not empty, without a comma.
abbrev pub IsHost : Bytes → Type 0
IsHost host = (is_empty host ≡ false) × (has_sep b',' host ≡ false)

keep_hosts-IsHost :
    (texts : List Bytes) → All (λ t. has_sep b',' t ≡ false) texts → All IsHost (keep_hosts texts)
unfolding keep_hosts
keep_hosts-IsHost [] _ = tt
keep_hosts-IsHost (t ∷ texts) (h, k) = elim (Bool-cases (is_empty (trim_space t))) [
  | inl e ↦ rw e (keep_hosts-IsHost texts k)
  | inr e ↦ rw e ((e, trim_space-any (λ c. c == b',') t h), keep_hosts-IsHost texts k)
]

-- Every host of the list is a text without a comma, and none is empty.
pub split_hosts-IsHost : (v : Bytes) → All IsHost (split_hosts v)
unfolding split_hosts
split_hosts-IsHost v = keep_hosts-IsHost (split b',' v) (split-All b',' v)

-- A host as an operator writes it: nothing to trim, not empty, without a comma.
abbrev pub IsWritten : Bytes → Type 0
IsWritten host = (trim_space host ≡ host) × IsHost host

keep_hosts-IsWritten : (hosts : List Bytes) → All IsWritten hosts → keep_hosts hosts ≡ hosts
unfolding keep_hosts
keep_hosts-IsWritten [] _ = refl
keep_hosts-IsWritten (h ∷ hosts) ((t, (e, _)), k) =
    rw (t, e) (ap (λ l. h ∷ l) (keep_hosts-IsWritten hosts k))

-- Hosts written with commas between them are read back, in their order.
pub split_hosts-join :
    (host : Bytes) (hosts : List Bytes)
    → All IsWritten (host ∷ hosts)
    → split_hosts (join b',' (host ∷ hosts)) ≡ host ∷ hosts
unfolding split_hosts
split_hosts-join host hosts k =
    ap keep_hosts (
      split-join b',' host hosts
        (All-map IsWritten (λ t. has_sep b',' t ≡ false) (host ∷ hosts) (λ t w. w.1.1) k))
    ∙ keep_hosts-IsWritten (host ∷ hosts) k
