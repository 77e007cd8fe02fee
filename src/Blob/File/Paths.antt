-- ===== src/Blob/File/Paths.antt =====
-- Where objects lie on disk.
use foto.Base.{
  ℕ, ◌≤◌, ◌≡◌, ◌≢◌, refl, arith, true, false, [], ◌∷◌, ◌++◌, ap, Bytes, codes, length, take, all,
  any, ◌==◌, ==_iff, ok, and_split,
}
use foto.Blob.Ref.{Ref, valid, is_hex}
use foto.Blob.File.{slash, object_path, path, temp_path}

append-cancel : (p s t : Bytes) → p ++ s ≡ p ++ t → s ≡ t
append-cancel [] s t e = e
append-cancel (b ∷ p) s t e = append-cancel p s t (cc e)

tails :
    (r s u v : Bytes)
    → 2 ≤ length r
    → 2 ≤ length s
    → take 2 r ++ (slash ∷ u) ≡ take 2 s ++ (slash ∷ v)
    → u ≡ v
tails [] s u v h h' e = absurd (omega arith)
tails (a ∷ []) s u v h h' e = absurd (omega arith)
tails (a ∷ b ∷ r) [] u v h h' e = absurd (omega arith)
tails (a ∷ b ∷ r) (c ∷ []) u v h h' e = absurd (omega arith)
tails (a ∷ b ∷ r) (c ∷ d ∷ s) u v h h' e = cc e

pub valid_parts : (r : Ref) → valid r ≡ true → (length r ≡ 64) × (all is_hex r ≡ true)
unfolding valid
valid_parts r h = (ground arith, ground arith)

-- Two valid refs with the same path are the same.
pub object_path-injective :
    (root : Bytes) (r s : Ref)
    → valid r ≡ true
    → valid s ≡ true
    → object_path root r ≡ object_path root s
    → r ≡ s
unfolding object_path
object_path-injective root r s hr hs e =
    let (nr, _) = valid_parts r hr in
    let (ns, _) = valid_parts s hs in
    tails r s r s (omega arith) (omega arith) (cc (append-cancel root _ _ e))

dot_not_hex : (r t : Bytes) → all is_hex r ≡ true → r ≢ b'.' ∷ t
dot_not_hex [] t h e = cc e
dot_not_hex (c ∷ r) t h e =
    let (hex, _) = and_split (is_hex c) (all is_hex r) h in
    let dot : c ≡ b'.' = cc e in let no : is_hex b'.' ≡ true = rw dot at hex in cc no

-- No object lies where a temporary file does.
pub object_path-ne-temp_path :
    (root : Bytes) (r s : Ref) (suffix : Bytes)
    → valid r ≡ true
    → valid s ≡ true
    → object_path root r ≢ temp_path root s suffix
unfolding object_path temp_path
object_path-ne-temp_path root r s suffix hr hs e =
    let (nr, hex) = valid_parts r hr in
    let (ns, _) = valid_parts s hs in
    dot_not_hex r (codes "tmp-" ++ suffix) hex
      (tails r s r _ (omega arith) (omega arith) (cc (append-cancel root _ _ e)))

all_hex-lacks :
    (r : Bytes) (c : ℕ) → is_hex c ≡ false → all is_hex r ≡ true → any (λ b. b == c) r ≡ false
all_hex-lacks [] c n h = refl
all_hex-lacks (b ∷ r) c n h =
    let (hex, rest) = and_split (is_hex b) (all is_hex r) h in
    ground (arith, all_hex-lacks r c n rest, ==_iff b c, ap is_hex)

path-eq-ok :
    (root : Bytes) (r : Ref) {p : Bytes}
    → path root r ≡ ok p
    → (valid r ≡ true) × (p ≡ root ++ (slash ∷ (take 2 r ++ (slash ∷ r))))
unfolding path
path-eq-ok root r h = (ground arith, ground arith)

-- A ref gets a path only if it is valid, and the path then leads from the root through one directory
-- to a file, under a name of 64 characters without a slash and without a dot: no ref escapes the root.
pub path_confined :
    (root : Bytes) (r : Ref) {p : Bytes}
    → path root r ≡ ok p
    → (p ≡ root ++ (slash ∷ (take 2 r ++ (slash ∷ r))))
      × (length r ≡ 64)
      × (any (λ b. b == slash) r ≡ false)
      × (any (λ b. b == b'.') r ≡ false)
path_confined root r h =
    let (is_valid, e) = path-eq-ok root r h in
    let (size, hex) = valid_parts r is_valid in
    (e, size, all_hex-lacks r slash refl hex, all_hex-lacks r b'.' refl hex)
