-- ===== src/Photo/Sql/Literal.antt =====
-- How a database reads what `quote` writes.
use foto.Base.{
  ℕ, ◌≡◌, refl, sym, ap, ◌∙◌, subst, arith, Bool, true, false, not, Option, none, some, List, [],
  ◌∷◌, ◌++◌, append_assoc, Bytes, is_empty, ◌==◌, if◌then◌else◌,
}
use foto.Base.Text.{trim_space}
use foto.Photo.Messages.{PhotoRendition}
use foto.Photo.Sql.{escape, escape_all, quote, Formats, encode_renditions, decode_renditions}

some-injective {ℓ} : {A : Type ℓ} {a b : A} → some a ≡ some b → a ≡ b
some-injective h = cc

-- The character that a backslash makes of the one behind it, by the manual of MySQL.
abbrev unescape : ℕ → ℕ
unescape c =
    if c == b'0'
    then 0
    else if c == b'n'
    then 10
    else if c == b'r'
    then 13
    else if c == b'Z'
    then 26
    else if c == b't'
    then 9
    else if c == b'b'
    then 8
    else c

-- One character in front of a literal's text.
abbrev onto : ℕ → Option (Bytes × Bytes) → Option (Bytes × Bytes)
onto c none = none
onto c (some (text, rest)) = some (c ∷ text, rest)

-- The reading of a literal behind its opening quote: the text up to the closing quote, and what is
-- behind that. Two quotes stand for one.
unfoldable pub read_text : Bytes → Option (Bytes × Bytes)
read_text [] = none
read_text (c ∷ []) = if c == 39 then some ([], []) else none
read_text (c ∷ d ∷ s) =
    let skip = read_text s in
    let next = read_text (d ∷ s) in
    if c == 39
    then (if d == 39 then onto 39 skip else some ([], d ∷ s))
    else if c == 92
    then onto (unescape d) skip
    else onto c next

-- A literal in front of a text.
unfoldable pub read_literal : Bytes → Option (Bytes × Bytes)
unfolding read_text
read_literal [] = none
read_literal (c ∷ s) = if c == 39 then read_text s else none

-- What follows a literal must not start with a quote.
abbrev pub is_clear : Bytes → Bool
is_clear [] = true
is_clear (c ∷ s) = not (c == 39)

read_text-escape :
    (c d : ℕ) (s : Bytes) → read_text (escape c ++ d ∷ s) ≡ onto c (read_text (d ∷ s))
unfolding read_text escape
read_text-escape c d s = ground arith

append-cons : (xs : Bytes) (y : ℕ) (ys : Bytes) → (d : ℕ) × (t : Bytes) × ((xs ++ y ∷ ys) ≡ d ∷ t)
append-cons [] y ys = (y, ys, refl)
append-cons (x ∷ xs) y ys = (x, xs ++ y ∷ ys, refl)

read_text-escape_all :
    (s rest : Bytes) → is_clear rest ≡ true → read_text (escape_all s ++ 39 ∷ rest) ≡ some (s, rest)
unfolding escape_all read_text
read_text-escape_all [] [] h = refl
read_text-escape_all [] (d ∷ rest) h = ground arith
read_text-escape_all (c ∷ s) rest h =
    let (d, t, e) = append-cons (escape_all s) 39 rest in
    ap read_text (append_assoc (escape c) (escape_all s) (39 ∷ rest))
    ∙ (ap (λ u. read_text (escape c ++ u)) e
        ∙ (read_text-escape c d t
            ∙ ap (onto c) (ap read_text (sym e) ∙ read_text-escape_all s rest h)))

-- The database reads a quoted value back as that very value, whatever bytes it has, and goes on behind
-- it: no value ends its literal early or runs on into the statement.
pub quote-read_literal :
    (s rest : Bytes) → is_clear rest ≡ true → read_literal (quote s ++ rest) ≡ some (s, rest)
unfolding quote read_literal
quote-read_literal s rest h =
    ap read_text (append_assoc (escape_all s) (39 ∷ []) rest) ∙ read_text-escape_all s rest h

-- What `encoding/json` promises here: a text it writes is not blank, and it reads it back.
pub record IsFormat (formats : Formats) : Type 0 where
  pub marshal_back :
      (renditions : List PhotoRendition) (text : Bytes)
      → formats.marshal renditions ≡ some text
      → formats.unmarshal text ≡ some renditions
  pub marshal_filled :
      (renditions : List PhotoRendition) (text : Bytes)
      → formats.marshal renditions ≡ some text
      → is_empty (trim_space text) ≡ false

-- The column of renditions reads back as the list that was written, the empty list included.
pub encode_renditions-decode :
    (formats : Formats) (renditions : List PhotoRendition) (text : Bytes)
    → IsFormat formats
    → encode_renditions formats renditions ≡ some text
    → decode_renditions formats text ≡ renditions
unfolding encode_renditions decode_renditions trim_space
encode_renditions-decode formats [] text good h =
    subst (λ t. decode_renditions formats t ≡ []) (some-injective h) refl
encode_renditions-decode formats (r ∷ renditions) text good h =
    rw (good.marshal_filled (r ∷ renditions) text h, good.marshal_back (r ∷ renditions) text h) refl
