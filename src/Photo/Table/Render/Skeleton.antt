-- ===== src/Photo/Table/Render/Skeleton.antt =====
-- A statement's structure does not depend on the texts in it.
use foto.Base.{
  ℕ, ◌≡◌, refl, sym, ap, ◌∙◌, arith, Bool, true, false, not, ◌&&◌, none, some, List, [], ◌∷◌, ◌++◌,
  append_assoc, Bytes, codes, all, All, and_split, append-nil, is_empty, ◌==◌, if◌then◌else◌,
}
use foto.Base.Int.{ℤ}
use foto.Base.Decimal.{decimal_ℤ, decimal_ℤ-all}
use foto.Photo.Sql.{Formats, escape, escape_all, quote, datetime}
use foto.Photo.Table.{Row, upsert, delete_refs}
use foto.Photo.Table.Render.{
  Value, text, number, flag, moment, write, bool_to_int, columns, on_duplicate, concat_columns,
  quoted_refs, render,
}
use Prim.Native.String.{String}

-- Where a database stands in the text of a statement: outside every literal, in one, behind a
-- backslash in one, behind a quote in one.
pub data Mode : Type 0 where
  outside : Mode
  inside : Mode
  escaped : Mode
  closing : Mode

-- The statement with a question mark for every literal.
unfoldable pub skeleton : Mode → Bytes → Bytes
skeleton mode [] = []
skeleton outside (c ∷ s) =
    let in_literal = skeleton inside s in
    let out = skeleton outside s in if c == 39 then b'?' ∷ in_literal else c ∷ out
skeleton inside (c ∷ s) =
    let at_quote = skeleton closing s in
    let at_backslash = skeleton escaped s in
    let on = skeleton inside s in if c == 39 then at_quote else if c == 92 then at_backslash else on
skeleton escaped (c ∷ s) = skeleton inside s
skeleton closing (c ∷ s) =
    let on = skeleton inside s in let out = skeleton outside s in if c == 39 then on else c ∷ out

-- No quote is in it.
abbrev pub is_plain : Bytes → Bool
is_plain = all (λ c. not (c == 39))

-- Not empty, and without a quote.
abbrev pub is_label : Bytes → Bool
is_label s = not (is_empty s) && is_plain s

skeleton-plain :
    (s t : Bytes) → is_plain s ≡ true → skeleton outside (s ++ t) ≡ (s ++ skeleton outside t)
unfolding skeleton
skeleton-plain [] t h = refl
skeleton-plain (c ∷ s) t h = ground (arith, skeleton-plain s t)

skeleton-escape : (c : ℕ) (t : Bytes) → skeleton inside (escape c ++ t) ≡ skeleton inside t
unfolding skeleton escape
skeleton-escape c t = ground arith

skeleton-escape_all : (s t : Bytes) → skeleton inside (escape_all s ++ t) ≡ skeleton inside t
unfolding escape_all
skeleton-escape_all [] t = refl
skeleton-escape_all (c ∷ s) t =
    ap (skeleton inside) (append_assoc (escape c) (escape_all s) t)
    ∙ (skeleton-escape c (escape_all s ++ t) ∙ skeleton-escape_all s t)

skeleton-closing :
    (label t : Bytes)
    → is_label label ≡ true
    → skeleton closing (label ++ t) ≡ skeleton outside (label ++ t)
unfolding skeleton
skeleton-closing [] t h = absurd (cc h)
skeleton-closing (c ∷ label) t h = ground arith

-- A literal, and the label behind it.
skeleton-quote :
    (s label t : Bytes)
    → is_label label ≡ true
    → skeleton outside (quote s ++ (label ++ t)) ≡ b'?' ∷ skeleton outside (label ++ t)
unfolding skeleton quote
skeleton-quote s label t h =
    ap (λ u. b'?' ∷ u)
      (ap (skeleton inside) (append_assoc (escape_all s) (39 ∷ []) (label ++ t))
        ∙ (skeleton-escape_all s (39 ∷ (label ++ t)) ∙ skeleton-closing label t h))

-- A value of the skeleton.
abbrev pub shape : Value → Bytes
shape (text s) = codes "?"
shape (number n) = decimal_ℤ n
shape (flag b) = bool_to_int b
shape (moment none) = codes "NULL"
shape (moment (some t)) = codes "?"

decimal_ℤ-plain : (n : ℤ) → is_plain (decimal_ℤ n) ≡ true
decimal_ℤ-plain n = decimal_ℤ-all (λ c. not (c == 39)) (λ d small. ground arith) refl n

skeleton-write :
    (formats : Formats) (v : Value) (label t : Bytes)
    → is_label label ≡ true
    → skeleton outside (write formats v ++ (label ++ t))
      ≡ (shape v ++ skeleton outside (label ++ t))
unfolding write datetime
skeleton-write formats (text s) label t h = skeleton-quote s label t h
skeleton-write formats (number n) label t h =
    skeleton-plain (decimal_ℤ n) (label ++ t) (decimal_ℤ-plain n)
skeleton-write formats (flag true) label t h = skeleton-plain (codes "1") (label ++ t) refl
skeleton-write formats (flag false) label t h = skeleton-plain (codes "0") (label ++ t) refl
skeleton-write formats (moment none) label t h = skeleton-plain (codes "NULL") (label ++ t) refl
skeleton-write formats (moment (some at)) label t h =
    skeleton-quote (formats.format_time at) label t h

abbrev AreLabelled : List (String × Value) → Type 0
AreLabelled = All (λ c. is_label (codes c.0) ≡ true)

all-labelled :
    (cs : List (String × Value)) → all (λ c. is_label (codes c.0)) cs ≡ true → AreLabelled cs
all-labelled [] h = tt
all-labelled (c ∷ cs) h =
    let (first, rest) = and_split (is_label (codes c.0)) (all (λ d. is_label (codes d.0)) cs) h in
    (first, all-labelled cs rest)

label-plain : (s : Bytes) → is_label s ≡ true → is_plain s ≡ true
label-plain s h = (and_split (not (is_empty s)) (is_plain s) h).1

concat_columns-label :
    (show : Value → Bytes) (cs : List (String × Value)) (end : Bytes)
    → AreLabelled cs
    → is_label end ≡ true
    → (label : Bytes) × (t : Bytes) × (is_label label ≡ true)
      × (concat_columns show cs end ≡ label ++ t)
unfolding concat_columns
concat_columns-label show [] end h e = (end, [], e, sym (append-nil end))
concat_columns-label show (c ∷ cs) end (l, h) e =
    (codes c.0, show c.1 ++ concat_columns show cs end, l, refl)

skeleton-concat_columns :
    (formats : Formats) (cs : List (String × Value)) (end : Bytes)
    → AreLabelled cs
    → is_label end ≡ true
    → skeleton outside (concat_columns (write formats) cs end) ≡ concat_columns shape cs end
unfolding concat_columns skeleton
skeleton-concat_columns formats [] end h e =
    ap (skeleton outside) (sym (append-nil end))
    ∙ (skeleton-plain end [] (label-plain end e) ∙ append-nil end)
skeleton-concat_columns formats (c ∷ cs) end (l, h) e =
    let (label, t, good, q) = concat_columns-label (write formats) cs end h e in
    skeleton-plain (codes c.0) (write formats c.1 ++ concat_columns (write formats) cs end)
      (label-plain (codes c.0) l)
    ∙ ap (λ u. codes c.0 ++ u)
        (ap (λ u. skeleton outside (write formats c.1 ++ u)) q
          ∙ (skeleton-write formats c.1 label t good
              ∙ ap (λ u. shape c.1 ++ u)
                  (ap (skeleton outside) (sym q) ∙ skeleton-concat_columns formats cs end h e)))

-- The INSERT has the fixed text of the format around a literal for every text of the row, and its
-- numbers in the open: no team number, type, URL or other text of an event changes the statement.
pub render_upsert-skeleton :
    (formats : Formats) (row : Row)
    → skeleton outside (render formats (upsert row))
      ≡ concat_columns shape (columns row) (codes on_duplicate)
unfolding render columns
render_upsert-skeleton formats row =
    skeleton-concat_columns formats (columns row) (codes on_duplicate)
      (all-labelled (columns row) refl) refl

-- A question mark for each ref, with commas between.
abbrev pub marks : List Bytes → Bytes
marks [] = []
marks (r ∷ []) = codes "?"
marks (r ∷ s ∷ refs) = codes "?," ++ marks (s ∷ refs)

skeleton-quoted_refs :
    (refs : List Bytes)
    → skeleton outside (quoted_refs refs ++ codes ")") ≡ (marks refs ++ codes ")")
unfolding quoted_refs skeleton
skeleton-quoted_refs [] = refl
skeleton-quoted_refs (r ∷ []) = skeleton-quote r (codes ")") [] refl
skeleton-quoted_refs (r ∷ s ∷ refs) =
    ap (skeleton outside) (append_assoc (quote r) (b',' ∷ quoted_refs (s ∷ refs)) (codes ")"))
    ∙ (skeleton-quote r (codes ",") (quoted_refs (s ∷ refs) ++ codes ")") refl
        ∙ ap (λ u. b'?' ∷ b',' ∷ u) (skeleton-quoted_refs (s ∷ refs)))

-- The DELETE is bounded by one year, one team and a list of refs, whatever texts these are: no value
-- can widen what it deletes.
pub render_delete-skeleton :
    (formats : Formats) (year team_id : Bytes) (refs : List Bytes)
    → skeleton outside (render formats (delete_refs year team_id refs)) ≡ (
        codes "DELETE FROM photo WHERE year=? AND teamId=? AND ref IN ("
        ++ (marks refs ++ codes ")"))
unfolding render
render_delete-skeleton formats year team_id refs =
    let tail = quoted_refs refs ++ codes ")" in
    let team = quote team_id ++ (codes " AND ref IN (" ++ tail) in
    skeleton-plain (codes "DELETE FROM photo WHERE year=")
      (quote year ++ (codes " AND teamId=" ++ team)) refl
    ∙ ap (λ u. codes "DELETE FROM photo WHERE year=" ++ u)
        (skeleton-quote year (codes " AND teamId=") team refl
          ∙ ap (λ u. b'?' ∷ u)
              (skeleton-plain (codes " AND teamId=") team refl
                ∙ ap (λ u. codes " AND teamId=" ++ u)
                    (skeleton-quote team_id (codes " AND ref IN (") tail refl
                      ∙ ap (λ u. b'?' ∷ u)
                          (skeleton-plain (codes " AND ref IN (") tail refl
                            ∙ ap (λ u. codes " AND ref IN (" ++ u) (skeleton-quoted_refs refs)))))
