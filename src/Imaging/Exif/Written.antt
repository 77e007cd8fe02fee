-- ===== src/Imaging/Exif/Written.antt =====
-- A TIFF block written with an orientation, and what the reader of the block makes of it.
use foto.Base.{
  ℕ, zero, suc, ◌+◌, ◌*◌, ◌-◌, ◌/◌, ◌%◌, ◌≤◌, ◌<◌, ◌≡◌, ◌≢◌, refl, ◌∙◌, ap, List, [], ◌∷◌, ◌++◌,
  append_assoc, arith, Bytes, length, length-append, All, take, drop, ◌==◌, if◌then◌else◌, ok,
}
use foto.Imaging.Exif.{
  ByteOrder, little_endian, big_endian, at, slice, uint16, uint32, entry_value, scan_entries,
  read_ifd, read_tiff,
}

-- Numbers of two and four bytes.
abbrev pub put16 : ByteOrder → ℕ → Bytes
put16 little_endian n = n % 256 ∷ n / 256 ∷ []
put16 big_endian n = n / 256 ∷ n % 256 ∷ []

abbrev pub put8 : ByteOrder → Bytes
put8 little_endian = 8 ∷ 0 ∷ 0 ∷ 0 ∷ []
put8 big_endian = 0 ∷ 0 ∷ 0 ∷ 8 ∷ []

uint16-put16 : (o : ByteOrder) (n : ℕ) → uint16 o (put16 o n) ≡ ok n
unfolding uint16
uint16-put16 little_endian n = ground arith
uint16-put16 big_endian n = ground arith

length-put16 : (o : ByteOrder) (n : ℕ) → length (put16 o n) ≡ 2
length-put16 little_endian n = refl
length-put16 big_endian n = refl

pub take-append : (q r : Bytes) → take (length q) (q ++ r) ≡ q
take-append [] r = refl
take-append (b ∷ q) r = ap (λ x. b ∷ x) (take-append q r)

pub drop-append : (p r : Bytes) → drop (length p) (p ++ r) ≡ r
drop-append [] r = refl
drop-append (b ∷ p) r = drop-append p r

-- The part of a text that stands between `p` and `r`.
pub slice_part :
    (p q r : Bytes) (lo hi : ℕ)
    → lo ≡ length p
    → hi ≡ length p + length q
    → slice (p ++ (q ++ r)) lo hi ≡ ok q
unfolding slice
slice_part p q r lo hi e f =
    let width : length p + length q - length p ≡ length q = omega arith in
    rw (e, f, drop-append, width, take-append)
      (ground (arith, length-append p (q ++ r), length-append q r))

pub at_part : (p : Bytes) (b : ℕ) (r : Bytes) (i : ℕ) → i ≡ length p → at (p ++ (b ∷ r)) i ≡ ok b
unfolding at
at_part [] b r zero e = refl
at_part [] b r (suc i) e = absurd (omega arith)
at_part (a ∷ p) b r zero e = absurd (omega arith)
at_part (a ∷ p) b r (suc i) e = at_part p b r i (omega arith)

-- An IFD entry: a tag, and the ten bytes behind it.
pub record Entry : Type 0 where
  pub tag : ℕ
  pub body : Bytes

abbrev pub IsOther : Entry → Type 0
IsOther e = (e.tag ≢ 0x0112) × (length e.body ≡ 10)

abbrev pub entry_bytes : ByteOrder → Entry → Bytes
entry_bytes o e = put16 o e.tag ++ e.body

-- The orientation tag: type SHORT, count 1, and the value in the first two bytes of its field.
abbrev pub orientation_entry : ByteOrder → ℕ → Entry
orientation_entry o v = record {
  tag = 0x0112;
  body = put16 o 3 ++ (put8 o ++ (put16 o v ++ (0 ∷ 0 ∷ [])));
}

abbrev pub entries_bytes : ByteOrder → List Entry → Bytes
entries_bytes o [] = []
entries_bytes o (e ∷ es) = entry_bytes o e ++ entries_bytes o es

length-orientation_entry : (o : ByteOrder) (v : ℕ) → length (orientation_entry o v).body ≡ 10
length-orientation_entry little_endian v = refl
length-orientation_entry big_endian v = refl

length-entry_bytes : (o : ByteOrder) (e : Entry) → length (entry_bytes o e) ≡ length e.body + 2
length-entry_bytes o e = omega (arith, length-append (put16 o e.tag) e.body, length-put16 o e.tag)

entry_value-orientation :
    (o : ByteOrder) (v : ℕ)
    → 1 ≤ v
    → v ≤ 8
    → entry_value o (entry_bytes o (orientation_entry o v)) ≡ ok v
unfolding entry_value slice uint16
entry_value-orientation little_endian v h h' = ground arith
entry_value-orientation big_endian v h h' = ground arith

module _ (o : ByteOrder) where
  scan_entries_at :
      (p r : Bytes) (e : Entry) (n i : ℕ)
      → length p ≡ i * 12
      → length e.body ≡ 10
      → scan_entries (suc n) o (p ++ (entry_bytes o e ++ r)) i ≡ (
          if e.tag == 0x0112
          then entry_value o (entry_bytes o e)
          else scan_entries n o (p ++ (entry_bytes o e ++ r)) (i + 1))
  unfolding scan_entries
  scan_entries_at p r e n i h ten = ground (
    arith,
    length-entry_bytes o e,
    length-append p (entry_bytes o e ++ r),
    length-append (entry_bytes o e) r,
    slice_part p (entry_bytes o e) r (i * 12) (i * 12 + 12),
    slice_part [] (put16 o e.tag) e.body 0 2,
    length-put16 o e.tag,
    uint16-put16 o e.tag,
  )

  scan_entries-orientation :
      (es : List Entry) (p r : Bytes) (n i v : ℕ)
      → length p ≡ i * 12
      → All IsOther es
      → length es < n
      → 1 ≤ v
      → v ≤ 8
      → scan_entries n o
          (p ++ (entries_bytes o es ++ (entry_bytes o (orientation_entry o v) ++ r)))
          i
        ≡ ok v
  scan_entries-orientation es p r zero i v h a few lo hi = absurd (omega arith)
  scan_entries-orientation [] p r (suc n) i v h a few lo hi =
      scan_entries_at p r (orientation_entry o v) n i h (length-orientation_entry o v)
      ∙ entry_value-orientation o v lo hi
  scan_entries-orientation (e ∷ es) p r (suc n) i v h ((other, ten), a) few lo hi =
      let first = entry_bytes o e in
      let rest = entries_bytes o es ++ (entry_bytes o (orientation_entry o v) ++ r) in
      ground (
        arith,
        append_assoc first (entries_bytes o es) (entry_bytes o (orientation_entry o v) ++ r),
        append_assoc p first rest,
        scan_entries_at p rest e n i h ten,
        length-append p first,
        length-entry_bytes o e,
        scan_entries-orientation es (p ++ first) r n (i + 1) v,
      )

abbrev pub mark : ByteOrder → Bytes
mark little_endian = b'I' ∷ b'I' ∷ []
mark big_endian = b'M' ∷ b'M' ∷ []

-- A TIFF header, with the IFD and its count of entries right behind it.
abbrev pub tiff_header : ByteOrder → ℕ → Bytes → Bytes
tiff_header o count rest = mark o ++ (put16 o 42 ++ (put8 o ++ (put16 o count ++ rest)))

-- The TIFF block: other entries, the orientation, and whatever follows them.
abbrev pub tiff_bytes : ByteOrder → List Entry → ℕ → ℕ → Bytes → Bytes
tiff_bytes o es v count r =
    tiff_header o count (entries_bytes o es ++ (entry_bytes o (orientation_entry o v) ++ r))

pub take-length : (s : Bytes) → take (length s) s ≡ s
take-length [] = refl
take-length (b ∷ s) = ap (λ x. b ∷ x) (take-length s)

read_tiff-tiff_header :
    (o : ByteOrder) (count : ℕ) (rest : Bytes)
    → read_tiff o (tiff_header o count rest) ≡ scan_entries count o rest 0
unfolding read_tiff read_ifd slice uint16 uint32
read_tiff-tiff_header little_endian count rest =
    let width : suc (suc (suc (suc (suc (suc (suc (suc (suc (suc (length rest)))))))))) - 10
        ≡ length rest =
      omega arith in
    ground (arith, width, take-length rest)
read_tiff-tiff_header big_endian count rest =
    let width : suc (suc (suc (suc (suc (suc (suc (suc (suc (suc (length rest)))))))))) - 10
        ≡ length rest =
      omega arith in
    ground (arith, width, take-length rest)

pub read_tiff-tiff_bytes :
    (o : ByteOrder) (es : List Entry) (v count : ℕ) (r : Bytes)
    → All IsOther es
    → length es < count
    → 1 ≤ v
    → v ≤ 8
    → read_tiff o (tiff_bytes o es v count r) ≡ ok v
read_tiff-tiff_bytes o es v count r a few lo hi =
    read_tiff-tiff_header o count _
    ∙ scan_entries-orientation o es [] r count 0 v (omega arith) a few lo hi
