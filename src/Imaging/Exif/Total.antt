-- ===== src/Imaging/Exif/Total.antt =====
-- `ReadOrientation` never panics and always ends, whatever bytes it is given.
use foto.Base.{
  ℕ, zero, suc, ◌+◌, ◌*◌, ◌-◌, ◌≤◌, ◌<◌, ◌≡◌, refl, [], ◌∷◌, arith, dec_le, Bytes, length, take,
  drop, length-take, length-drop, Result, ok, err,
}
use foto.Imaging.Exif.{
  Fault, ByteOrder, little_endian, big_endian, at, slice, uint16, uint32, Round, stop, found, move,
  inspect, segment, round, markers, find_exif_segment, entry_value, scan_entries, read_ifd,
  read_tiff, read_orientation,
}

-- The call returns, and what it returns satisfies `P`.
abbrev Returns {ℓ} : {A : Type ℓ} → (A → Type 0) → Result Fault A → Type 0
Returns P (ok a) = P a
Returns P (err e) = ⊥

at_lem : (s : Bytes) (i : ℕ) → i < length s → (b : ℕ) × (at s i ≡ ok b)
unfolding at
at_lem [] i h = elim h [ ]
at_lem (b ∷ s) zero h = (b, refl)
at_lem (b ∷ s) (suc i) h = at_lem s i (omega arith)

slice_lem :
    (s : Bytes) (lo hi : ℕ)
    → lo ≤ hi
    → hi ≤ length s
    → (t : Bytes) × (slice s lo hi ≡ ok t) × (length t ≡ hi - lo)
unfolding slice
slice_lem s lo hi p q = (
  take (hi - lo) (drop lo s),
  ground arith,
  omega (arith, length-take (hi - lo) (drop lo s), length-drop lo s),
)

uint16_lem : (o : ByteOrder) (s : Bytes) → 2 ≤ length s → (n : ℕ) × (uint16 o s ≡ ok n)
unfolding uint16
uint16_lem o [] h = absurd (omega arith)
uint16_lem o (a ∷ []) h = absurd (omega arith)
uint16_lem little_endian (a ∷ b ∷ s) h = (a + 256 * b, refl)
uint16_lem big_endian (a ∷ b ∷ s) h = (256 * a + b, refl)

uint32_lem : (o : ByteOrder) (s : Bytes) → 4 ≤ length s → (n : ℕ) × (uint32 o s ≡ ok n)
unfolding uint32
uint32_lem o [] h = absurd (omega arith)
uint32_lem o (a ∷ []) h = absurd (omega arith)
uint32_lem o (a ∷ b ∷ []) h = absurd (omega arith)
uint32_lem o (a ∷ b ∷ c ∷ []) h = absurd (omega arith)
uint32_lem little_endian (a ∷ b ∷ c ∷ d ∷ s) h = (a + 256 * b + 65536 * c + 16777216 * d, refl)
uint32_lem big_endian (a ∷ b ∷ c ∷ d ∷ s) h = (16777216 * a + 65536 * b + 256 * c + d, refl)

-- What a round promises: an index that it moves to lies two bytes ahead at least, within the file.
abbrev Ahead : ℕ → ℕ → Round → Type 0
Ahead size i (move j) = (i + 2 ≤ j) × (j ≤ size)
Ahead size i stop = Unit
Ahead size i (found tiff) = Unit

inspect-Returns :
    (marker : ℕ) (payload : Bytes) (size i next : ℕ)
    → i + 2 ≤ next
    → next ≤ size
    → Returns (Ahead size i) (inspect marker payload next)
unfolding inspect
inspect-Returns marker payload size i next h h' = elim (dec_le 6 (length payload)) [
  | yes p ↦
      let (head, e, _) = slice_lem payload 0 6 (omega arith) p in
      let (tiff, e', _) = slice_lem payload 6 (length payload) p (omega arith) in ground arith
  | no p ↦ ground arith
]

segment-Returns :
    (raw : Bytes) (i marker : ℕ)
    → i + 4 ≤ length raw
    → Returns (Ahead (length raw) i) (segment raw i marker)
unfolding segment
segment-Returns raw i marker h =
    let (t, e, two) = slice_lem raw (i + 2) (i + 4) (omega arith) h in
    let (n, e') = uint16_lem big_endian t (omega arith) in
    elim (dec_le (i + 2 + n) (length raw)) [
      | yes p ↦ elim (dec_le 2 n) [
        | yes q ↦
            let (payload, e'', _) = slice_lem raw (i + 4) (i + 2 + n) (omega arith) p in
            ground (arith, inspect-Returns marker payload (length raw) i (i + 2 + n))
        | no q ↦ ground arith
      ]
      | no p ↦ ground arith
    ]

round-Returns :
    (raw : Bytes) (i : ℕ) → i + 4 ≤ length raw → Returns (Ahead (length raw) i) (round raw i)
unfolding round
round-Returns raw i h =
    let (byte, e) = at_lem raw i (omega arith) in
    let (marker, e') = at_lem raw (i + 1) (omega arith) in
    ground (arith, segment-Returns raw i marker h)

Returns-split {ℓ} :
    {A : Type ℓ} (P : A → Type 0) (m : Result Fault A) → Returns P m → (a : A) × (m ≡ ok a) × P a
Returns-split P (ok a) h = (a, refl, h)
Returns-split P (err e) h = absurd h

abbrev AnyBytes : Bytes → Type 0
AnyBytes s = Unit

markers-Returns :
    (fuel : ℕ) (raw : Bytes) (i : ℕ)
    → length raw < i + fuel
    → i ≤ length raw
    → Returns AnyBytes (markers fuel raw i)
unfolding markers
markers-Returns zero raw i h h' = absurd (omega arith)
markers-Returns (suc fuel) raw i h h' = elim (dec_le (i + 4) (length raw)) [
  | yes p ↦
      let (r, e, ahead) = Returns-split (Ahead (length raw) i) _ (round-Returns raw i p) in
      step r e ahead p (λ j. markers-Returns fuel raw j)
  | no p ↦ ground arith
]
  where
    step :
        (r : Round)
        → round raw i ≡ ok r
        → Ahead (length raw) i r
        → i + 4 ≤ length raw
        → ((j : ℕ) → length raw < j + fuel → j ≤ length raw → Returns AnyBytes (markers fuel raw j))
        → Returns AnyBytes (markers (suc fuel) raw i)
    step stop e ahead p again = ground arith
    step (found tiff) e ahead p again = ground arith
    step (move j) e (far, near) p again = ground (arith, again j (omega arith) near)

find_exif_segment-Returns : (raw : Bytes) → Returns AnyBytes (find_exif_segment raw)
unfolding find_exif_segment
find_exif_segment-Returns raw = elim (dec_le 4 (length raw)) [
  | yes p ↦
      let (a, e) = at_lem raw 0 (omega arith) in
      let (b, e') = at_lem raw 1 (omega arith) in
      ground (arith, markers-Returns (length raw) raw 2 (omega arith) (omega arith))
  | no p ↦ ground arith
]

abbrev IsOrientation : ℕ → Type 0
IsOrientation v = (1 ≤ v) × (v ≤ 8)

entry_value-Returns :
    (o : ByteOrder) (entry : Bytes)
    → length entry ≡ 12
    → Returns IsOrientation (entry_value o entry)
unfolding entry_value
entry_value-Returns o entry h =
    let (t, e, two) = slice_lem entry 2 4 (omega arith) (omega arith) in
    let (n, e') = uint16_lem o t (omega arith) in
    let (u, f, two') = slice_lem entry 8 10 (omega arith) (omega arith) in
    let (v, f') = uint16_lem o u (omega arith) in ground arith

scan_entries-Returns :
    (n : ℕ) (o : ByteOrder) (entries : Bytes) (i : ℕ)
    → Returns IsOrientation (scan_entries n o entries i)
unfolding scan_entries
scan_entries-Returns zero o entries i = omega arith
scan_entries-Returns (suc n) o entries i = elim (dec_le (i * 12 + 12) (length entries)) [
  | yes p ↦
      let (entry, e, twelve) = slice_lem entries (i * 12) (i * 12 + 12) (omega arith) p in
      let (t, f, two) = slice_lem entry 0 2 (omega arith) (omega arith) in
      let (tag, g) = uint16_lem o t (omega arith) in
      ground
        (arith, entry_value-Returns o entry (omega arith), scan_entries-Returns n o entries (i + 1))
  | no p ↦ ground arith
]

read_ifd-Returns :
    (o : ByteOrder) (exif : Bytes) (ifd : ℕ) → Returns IsOrientation (read_ifd o exif ifd)
unfolding read_ifd
read_ifd-Returns o exif ifd = elim (dec_le (ifd + 2) (length exif)) [
  | yes p ↦
      let (t, e, two) = slice_lem exif ifd (ifd + 2) (omega arith) p in
      let (n, f) = uint16_lem o t (omega arith) in
      let (entries, g, _) = slice_lem exif (ifd + 2) (length exif) p (omega arith) in
      ground (arith, scan_entries-Returns n o entries 0)
  | no p ↦ ground arith
]

read_tiff-Returns :
    (o : ByteOrder) (exif : Bytes) → 8 ≤ length exif → Returns IsOrientation (read_tiff o exif)
unfolding read_tiff
read_tiff-Returns o exif h =
    let (t, e, two) = slice_lem exif 2 4 (omega arith) (omega arith) in
    let (magic, f) = uint16_lem o t (omega arith) in
    let (u, e', four) = slice_lem exif 4 8 (omega arith) (omega arith) in
    let (ifd, f') = uint32_lem o u (omega arith) in ground (arith, read_ifd-Returns o exif ifd)

read_orientation-Returns : (raw : Bytes) → Returns IsOrientation (read_orientation raw)
unfolding read_orientation
read_orientation-Returns raw =
    let (exif, e, _) = Returns-split AnyBytes _ (find_exif_segment-Returns raw) in
    elim (dec_le 8 (length exif)) [
      | yes p ↦
          let (a, f) = at_lem exif 0 (omega arith) in
          let (b, g) = at_lem exif 1 (omega arith) in
          ground
            (arith, read_tiff-Returns little_endian exif p, read_tiff-Returns big_endian exif p)
      | no p ↦ ground arith
    ]

-- For every input `ReadOrientation` returns: no index or slice is out of range and the loops end. The
-- value lies between 1 and 8.
pub read_orientation_total :
    (raw : Bytes) → (v : ℕ) × (read_orientation raw ≡ ok v) × (1 ≤ v) × (v ≤ 8)
read_orientation_total raw =
    let (v, e, range) = Returns-split IsOrientation _ (read_orientation-Returns raw) in
    (v, e, range.0, range.1)
