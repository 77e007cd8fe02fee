-- ===== src/Imaging/Exif.antt =====
-- `ReadOrientation` and `findExifSegment` of go/internal/imaging/imaging.go. An index or a slice that
-- is out of range is a fault, as it is a panic in Go. A nil slice is the empty list.
pub mod Total
pub mod Written
pub mod RoundTrip
use foto.Base.{
  ℕ, zero, suc, ◌+◌, ◌*◌, ◌-◌, Bool, true, false, ◌&&◌, ◌||◌, not, List, [], ◌∷◌, ◌++◌, Option,
  none, some, Bytes, codes, bytes_eq, length, take, drop, ltb, leb, ◌==◌, if◌then◌else◌, Result, ok,
  err, ◌>>=◌,
}

pub data Fault : Type 0 where
  out_of_range : Fault
  out_of_fuel : Fault

pub data ByteOrder : Type 0 where
  little_endian : ByteOrder
  big_endian : ByteOrder

-- `s[i]`
pub at : Bytes → ℕ → Result Fault ℕ
at [] i = err out_of_range
at (b ∷ s) zero = ok b
at (b ∷ s) (suc i) = at s i

-- `s[lo:hi]`
pub slice : Bytes → ℕ → ℕ → Result Fault Bytes
slice s lo hi =
    if leb lo hi && leb hi (length s) then ok (take (hi - lo) (drop lo s)) else err out_of_range

-- `order.Uint16(s)` and `order.Uint32(s)`
pub uint16 : ByteOrder → Bytes → Result Fault ℕ
uint16 little_endian (a ∷ b ∷ s) = ok (a + 256 * b)
uint16 big_endian (a ∷ b ∷ s) = ok (256 * a + b)
uint16 order s = err out_of_range

pub uint32 : ByteOrder → Bytes → Result Fault ℕ
uint32 little_endian (a ∷ b ∷ c ∷ d ∷ s) = ok (a + 256 * b + 65536 * c + 16777216 * d)
uint32 big_endian (a ∷ b ∷ c ∷ d ∷ s) = ok (16777216 * a + 65536 * b + 256 * c + d)
uint32 order s = err out_of_range

-- What one round of the loop over the markers does: return nil, return a block, or move to an index.
pub data Round : Type 0 where
  stop : Round
  found : Bytes → Round
  move : ℕ → Round

unfoldable pub is_standalone : ℕ → Bool
is_standalone marker = marker == 0x01 || leb 0xD0 marker && leb marker 0xD9

abbrev exif_header : Bytes
exif_header = codes "Exif" ++ 0 ∷ 0 ∷ []

-- The last part of a round, where the segment's payload is known.
pub inspect : ℕ → Bytes → ℕ → Result Fault Round
inspect marker payload next =
    if marker == 0xE1 && leb 6 (length payload)
    then (do
      head ← slice payload 0 6
      if bytes_eq head exif_header
          then (do tiff ← slice payload 6 (length payload); ok (found tiff))
          else ok (move next))
    else ok (move next)

-- The part of a round that reads the segment's length.
segment : Bytes → ℕ → ℕ → Result Fault Round
segment raw i marker = do
  field ← slice raw (i + 2) (i + 4)
  len ← uint16 big_endian field
  if ltb len 2 || ltb (length raw) (i + 2 + len)
      then ok stop
      else (do payload ← slice raw (i + 4) (i + 2 + len); inspect marker payload (i + 2 + len))

pub round : Bytes → ℕ → Result Fault Round
round raw i = do
  byte ← at raw i
  if not (byte == 0xFF) then ok stop else (do
    marker ← at raw (i + 1)
    if marker == 0xDA
        then ok stop
        else if is_standalone marker
        then ok (move (i + 2))
        else segment raw i marker)

-- `for i+4 <= len(raw)`, on fuel.
pub markers : ℕ → Bytes → ℕ → Result Fault Bytes
markers zero raw i = err out_of_fuel
markers (suc fuel) raw i = elim (ltb (length raw) (i + 4)) [
  | true ↦ ok []
  | false ↦ elim (round raw i) [
    | err e ↦ err e
    | ok stop ↦ ok []
    | ok (found tiff) ↦ ok tiff
    | ok (move j) ↦ markers fuel raw j
  ]
]

-- Each round moves by two bytes at least, so the length is fuel enough.
pub find_exif_segment : Bytes → Result Fault Bytes
find_exif_segment raw = if ltb (length raw) 4 then ok [] else (do
  a ← at raw 0
  b ← at raw 1
  if not (a == 0xFF) || not (b == 0xD8) then ok [] else markers (length raw) raw 2)

abbrev pub upright : ℕ
upright = 1

byte_order : ℕ → ℕ → Option ByteOrder
byte_order a b =
    if a == b'I' && b == b'I'
    then some little_endian
    else if a == b'M' && b == b'M'
    then some big_endian
    else none

-- The entry that carries the tag: its type must be SHORT and its value a known orientation.
entry_value : ByteOrder → Bytes → Result Fault ℕ
entry_value order entry = do
  kind_field ← slice entry 2 4
  kind ← uint16 order kind_field
  if not (kind == 3) then ok upright else (do
    value_field ← slice entry 8 10
    value ← uint16 order value_field
    if ltb value 1 || ltb 8 value then ok upright else ok value)

-- `for i := 0; i < count; i++`: the first argument counts the rounds left.
pub scan_entries : ℕ → ByteOrder → Bytes → ℕ → Result Fault ℕ
scan_entries zero order entries i = ok upright
scan_entries (suc n) order entries i =
    let rest = scan_entries n order entries (i + 1) in
    if ltb (length entries) (i * 12 + 12) then ok upright else (do
      entry ← slice entries (i * 12) (i * 12 + 12)
      tag_field ← slice entry 0 2
      tag ← uint16 order tag_field
      if not (tag == 0x0112) then rest else entry_value order entry)

-- From the offset of the first IFD on.
read_ifd : ByteOrder → Bytes → ℕ → Result Fault ℕ
read_ifd order exif ifd = if ltb ifd 8 || ltb (length exif) (ifd + 2) then ok upright else (do
  count_field ← slice exif ifd (ifd + 2)
  count ← uint16 order count_field
  entries ← slice exif (ifd + 2) (length exif)
  scan_entries count order entries 0)

pub read_tiff : ByteOrder → Bytes → Result Fault ℕ
read_tiff order exif = do
  magic_field ← slice exif 2 4
  magic ← uint16 order magic_field
  if not (magic == 42) then ok upright else (do
    offset_field ← slice exif 4 8
    ifd ← uint32 order offset_field
    read_ifd order exif ifd)

unfoldable pub read_orientation : Bytes → Result Fault ℕ
unfolding find_exif_segment markers round segment inspect is_standalone at slice uint16 uint32
    byte_order entry_value scan_entries read_ifd read_tiff bytes_eq
read_orientation raw = do
  exif ← find_exif_segment raw
  if ltb (length exif) 8 then ok upright else (do
    a ← at exif 0
    b ← at exif 1
    elim (byte_order a b) [ none ↦ ok upright | some order ↦ read_tiff order exif ])
