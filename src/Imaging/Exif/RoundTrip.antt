-- ===== src/Imaging/Exif/RoundTrip.antt =====
-- A JPEG file written with an orientation in its Exif segment, and what `ReadOrientation` makes of it.
use foto.Base.{ℕ, ◌+◌, ◌≡◌, ◌≢◌, false, List, [], ◌∷◌, ◌++◌, Bytes, length}
use foto.Imaging.Exif.{big_endian, is_standalone, exif_header}
use foto.Imaging.Exif.Written.{put16}

-- A JPEG segment with a length: its marker and its payload.
pub record Segment : Type 0 where
  pub marker : ℕ
  pub payload : Bytes

abbrev pub segment_bytes : Segment → Bytes
segment_bytes s = 0xFF ∷ s.marker ∷ (put16 big_endian (length s.payload + 2) ++ s.payload)

abbrev pub IsSegment : Segment → Type 0
IsSegment s = (s.marker ≢ 0xDA) × (is_standalone s.marker ≡ false)

-- A segment that may stand before the Exif segment.
abbrev pub IsSkipped : Segment → Type 0
IsSkipped s = IsSegment s × (s.marker ≢ 0xE1)

abbrev pub segments_bytes : List Segment → Bytes
segments_bytes [] = []
segments_bytes (s ∷ ss) = segment_bytes s ++ segments_bytes ss

abbrev pub exif_segment : Bytes → Segment
exif_segment tiff = record { marker = 0xE1; payload = exif_header ++ tiff }

-- A JPEG file: other segments, the Exif segment, and whatever follows it.
abbrev pub jpeg_bytes : List Segment → Bytes → Bytes → Bytes
jpeg_bytes ss tiff r = 0xFF ∷ 0xD8 ∷ (segments_bytes ss ++ (segment_bytes (exif_segment tiff) ++ r))
