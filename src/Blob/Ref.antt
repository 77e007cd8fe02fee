-- ===== src/Blob/Ref.antt =====
-- `Ref`, `Valid` and `ComputeRef` of go/internal/blob/blob.go. SHA-256 is a parameter.
use foto.Base.{
  ℕ, ◌+◌, ◌-◌, ◌*◌, ◌/◌, ◌%◌, ◌<◌, ◌≡◌, refl, arith, Bool, true, false, ◌&&◌, ◌||◌, [], ◌∷◌, Bytes,
  IsBytes, length, all, ltb, leb, ◌==◌, if◌then◌else◌,
}

abbrev pub Ref : Type 0
Ref = Bytes

-- The digits that `hex.DecodeString` accepts.
abbrev pub is_hex : ℕ → Bool
is_hex c = (leb b'0' c && leb c b'9') || ((leb b'a' c && leb c b'f') || (leb b'A' c && leb c b'F'))

-- `Valid`: 64 hex digits of either case. The length is even, so only a digit can fail to decode.
unfoldable pub valid : Ref → Bool
valid r = if length r == 64 then all is_hex r else false

-- A digit as `hex.EncodeToString` writes it.
abbrev pub hex_digit : ℕ → ℕ
hex_digit n = if ltb n 10 then b'0' + n else b'a' + (n - 10)

unfoldable pub encode_hex : Bytes → Bytes
encode_hex [] = []
encode_hex (b ∷ s) = hex_digit (b / 16) ∷ hex_digit (b % 16) ∷ encode_hex s

-- `crypto/sha256`: 32 bytes for every text.
pub record Sha256 : Type 0 where
  pub sum : Bytes → Bytes
  pub sum_length : (text : Bytes) → length (sum text) ≡ 32
  pub sum-IsBytes : (text : Bytes) → IsBytes (sum text)

unfoldable pub compute_ref : Sha256 → Bytes → Ref
compute_ref sha content = encode_hex (sha.sum content)

-- The digits that the store writes: no upper case.
abbrev pub is_lower_hex : ℕ → Bool
is_lower_hex c = (leb b'0' c && leb c b'9') || (leb b'a' c && leb c b'f')

length-encode_hex : (s : Bytes) → length (encode_hex s) ≡ 2 * length s
unfolding encode_hex
length-encode_hex [] = omega arith
length-encode_hex (b ∷ s) = omega (arith, length-encode_hex s)

hex_digit_lower : (n : ℕ) → n < 16 → is_lower_hex (hex_digit n) ≡ true
hex_digit_lower n h = ground arith

all-encode_hex : (s : Bytes) → IsBytes s → all is_lower_hex (encode_hex s) ≡ true
unfolding encode_hex
all-encode_hex [] h = refl
all-encode_hex (b ∷ s) (small, h) = ground (
  arith,
  hex_digit_lower (b / 16) (omega arith),
  hex_digit_lower (b % 16) (omega arith),
  all-encode_hex s h,
)

-- What the store computes is 64 lower-case hex digits.
pub compute_ref-lower :
    (sha : Sha256) (content : Bytes)
    → (length (compute_ref sha content) ≡ 64) × (all is_lower_hex (compute_ref sha content) ≡ true)
unfolding compute_ref
compute_ref-lower sha content = (
  omega (arith, length-encode_hex (sha.sum content), sha.sum_length content),
  all-encode_hex (sha.sum content) (sha.sum-IsBytes content),
)

all_lower-hex : (r : Bytes) → all is_lower_hex r ≡ true → all is_hex r ≡ true
all_lower-hex [] h = refl
all_lower-hex (c ∷ r) h = ground (arith, all_lower-hex r)

-- Every ref that `ComputeRef` returns is valid.
pub compute_ref-valid : (sha : Sha256) (content : Bytes) → valid (compute_ref sha content) ≡ true
unfolding valid
compute_ref-valid sha content =
    let (size, lower) = compute_ref-lower sha content in
    ground (arith, size, all_lower-hex (compute_ref sha content) lower)
