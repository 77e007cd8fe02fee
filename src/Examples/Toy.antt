-- ===== src/Examples/Toy.antt =====
-- Inputs that the examples share: small stand-ins for the parameters of the model.
use foto.Base.{ℕ, zero, suc, ◌%◌, refl, arith, [], ◌∷◌, Bytes, IsBytes, length, codes, some}
use foto.Base.Int.{pos}
use foto.Imaging.Image.{Image}
use foto.Imaging.Prepare.{Codec}
use foto.Blob.Ref.{Sha256}

abbrev pub zeros : ℕ → Bytes
zeros zero = []
zeros (suc n) = 0 ∷ zeros n

pub zeros-IsBytes : (n : ℕ) → IsBytes (zeros n)
zeros-IsBytes zero = tt
zeros-IsBytes (suc n) = (omega arith, zeros-IsBytes n)

-- A sum that keeps the length of the text only.
abbrev pub toy_sha : Sha256
toy_sha = record {
  sum = λ text. length text % 256 ∷ zeros 31;
  sum_length = λ text. refl;
  sum-IsBytes = λ text. (omega arith, zeros-IsBytes 31);
}

abbrev pub small_image : Image
small_image = record {
  width = 3;
  height = 2;
  pixel = λ x y. record { r = x % 256; g = y % 256; b = 10; a = 255 };
}

abbrev pub upload : Bytes
upload = codes "png"

-- The small image as the encoder writes it.
abbrev pub rendered : Bytes
rendered = 3 ∷ 2 ∷ 85 ∷ 0 ∷ []

-- Every file is a PNG of the small image, and a JPEG has the size of its image and its quality.
abbrev pub toy_codec : Codec
toy_codec = record {
  decode_config = λ raw. some (pos 3, pos 2);
  decode = λ raw. some (small_image, codes "png");
  encode = λ img quality. some (img.width % 256 ∷ img.height % 256 ∷ quality % 256 ∷ 0 ∷ []);
}
