-- ===== src/Imaging/Prepare.antt =====
-- `Prepare`, `Dimensions`, `ThumbName`, `render` and `encode` of go/internal/imaging/imaging.go. The
-- decoders and the JPEG encoder of package `image` are a parameter.
pub mod Laws
use foto.Base.{
  ℕ, Bool, true, false, Option, none, some, List, [], ◌∷◌, ◌++◌, Bytes, codes, bytes_eq, Result, ok,
  err, ◌>>=◌, if◌then◌else◌,
}
use foto.Base.Int.{ℤ}
use foto.Base.Decimal.{decimal}
use foto.Imaging.Image.{Image}
use foto.Imaging.Exif.{Fault, read_orientation, upright}
use foto.Imaging.Orient.{apply_orientation}
use foto.Imaging.Fit.{fit}
use foto.Imaging.Bounds.{Error, not_an_image, encode_failed, panic, check_bounds}

-- Package `image`: the size that a header declares, the decoded image with the name of its format,
-- and the bytes of a JPEG file at a quality. `none` is an error.
pub record Codec : Type 0 where
  pub decode_config : Bytes → Option (ℤ × ℤ)
  pub decode : Bytes → Option (Image × Bytes)
  pub encode : Image → ℕ → Option Bytes

pub record Rendition : Type 0 where
  pub name : Bytes
  pub bytes : Bytes
  pub width : ℕ
  pub height : ℕ

pub record Photo : Type 0 where
  pub display : Rendition
  pub thumbs : List Rendition
  pub orientation : ℕ
  pub format : Bytes

unfoldable pub thumb_name : ℕ → Bytes
thumb_name edge = codes "thumb" ++ decimal edge

-- An absent value is the error `e`.
abbrev pub required {ℓ} : {A : Type ℓ} → Error → Option A → Result Error A
required e none = err e
required e (some a) = ok a

-- A fault is a panic.
abbrev pub running {ℓ} : {A : Type ℓ} → Result Fault A → Result Error A
running (ok a) = ok a
running (err e) = err (panic e)

module _ (codec : Codec) where
  open codec use {decode_config, decode, encode}

  unfoldable pub dimensions : Bytes → Result Error (ℤ × ℤ)
  dimensions raw = do
    size ← required not_an_image (decode_config raw)
    checked ← check_bounds size.0 size.1
    ok size

  pub render : Image → Bytes → ℕ → ℕ → Result Error Rendition
  render img name edge quality = do
    let scaled = fit img edge
    encoded ← required encode_failed (encode scaled quality)
    ok (record { name = name; bytes = encoded; width = scaled.width; height = scaled.height })

  -- The loop over `thumbEdges`.
  pub render_thumbs : Image → List ℕ → ℕ → Result Error (List Rendition)
  render_thumbs img [] quality = ok []
  render_thumbs img (edge ∷ edges) quality = do
    thumb ← render img (thumb_name edge) edge quality
    thumbs ← render_thumbs img edges quality
    ok (thumb ∷ thumbs)

  -- The orientation that is recorded, and the image with it applied: only a JPEG carries the tag.
  pub orientation_of : Bytes → Bytes → Result Error ℕ
  orientation_of raw format =
      if bytes_eq format (codes "jpeg") then running (read_orientation raw) else ok upright

  pub oriented : Image → Bytes → ℕ → Image
  oriented img format o = if bytes_eq format (codes "jpeg") then apply_orientation img o else img

  unfoldable pub prepare : Bytes → ℕ → List ℕ → ℕ → Result Error Photo
  unfolding render render_thumbs orientation_of oriented
  prepare raw edge thumb_edges quality = do
    size ← required not_an_image (decode_config raw)
    checked ← check_bounds size.0 size.1
    decoded ← required not_an_image (decode raw)
    orientation ← orientation_of raw decoded.1
    let img = oriented decoded.0 decoded.1 orientation
    display ← render img [] edge quality
    thumbs ← render_thumbs img thumb_edges quality
    ok (record {
      display = display;
      thumbs = thumbs;
      orientation = orientation;
      format = decoded.1;
    })
