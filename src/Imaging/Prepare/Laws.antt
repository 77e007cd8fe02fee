-- ===== src/Imaging/Prepare/Laws.antt =====
-- What `Prepare` returns, and when it refuses.
use foto.Base.{
  ℕ, ◌≤◌, ◌≡◌, arith, Option, none, some, List, [], ◌∷◌, Bytes, subst, ok, err, >>=-eq-ok,
  ok-injective,
}
use foto.Base.Int.{ℤ}
use foto.Imaging.Image.{Image}
use foto.Imaging.Exif.Total.{read_orientation_total}
use foto.Imaging.Fit.{fit}
use foto.Imaging.Bounds.{Error, not_an_image, check_bounds, IsBounded, check_bounds_iff}
use foto.Imaging.Prepare.{
  Codec, Rendition, Photo, thumb_name, required, dimensions, render, render_thumbs, orientation_of,
  oriented, prepare,
}

module _ (codec : Codec) (img : Image) (quality : ℕ) where
  -- A rendition of the image: its size is what `Fit` makes of it, and its bytes are the encoder's.
  abbrev pub IsRendered : Bytes → ℕ → Rendition → Type 0
  IsRendered name edge r =
      (r.name ≡ name)
      × (r.width ≡ (fit img edge).width)
      × (r.height ≡ (fit img edge).height)
      × (codec.encode (fit img edge) quality ≡ some r.bytes)

  -- One for each edge, in order, under its name.
  abbrev pub AreThumbs : List ℕ → List Rendition → Type 0
  AreThumbs [] [] = Unit
  AreThumbs [] (r ∷ rs) = ⊥
  AreThumbs (e ∷ es) [] = ⊥
  AreThumbs (e ∷ es) (r ∷ rs) = IsRendered (thumb_name e) e r × AreThumbs es rs

  render-IsRendered :
      (name : Bytes) (edge : ℕ) {r : Rendition}
      → render codec img name edge quality ≡ ok r
      → IsRendered name edge r
  unfolding render
  render-IsRendered name edge h = ground arith

  render_thumbs-AreThumbs :
      (edges : List ℕ) {rs : List Rendition}
      → render_thumbs codec img edges quality ≡ ok rs
      → AreThumbs edges rs
  unfolding render_thumbs
  render_thumbs-AreThumbs [] {rs = []} h = tt
  render_thumbs-AreThumbs [] {rs = r ∷ rs} h = cc
  render_thumbs-AreThumbs (e ∷ es) {rs} h =
      let (thumb, p, h') = >>=-eq-ok (render codec img (thumb_name e) e quality) _ h in
      let (thumbs, q, h'') = >>=-eq-ok (render_thumbs codec img es quality) _ h' in
      subst (AreThumbs (e ∷ es)) (ok-injective h'')
        (render-IsRendered (thumb_name e) e p, render_thumbs-AreThumbs es q)

-- What a prepared photo says of the upload that it comes from.
pub record IsPrepared (codec : Codec) (raw : Bytes) (edge : ℕ) (edges : List ℕ) (quality : ℕ)
    (w h : ℤ) (img : Image) (photo : Photo) : Type 0 where
  pub header : codec.decode_config raw ≡ some (w, h)
  pub bounded : IsBounded w h
  pub decoded : codec.decode raw ≡ some (img, photo.format)
  pub orientation_lo : 1 ≤ photo.orientation
  pub orientation_hi : photo.orientation ≤ 8
  pub display :
      IsRendered codec
        (oriented codec img photo.format photo.orientation)
        quality
        []
        edge
        photo.display
  pub thumbs :
      AreThumbs codec (oriented codec img photo.format photo.orientation) quality edges photo.thumbs

required-eq-ok {ℓ} :
    {A : Type ℓ} (e : Error) (o : Option A) {a : A} → required e o ≡ ok a → o ≡ some a
required-eq-ok e none h = cc
required-eq-ok e (some a) h = cc

orientation_of-range :
    (codec : Codec) (raw format : Bytes) {o : ℕ}
    → orientation_of codec raw format ≡ ok o
    → (1 ≤ o) × (o ≤ 8)
unfolding orientation_of
orientation_of-range codec raw format h =
    let (v, e, lo, hi) = read_orientation_total raw in ground arith

module _ (codec : Codec) (raw : Bytes) (edge : ℕ) (edges : List ℕ) (quality : ℕ) where
  pub prepare_sound :
      {photo : Photo}
      → prepare codec raw edge edges quality ≡ ok photo
      → (w : ℤ) × (h : ℤ) × (img : Image) × IsPrepared codec raw edge edges quality w h img photo
  unfolding prepare
  prepare_sound {photo} h =
      let (size, h0, h) = >>=-eq-ok (required not_an_image (codec.decode_config raw)) _ h in
      let (checked, h1, h) = >>=-eq-ok (check_bounds size.0 size.1) _ h in
      let (decoded, h2, h) = >>=-eq-ok (required not_an_image (codec.decode raw)) _ h in
      let (o, h3, h) = >>=-eq-ok (orientation_of codec raw decoded.1) _ h in
      let img = oriented codec decoded.0 decoded.1 o in
      let (display, h4, h) = >>=-eq-ok (render codec img [] edge quality) _ h in
      let (thumbs, h5, h) = >>=-eq-ok (render_thumbs codec img edges quality) _ h in
      (
        size.0,
        size.1,
        decoded.0,
        subst (IsPrepared codec raw edge edges quality size.0 size.1 decoded.0) (ok-injective h)
            (record {
              header = required-eq-ok _ _ h0;
              bounded = (check_bounds_iff size.0 size.1).0 h1;
              decoded = required-eq-ok _ _ h2;
              orientation_lo = (orientation_of-range codec raw decoded.1 h3).0;
              orientation_hi = (orientation_of-range codec raw decoded.1 h3).1;
              display = render-IsRendered codec img quality [] edge h4;
              thumbs = render_thumbs-AreThumbs codec img quality edges h5;
            }),
      )

  -- What `Dimensions` refuses `Prepare` refuses with the same error, whatever the decoder and the
  -- encoder would do: an image above the limits is turned away on its header alone.
  pub prepare_refused :
      (e : Error) (decode : Bytes → Option (Image × Bytes)) (encode : Image → ℕ → Option Bytes)
      → dimensions codec raw ≡ err e
      → prepare (record codec { decode = decode; encode = encode }) raw edge edges quality ≡ err e
  unfolding prepare dimensions
  prepare_refused e decode encode h = ground arith

  -- What `Prepare` accepts `Dimensions` measures: it returns the size that the header declares.
  pub prepare-dimensions :
      {photo : Photo}
      → prepare codec raw edge edges quality ≡ ok photo
      → (w : ℤ) × (h : ℤ) × (codec.decode_config raw ≡ some (w, h))
        × (dimensions codec raw ≡ ok (w, h))
  unfolding dimensions
  prepare-dimensions p =
      let (w, h, img, q) = prepare_sound p in
      (w, h, q.header, rw (q.header, (check_bounds_iff w h).1 q.bounded))
