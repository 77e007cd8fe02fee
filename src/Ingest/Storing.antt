-- ===== src/Ingest/Storing.antt =====
-- `storePhoto` of go/cmd/api/ingest.go.
pub mod Laws
use foto.Base.{
  Bytes, ℕ, suc, ◌+◌, Bool, true, false, Option, none, some, List, [], ◌∷◌, length, codes, bytes_eq,
  is_empty, if◌then◌else◌, Result, ok, err,
}
use foto.Base.Int.{ℤ, pos}
use foto.Blob.Store.{Store, StoreError}
use foto.Imaging.Prepare.{Codec, Rendition, dimensions}
use foto.Imaging.Prepare as Prepare
use foto.Photo.Messages.{PhotoRendition, PhotoOriginal}

pub data StoreFailure : Type 0 where
  put_failed : StoreError → StoreFailure
  unmeasured : StoreFailure

pub record StoredPhoto : Type 0 where
  pub display : PhotoRendition
  pub renditions : List PhotoRendition
  pub original : PhotoOriginal

unfoldable pub content_type_for_format : Bytes → Bytes
content_type_for_format format =
    if bytes_eq format (codes "jpeg")
    then codes "image/jpeg"
    else if bytes_eq format (codes "png")
    then codes "image/png"
    else if bytes_eq format (codes "gif")
    then codes "image/gif"
    else codes "application/octet-stream"

-- The event's record of a rendition that is stored under a ref.
abbrev pub recorded : Rendition → Bytes → PhotoRendition
recorded r ref = record {
  name = r.name;
  ref = ref;
  content_type = codes "image/jpeg";
  bytes = pos (length r.bytes);
  width = pos r.width;
  height = pos r.height;
}

-- `env n` is what the n-th `Put` meets.
module _ (codec : Codec) (S : Store) (env : ℕ → S.Env) where
  -- The loop over the thumbnails, at `n` objects put.
  unfoldable pub store_thumbs :
      ℕ → List Rendition → S.State → Result StoreFailure (List PhotoRendition) × S.State
  store_thumbs n [] s = (ok [], s)
  store_thumbs n (thumb ∷ thumbs) s =
      let skipped = store_thumbs n thumbs s in
      let put = S.put (env n) thumb.bytes s in
      let rest = store_thumbs (suc n) thumbs put.1 in
      if is_empty thumb.bytes then skipped else (elim put.0 [
        | err e ↦ (err (put_failed e), put.1)
        | ok ref ↦ elim rest.0 [
          | err e ↦ (err e, rest.1)
          | ok renditions ↦ (ok (recorded thumb ref ∷ renditions), rest.1)
        ]
      ])

  unfoldable pub store_photo :
      Bytes → Prepare.Photo → S.State → Result StoreFailure StoredPhoto × S.State
  unfolding store_thumbs content_type_for_format
  store_photo raw prepared s =
      let original = S.put (env 0) raw s in
      elim original.0 [
        | err e ↦ (err (put_failed e), original.1)
        | ok original_ref ↦ elim (dimensions codec raw) [
          | err e ↦ (err unmeasured, original.1)
          | ok size ↦
              let display = S.put (env 1) prepared.display.bytes original.1 in
              elim display.0 [
                | err e ↦ (err (put_failed e), display.1)
                | ok display_ref ↦
                    let thumbs = store_thumbs 2 prepared.thumbs display.1 in
                    elim thumbs.0 [
                      | err e ↦ (err e, thumbs.1)
                      | ok renditions ↦ (
                        ok (record {
                          display = record (recorded prepared.display display_ref) { name = [] };
                          renditions = renditions;
                          original = record {
                            ref = original_ref;
                            content_type = content_type_for_format prepared.format;
                            bytes = pos (length raw);
                            width = size.0;
                            height = size.1;
                            orientation = pos prepared.orientation;
                          };
                        }),
                        thumbs.1,
                      )
                    ]
              ]
        ]
      ]
