-- ===== src/Serving/Laws.antt =====
-- What the service sends out.
use foto.Base.{
  ◌≡◌, ap, ◌∙◌, Bool, true, false, Bool-cases, inl, inr, none, some, List, Bytes, codes, is_empty,
  if◌then◌else◌, ok, Result-cases,
}
use foto.Base.Text.{trim_space}
use foto.Blob.Ref.{Sha256, compute_ref}
use foto.Blob.Store.{Store, IsStore, IsAddressed}
use foto.Photo.Sql.{Formats}
use foto.Photo.Subject.{valid_photo_ref}
use foto.Photo.Table.{Row}
use foto.Photo.Query.{Reader, servable}
use foto.Photo.Query.Laws.{IsReader, Exists, Shows, servable-Shows}
use foto.Serving.{shown, is_unknown, is_gone, serve, show_photo_handler}

module _ (formats : Formats) (S : Store) (env : S.Env) where
  serve-shown :
      (kind ref : Bytes) (head : Bool) (s : S.State) (sent content : Bytes)
      → serve formats S env kind ref head s ≡ shown sent (some content)
      → S.get env ref s ≡ ok content
  unfolding serve
  serve-shown kind ref head s sent content h = elim (Result-cases (S.get env ref s)) [
    | inr (e, q) ↦ elim (Bool-cases (is_gone e)) [
      | inl g ↦ absurd (cc (rw (serve, q, g) at h))
      | inr g ↦ absurd (cc (rw (serve, q, g) at h))
    ]
    | inl (found, q) ↦ shown-content head found q (rw (serve, q) at h)
  ]
    where
      shown-content :
          (head : Bool) (found : Bytes)
          → S.get env ref s ≡ ok found
          → shown
              (if is_empty kind then codes "image/jpeg" else kind)
              (if head then none else some found)
            ≡ shown sent (some content)
          → S.get env ref s ≡ ok content
      shown-content true found q h = absurd (cc h)
      shown-content false found q h = let e : found ≡ content = cc h in q ∙ ap ok e

  -- Bytes that the service sends are shown by some row, as its display image or among its renditions,
  -- under the ref of the request, and they are the bytes that this ref is the hash of: a stored object
  -- that is only an original is never sent, and no ref brings another object's bytes. The store keeps
  -- its contract and its objects lie under their hashes.
  pub show_photo_handler-Shows :
      (sha : Sha256) (contents : Bytes → Type 0) (rows : List Row) (reader : Reader)
      (has_blobs : Bool) (param : Bytes) (head : Bool) (s : S.State) (sent content : Bytes)
      → IsStore sha S
      → IsAddressed sha contents S s
      → IsReader rows reader
      → show_photo_handler formats S env (some (some reader)) has_blobs param head s
        ≡ shown sent (some content)
      → Exists (Shows formats (trim_space param)) rows
        × (valid_photo_ref (trim_space param) ≡ true)
        × (compute_ref sha content ≡ trim_space param)
  unfolding show_photo_handler
  show_photo_handler-Shows sha contents rows reader has_blobs param head s sent content law
        addressed good h =
      elim (Bool-cases has_blobs) [
        | inr b ↦ absurd (cc (rw b at h))
        | inl b ↦ elim (Result-cases (servable formats (some reader) (trim_space param))) [
          | inr (e, q) ↦ elim (Bool-cases (is_unknown e)) [
            | inl u ↦ absurd (cc (rw (b, q, u) at h))
            | inr u ↦ absurd (cc (rw (b, q, u) at h))
          ]
          | inl (kind, q) ↦
              let got = serve-shown kind (trim_space param) head s sent content (rw (b, q) at h) in
              let (is_ref, row) =
                servable-Shows formats rows reader (trim_space param) kind good q in
              (
                row,
                is_ref,
                (addressed (trim_space param) content
                    (law.get_view env (trim_space param) s content got)).1,
              )
        ]
      ]
