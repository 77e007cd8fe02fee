-- ===== src/Pipeline/Shown.antt =====
-- A photograph that the webhook accepted can be seen.
use foto.Base.{
  ◌≡◌, ◌≢◌, ◌⊎◌, inl, inr, refl, sym, ap, ◌∙◌, subst, Bool, true, Bool-cases, none, some,
  Option-cases, Bytes, codes, is_empty, ok, err, Result-cases, if◌then◌else◌,
}
use foto.Base.Text.{trim_space}
use foto.Blob.Ref.{Ref, Sha256}
use foto.Blob.Store.{
  Store, StoreError, cancelled, invalid_ref, not_found, io, IsStore, IsHonest, IsCollisionFree,
  IsAddressed,
}
use foto.Photo.Subject.{Subject, valid_photo_ref}
use foto.Photo.Sql.{Formats}
use foto.Photo.Commands.{Log}
use foto.Photo.Table.{Row}
use foto.Photo.Query.{Reader, servable}
use foto.Photo.Replay.{Key, Database, IsDatabase, replay}
use foto.Photo.Replay.Erasure.{AreRows}
use foto.Ingest.Storing.Laws.{Keeps}
use foto.Ingest.Webhook.{Application, KameraPayload, IngestResponse, ingest}
use foto.Ingest.Webhook.Laws.{IsCorpus}
use foto.Serving.{Response, failed, shown, is_gone, serve, show_photo_handler}
use foto.Pipeline.{history, IsMatch, IsMarshal}
use foto.Pipeline.Recorded.{IsHeld, ingest-IsKeptPhoto}

-- A query for a display image that succeeds finds every row of the table.
abbrev pub IsView : (db : Database) → db.State → Reader → Type 0
IsView db d reader =
    (k : Key) (row : Row) → db.row_at d k ≡ some row → reader.display row.ref ≢ some none

gone-view :
    (S : Store) (env : S.Env) (r : Ref) (s : S.State) (e : StoreError)
    → IsHonest S
    → S.get env r s ≡ err e
    → is_gone e ≡ true
    → S.view s r ≡ none
gone-view S env r s not_found honest h g = honest env r s h
gone-view S env r s cancelled honest h g = absurd (cc g)
gone-view S env r s invalid_ref honest h g = absurd (cc g)
gone-view S env r s io honest h g = absurd (cc g)

module _ (formats : Formats) (S : Store) (env : S.Env) (honest : IsHonest S) (sha : Sha256)
    (store : IsStore sha S) where
  -- The answer is an error where the database or the store returns one, or the object, or for a HEAD its
  -- headers.
  abbrev pub IsAnswered : Reader → Response → Bool → S.State → Bytes → Type 0
  IsAnswered reader response head s ref =
      ((response ≡ failed)
        × ((reader.display ref ≡ none) ⊎ ((e : StoreError) × (S.get env ref s ≡ err e))))
      ⊎ ((kind content : Bytes) × (S.view s ref ≡ some content)
          × (response ≡ shown kind (if head then none else some content)))

  serve-IsAnswered :
      (reader : Reader) (kind ref content : Bytes) (head : Bool) (s : S.State)
      → S.view s ref ≡ some content
      → IsAnswered reader (serve formats S env kind ref head s) head s ref
  unfolding serve
  serve-IsAnswered reader kind ref content head s held = elim (Result-cases (S.get env ref s)) [
    | inl (b, e) ↦ inr (
      if is_empty kind then codes "image/jpeg" else kind,
      b,
      store.get_view env ref s b e,
      rw (serve, e) refl,
    )
    | inr (x, e) ↦ elim (Bool-cases (is_gone x)) [
      | inl g ↦ absurd (cc (sym (gone-view S env ref s x honest e g) ∙ held))
      | inr g ↦ inl (rw (serve, e, g) refl, inr (x, e))
    ]
  ]

  show_photo_handler-IsAnswered :
      (reader : Reader) (param content : Bytes) (head : Bool) (s : S.State)
      → valid_photo_ref (trim_space param) ≡ true
      → reader.display (trim_space param) ≢ some none
      → S.view s (trim_space param) ≡ some content
      → IsAnswered reader
          (show_photo_handler formats S env (some (some reader)) true param head s)
          head
          s
          (trim_space param)
  unfolding show_photo_handler servable
  show_photo_handler-IsAnswered reader param content head s valid known held =
      elim (Option-cases (reader.display (trim_space param))) [
        | inl e ↦ inl (rw (valid, e) refl, inl e)
        | inr (found, e) ↦ elim (Option-cases found) [
          | inl f ↦ absurd (known (e ∙ ap some f))
          | inr (kind, f) ↦
              let same : show_photo_handler formats S env (some (some reader)) true param head s
                  ≡ serve formats S env kind (trim_space param) head s =
                rw (valid, e, f) refl in
              subst (λ r. IsAnswered reader r head s (trim_space param)) (sym same)
                (serve-IsAnswered reader kind (trim_space param) content head s held)
        ]
      ]

  module _ (matches : Subject → Bytes → Bool) (good : IsMarshal formats) (bus : IsMatch matches)
      (db : Database) (law : IsDatabase db) (contents : Bytes → Type 0)
      (free : IsCollisionFree sha contents) (app : Application S) (payload : KameraPayload)
      (corpus : IsCorpus contents app payload) where
    -- A photograph that `ingest` accepted is never answered as missing: on a store that has lost
    -- nothing since and a table that the log was replayed on, a request for its ref is answered with the
    -- stored object, or for a HEAD with its headers, unless the database or the store
    -- returns an error. The table before has rows of photographs, its columns hold the row, the database and the bus behave as documented, and the store keeps its contract and
    -- is addressed by content, without collisions among the contents concerned.
    pub accepted-IsAnswered :
        (s later : S.State) (log : Log) (res : IngestResponse) (d : db.State) (reader : Reader)
        (param : Bytes) (head : Bool)
        → IsAddressed sha contents S s
        → AreRows db.engine (db.row_at d)
        → IsHeld formats matches good bus db law (ingest app payload s log).log
        → (ingest app payload s log).outcome ≡ ok res
        → Keeps S (ingest app payload s log).objects later
        → IsView db (replay formats matches db (history (ingest app payload s log).log) d) reader
        → trim_space param ≡ res.ref
        → IsAnswered reader
            (show_photo_handler formats S env (some (some reader)) true param head later)
            head
            later
            (trim_space param)
    accepted-IsAnswered s later log res d reader param head addressed rows held accepted keeps sees
          asked =
        let kept =
          ingest-IsKeptPhoto formats matches good bus db law sha contents S store free app payload
            corpus s log res d addressed rows held accepted in
        let same = kept.ref ∙ sym asked in
        show_photo_handler-IsAnswered reader param kept.content head later
          (subst (λ r. valid_photo_ref r ≡ true) same kept.ref_valid)
          (subst (λ r. reader.display r ≢ some none) same (sees _ kept.row kept.found))
          (subst (λ r. S.view later r ≡ some kept.content) same (keeps _ kept.content kept.stored))
