-- ===== src/Examples/Ingest.antt =====
-- The webhook at concrete inputs.
use foto.Base.{
  ◌≡◌, ◌≢◌, ◌⊎◌, inl, inr, subst, All, bytes_eq, bytes_eq_iff, ok-injective, ◌∙◌, sym, ap, refl,
  arith, true, false, some, [], ◌∷◌, Bytes, codes, ok, err,
}
use foto.Base.Int.{pos}
use foto.Blob.Ref.{compute_ref, encode_hex}
use foto.Base.Decimal.{decimal}
use foto.Blob.Store.{IsCollisionFree, IsAddressed}
use foto.Blob.Memory.{memory_store, put}
use foto.Blob.Memory.Laws.{memory_store-IsStore}
use foto.Base.Dict.{lookup}
use foto.Fetcher.Policy.{check_url, normalise_host, host_allowed, is_http}
use foto.Fetcher.Fetch.{fetch, do_request, next_hop, receive, read_limited, read_limit}
use foto.Photo.Subject.{photographed_subject, entity_subject, valid_subject_token}
use foto.Fetcher.Fetch.Laws.{fetch_whole}
use foto.TeamNumber.{team_not_found, team_id_by_number, pick}
use foto.Base.Text.{trim_space, to_lower, trim_suffix}
use foto.Imaging.Fit.{fit}
use foto.Imaging.Bounds.{check_bounds}
use foto.Imaging.Prepare.{prepare, thumb_name}
use foto.Imaging.Prepare as Prepare
use foto.Ingest.Storing.{store_photo}
use foto.Ingest.Storing.Laws.{IsStored, store_photo-IsStored}
use foto.Ingest.Rejection.{Rejection}
use foto.Ingest.Webhook.{
  KameraPayload, IngestResponse, Application, ready, refuse, ingest, display_edge, thumbnail_edges,
  jpeg_quality,
}
use foto.Ingest.Webhook.Laws.{IsCorpus, IsCall, ingest-IsCall, ingest_unresolved}
use foto.Ingest.Webhook.Accepting.{Stores, ingest_accepts}
use foto.Examples.Toy.{toy_sha, toy_codec, upload, rendered}
use foto.Examples.Fetcher.{no_unicode, toy_network, toy_fetcher, toy_fetcher-made}
use foto.Examples.ReadModel.{toy_broker}

-- One team, whatever the number; the store is in memory.
abbrev pub app : Application (memory_store toy_sha)
app = record {
  event_year = codes "2026";
  webhook_secret = codes "secret";
  teams = some (λ year number. some (codes "team-a" ∷ []));
  photo_table = some (some toy_broker);
  has_blobs = true;
  has_publisher = true;
  unicode_lower = no_unicode;
  network = toy_network;
  fetcher = toy_fetcher;
  codec = toy_codec;
  env = λ n. false;
  now = some 7;
}

abbrev pub payload : KameraPayload
payload = record {
  team_number = codes "42";
  kind = codes "start";
  attention = false;
  image_url = codes "https://a.dk/1";
  created_at = some 5;
}

-- The contents that occur: the upload, and what its display image and its thumbnails come to.
abbrev pub IsContent : Bytes → Type 0
IsContent b = (b ≡ upload) ⊎ (b ≡ rendered)

refs-differ : bytes_eq (compute_ref toy_sha upload) (compute_ref toy_sha rendered) ≡ false
unfolding compute_ref encode_hex bytes_eq
refs-differ = refl

refs-apart : compute_ref toy_sha upload ≢ compute_ref toy_sha rendered
refs-apart same = absurd (cc (sym ((bytes_eq_iff _ _).1 same) ∙ refs-differ))

pub contents-IsCollisionFree : IsCollisionFree toy_sha IsContent
contents-IsCollisionFree a b (inl p) (inl q) e = p ∙ sym q
contents-IsCollisionFree a b (inl p) (inr q) e =
    absurd (refs-apart (ap (compute_ref toy_sha) (sym p) ∙ (e ∙ ap (compute_ref toy_sha) q)))
contents-IsCollisionFree a b (inr p) (inl q) e =
    absurd (refs-apart (ap (compute_ref toy_sha) (sym q) ∙ (sym e ∙ ap (compute_ref toy_sha) p)))
contents-IsCollisionFree a b (inr p) (inr q) e = p ∙ sym q

some-injective {ℓ} : {A : Type ℓ} {a b : A} → some a ≡ some b → a ≡ b
some-injective h = cc

fetched_upload :
    (url photo kind : Bytes)
    → (fetch no_unicode toy_network toy_fetcher url).0 ≡ ok (photo, kind)
    → photo ≡ upload
fetched_upload url photo kind h =
    let (n, u, response, _, sent, received) =
      fetch_whole no_unicode toy_network (codes "a.dk" ∷ []) (pos 1000) (pos 30) toy_fetcher url
        photo kind (omega arith) toy_fetcher-made h in
    received.whole ∙ ap (λ r. r.body.bytes) (sym (some-injective sent))

-- What `Prepare` makes of the upload.
abbrev made_upload : Prepare.Photo
made_upload = record {
  display = record { name = []; bytes = rendered; width = 3; height = 2 };
  thumbs =
      record { name = codes "thumb1024"; bytes = rendered; width = 3; height = 2 }
      ∷ record { name = codes "thumb256"; bytes = rendered; width = 3; height = 2 }
      ∷ [];
  orientation = 1;
  format = codes "png";
}

upload-made : prepare toy_codec upload display_edge thumbnail_edges jpeg_quality ≡ ok made_upload
unfolding prepare check_bounds thumb_name decimal fit bytes_eq
upload-made = refl

pub app-IsCorpus : IsCorpus IsContent app payload
app-IsCorpus = record {
  fetched = λ photo kind f. inl (fetched_upload payload.image_url photo kind f);
  prepared = λ photo kind made f p.
      let same : made_upload ≡ made = ok-injective (
        sym upload-made
        ∙ (ap (λ raw. prepare toy_codec raw display_edge thumbnail_edges jpeg_quality)
              (sym (fetched_upload payload.image_url photo kind f))
            ∙ p)) in
      subst (λ m. IsContent m.display.bytes × All (λ r. IsContent r.bytes) m.thumbs) same
        (inr refl, (inr refl, (inr refl, tt)));
}

pub empty-IsAddressed : IsAddressed toy_sha IsContent (memory_store toy_sha) []
unfolding lookup
empty-IsAddressed r c h = cc h

ingest-IsCall_example :
    IsCall toy_sha IsContent
      (memory_store toy_sha)
      (memory_store-IsStore toy_sha)
      contents-IsCollisionFree
      app
      payload
      app-IsCorpus
      []
      []
      (ingest app payload [] [])
ingest-IsCall_example =
    ingest-IsCall toy_sha IsContent (memory_store toy_sha) (memory_store-IsStore toy_sha)
      contents-IsCollisionFree app payload app-IsCorpus [] [] empty-IsAddressed

store_photo-IsStored_example :
    IsStored toy_sha IsContent
      (memory_store toy_sha)
      (memory_store-IsStore toy_sha)
      contents-IsCollisionFree
      toy_codec
      (λ n. false)
      upload
      []
      (store_photo toy_codec (memory_store toy_sha) (λ n. false) upload made_upload [])
store_photo-IsStored_example =
    store_photo-IsStored toy_sha IsContent (memory_store toy_sha) (memory_store-IsStore toy_sha)
      contents-IsCollisionFree toy_codec (λ n. false) upload made_upload [] (inl refl) (inr refl)
      (inr refl, (inr refl, tt)) empty-IsAddressed

-- No team has the number.
abbrev unknown : Application (memory_store toy_sha)
unknown = record app { teams = some (λ year number. some []) }

unknown-fails : team_id_by_number unknown.teams (codes "2026") (codes "42") ≡ err team_not_found
unfolding team_id_by_number pick trim_space
unknown-fails = refl

ingest_unresolved_example :
    (rejection : Rejection) × (ingest unknown payload [] [] ≡ refuse unknown rejection [] [] [])
ingest_unresolved_example = ingest_unresolved unknown payload [] [] team_not_found unknown-fails

app-ready : ready app ≡ true
unfolding ready
app-ready = refl

team-found : team_id_by_number app.teams (codes "2026") (codes "42") ≡ ok (codes "team-a")
unfolding team_id_by_number pick trim_space
team-found = refl

upload-fetched :
    (fetch no_unicode toy_network toy_fetcher (codes "https://a.dk/1")).0
    ≡ ok (upload, codes "image/png")
unfolding fetch do_request next_hop receive read_limited read_limit check_url normalise_host
    host_allowed is_http trim_space to_lower trim_suffix bytes_eq
upload-fetched = refl

memory-Stores : Stores (memory_store toy_sha) app.env
unfolding put
memory-Stores n c s = (compute_ref toy_sha c, refl)

team-subject :
    photographed_subject (codes "2026") (codes "team-a")
    ≡ ok (codes "NATHEJK.2026.patrulje.team-a.photographed")
unfolding photographed_subject entity_subject valid_subject_token
team-subject = refl

ingest_accepts_example :
    (res : IngestResponse) × ((ingest app payload [] []).outcome ≡ ok res)
    × (res.year ≡ codes "2026")
    × (res.team_id ≡ codes "team-a")
    × (res.ref ≡ compute_ref toy_sha rendered)
ingest_accepts_example =
    ingest_accepts toy_sha (memory_store toy_sha) (memory_store-IsStore toy_sha) app payload
      (codes "team-a") upload (codes "image/png") made_upload toy_broker
      (codes "NATHEJK.2026.patrulje.team-a.photographed") [] [] app-ready refl team-found
      upload-fetched upload-made memory-Stores refl (refl, refl, refl) team-subject
