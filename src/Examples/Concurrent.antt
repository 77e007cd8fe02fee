-- ===== src/Examples/Concurrent.antt =====
-- Two calls of the webhook at the same time, at concrete inputs.
use foto.Blob.Ref.{compute_ref, encode_hex}
use foto.Base.{ℕ, turns, ◌≡◌, refl, subst, arith, some, List, [], ◌∷◌, codes, bytes_eq}
use foto.Blob.Memory.{memory_store, put}
use foto.Blob.Memory.Laws.{memory_store-IsStore}
use foto.Photo.Table.{
  handle_message, handle_photographed, photographed_row, smallest_rendition, thumb_ref_of, truncate,
  original_of, valid_renditions, better_edge, edge_of, max_int, named,
}
use foto.Photo.Replay.{key_of, replay, deliver, statement_of, key_eq, apply}
use foto.Ingest.Webhook.{KameraPayload, Answer, webhook_authorized, ready, command}
use foto.Ingest.Webhook.Laws.{IsCorpus}
use foto.Pipeline.{history}
use foto.Concurrent.{Call, arrived, answered, System, run}
use foto.Concurrent.Ending.{run-answered}
use foto.Concurrent.Invariant.Schedule.{AreCorpus, IsSettled, run-IsSettled}
use foto.Concurrent.Rows.{IsShowable, run-rows-IsShowable}
use foto.Examples.Toy.{toy_sha}
use foto.Examples.Ingest.{
  app, payload, IsContent, contents-IsCollisionFree, app-IsCorpus, empty-IsAddressed,
}
use foto.Examples.Pipeline.{
  toy_database, toy_database-IsDatabase, toy_matches, toy_formats, no_rows, row,
}
use foto.TeamNumber.{team_id_by_number, pick}
use foto.Base.Text.{trim_space, to_lower, trim_suffix}
use foto.Fetcher.Fetch.{fetch, do_request, next_hop, read_limit, read_limited, receive}
use foto.Fetcher.Policy.{check_url, normalise_host, host_allowed, is_http}
use foto.Imaging.Prepare.{prepare, dimensions, thumb_name}
use foto.Imaging.Bounds.{check_bounds}
use foto.Photo.Commands.{publish, event_of, publish_event}
use foto.Base.Decimal.{decimal, decimal_ℤ}
use foto.Base.Dict.{insert}
use foto.Ingest.Storing.{content_type_for_format}
use foto.Photo.Sql.{encode_renditions}
use foto.Photo.Subject.{
  match_pattern, entity_subject, photographed_subject, valid_photo_ref, valid_subject_token,
  subject_part, subject_team_id, subject_year,
}
use foto.Base.Split.{split}
use foto.Imaging.Fit.{fit}

some-injective {ℓ} : {A : Type ℓ} {a b : A} → some a ≡ some b → a ≡ b
some-injective h = cc

-- Everyone sends the same photograph.
abbrev calls : ℕ → Call (memory_store toy_sha)
calls i = record { app = app; given = codes "secret"; payload = some payload }

abbrev start : System (memory_store toy_sha)
start = record { objects = []; log = []; phases = λ i. arrived }

abbrev turn_by_turn : List ℕ
turn_by_turn = 0 ∷ 1 ∷ 0 ∷ 0 ∷ 1 ∷ 1 ∷ 0 ∷ 1 ∷ 0 ∷ 1 ∷ 0 ∷ 0 ∷ []

-- The first call has its seven turns, the second one is cut off.
run-answered_example : (a : Answer) × ((run calls turn_by_turn start).phases 0 ≡ answered a)
unfolding turns
run-answered_example = run-answered calls 0 turn_by_turn start refl (omega arith)

-- Every call of the schedule stores what is made of the upload.
same_payload-IsCorpus : (p : KameraPayload) → some payload ≡ some p → IsCorpus IsContent app p
same_payload-IsCorpus p h = subst (IsCorpus IsContent app) (some-injective h) app-IsCorpus

corpus :
    AreCorpus toy_sha IsContent
      (memory_store toy_sha)
      (memory_store-IsStore toy_sha)
      contents-IsCollisionFree
      calls
      turn_by_turn
corpus = (
  same_payload-IsCorpus,
  (
    same_payload-IsCorpus,
    (
      same_payload-IsCorpus,
      (
        same_payload-IsCorpus,
        (
          same_payload-IsCorpus,
          (
            same_payload-IsCorpus,
            (
              same_payload-IsCorpus,
              (
                same_payload-IsCorpus,
                (
                  same_payload-IsCorpus,
                  (same_payload-IsCorpus, (same_payload-IsCorpus, (same_payload-IsCorpus, tt))),
                ),
              ),
            ),
          ),
        ),
      ),
    ),
  ),
)

run-IsSettled_example :
    IsSettled toy_sha IsContent
      (memory_store toy_sha)
      (memory_store-IsStore toy_sha)
      contents-IsCollisionFree
      calls
      start
      (run calls turn_by_turn start)
run-IsSettled_example =
    run-IsSettled toy_sha IsContent (memory_store toy_sha) (memory_store-IsStore toy_sha)
      contents-IsCollisionFree calls turn_by_turn start corpus empty-IsAddressed tt (λ i. refl)

row-found :
    toy_database.row_at
      (replay toy_formats toy_matches toy_database
        (history (run calls turn_by_turn start).log)
        no_rows)
      (key_of row)
    ≡ some row
unfolding run replay history webhook_authorized bytes_eq ready team_id_by_number trim_space fetch
    check_url to_lower normalise_host trim_suffix prepare check_bounds put dimensions publish
    decimal decimal_ℤ insert compute_ref encode_hex do_request next_hop read_limit read_limited
    receive host_allowed is_http content_type_for_format command event_of publish_event deliver
    statement_of encode_renditions entity_subject photographed_subject valid_photo_ref
    valid_subject_token handle_message handle_photographed photographed_row smallest_rendition
    thumb_ref_of truncate original_of valid_renditions pick key_eq apply subject_part
    subject_team_id subject_year fit better_edge edge_of max_int named match_pattern split
    thumb_name
row-found = refl

run-rows-IsShowable_example :
    IsShowable toy_formats toy_matches
      (memory_store toy_sha)
      (run calls turn_by_turn start).objects
      row
run-rows-IsShowable_example =
    run-rows-IsShowable toy_formats toy_matches toy_database toy_database-IsDatabase toy_sha
      IsContent (memory_store toy_sha) (memory_store-IsStore toy_sha) contents-IsCollisionFree calls
      turn_by_turn start no_rows (key_of row) row corpus empty-IsAddressed tt (λ i. refl)
      (λ k. refl) row-found
