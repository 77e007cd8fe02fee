-- ===== src/Concurrent/Invariant/Steps.antt =====
-- Every step of a call keeps the bytes before the events.
use foto.Base.{
  ◌≡◌, inl, inr, refl, sym, subst, Bool-cases, some, Option-cases, ◌∷◌, Bytes, Result-cases,
}
use foto.Blob.Ref.{Sha256}
use foto.Blob.Store.{Store, IsStore, IsCollisionFree, IsAddressed}
use foto.Photo.Subject.{Subject}
use foto.Photo.Commands.{photographed, Log, publish, event_of}
use foto.Photo.Commands.Laws.{publish-log}
use foto.Ingest.Rejection.{bad_payload, publish_failed}
use foto.Ingest.Storing.{StoredPhoto}
use foto.Ingest.Storing.Laws.{Holds}
use foto.Ingest.Webhook.{
  KameraPayload, Application, unauthorized, rejected, accepted, webhook_authorized, broker_of,
  command, response,
}
use foto.Ingest.Webhook.Laws.{IsCorpus}
use foto.Concurrent.{
  Call, Phase, arrived, storing_original, storing_display, storing_thumbs, publishing, answered,
  begin, publish_stored, proceed,
}
use foto.Concurrent.Invariant.{IsComplete, IsPhase}
use foto.Concurrent.Invariant.Stored.{
  IsStep, quiet, begin-IsPhase, put_original-IsStep, put_display-IsStep, put_thumb-IsStep,
}

some-injective {ℓ} : {A : Type ℓ} {a b : A} → some a ≡ some b → a ≡ b
some-injective h = cc

-- The contents that a call puts into the store, if it comes with a payload.
abbrev pub IsCallCorpus : {S : Store} → (Bytes → Type 0) → Call S → Type 0
IsCallCorpus contents call =
    (payload : KameraPayload) → call.payload ≡ some payload → IsCorpus contents call.app payload

module _ (sha : Sha256) (contents : Bytes → Type 0) (S : Store) (law : IsStore sha S)
    (free : IsCollisionFree sha contents) where
  module _ (app : Application S) where
    -- The event of a photograph whose objects are all stored, on top of the log.
    announced :
        (team_id : Bytes) (payload : KameraPayload) (stored : StoredPhoto) (subject : Subject)
        (s : S.State) (log : Log)
        → IsAddressed sha contents S s
        → IsComplete S s log
        → IsPhase S contents s log (publishing team_id payload stored)
        → IsStep sha contents S s log (
          answered (accepted (response app team_id stored)),
          s,
          (subject, photographed (event_of (command app team_id payload stored))) ∷ log,
        )
    unfolding command response event_of
    announced team_id payload stored subject s log a c h = record {
      addressed = a;
      keeps = λ r b v. v;
      grows = λ res e. inr e;
      complete = (
        record {
          display = h.1;
          renditions = h.2;
          original = λ o e. subst (λ x. Holds S s x.ref x.bytes) (some-injective e) h.0;
        },
        c,
      );
      phase = inl (refl, refl, refl, refl);
    }

    publish_stored-IsStep :
        (team_id : Bytes) (payload : KameraPayload) (stored : StoredPhoto) (s : S.State) (log : Log)
        → IsAddressed sha contents S s
        → IsComplete S s log
        → IsPhase S contents s log (publishing team_id payload stored)
        → IsStep sha contents S s log (publish_stored app team_id payload stored s log)
    unfolding publish_stored
    publish_stored-IsStep team_id payload stored s log a c h =
        let broker = broker_of app app.photo_table in
        let cmd = command app team_id payload stored in
        elim (publish-log broker cmd log) [
          | inl (done, p) ↦
              rw (publish_stored, done)
                (subst
                  (λ after.
                    IsStep sha contents S s log
                      (answered (accepted (response app team_id stored)), s, after))
                  (sym p.logged) (announced team_id payload stored p.subject s log a c h))
          | inr (failed, same) ↦ elim (Result-cases (publish broker cmd log).0) [
            | inl (_, done) ↦ absurd (failed done)
            | inr (x, e) ↦
                rw (publish_stored, e)
                  (subst
                    (λ after.
                      IsStep sha contents S s log (answered (rejected publish_failed), s, after))
                    (sym same)
                    (quiet sha contents S s s log (answered (rejected publish_failed)) a
                      (λ r b v. v) c tt))
          ]
        ]

  -- Every step of a call, whatever the store and the broker return.
  pub proceed-IsStep :
      (call : Call S) (phase : Phase) (s : S.State) (log : Log)
      → IsCallCorpus contents call
      → IsAddressed sha contents S s
      → IsComplete S s log
      → IsPhase S contents s log phase
      → IsStep sha contents S s log (proceed call phase s log)
  unfolding proceed
  proceed-IsStep call arrived s log corpus a c h =
      let nothing = λ (phase : Phase) (p : IsPhase S contents s log phase).
        quiet sha contents S s s log phase a (λ r b v. v) c p in
      elim (Bool-cases (webhook_authorized call.app call.given)) [
        | inr e ↦ rw e (nothing (answered unauthorized) tt)
        | inl e ↦ elim (Option-cases call.payload) [
          | inl p ↦ rw (e, p) (nothing (answered (rejected bad_payload)) tt)
          | inr (payload, p) ↦
              rw (e, p)
                (nothing (begin call.app payload)
                  (begin-IsPhase sha contents S law free call.app payload s log (corpus payload p)))
        ]
      ]
  proceed-IsStep call (storing_original team_id payload raw prepared) s log corpus a c h =
      put_original-IsStep sha contents S law free call.app team_id payload raw prepared s log a c h
  proceed-IsStep call (storing_display team_id payload prepared original) s log corpus a c h =
      put_display-IsStep sha contents S law free call.app team_id payload prepared original s log a
        c h
  proceed-IsStep call (storing_thumbs team_id payload original display n thumbs rs) s log corpus a c
        h =
      put_thumb-IsStep sha contents S law free call.app team_id payload original display n thumbs rs
        s log a c h
  proceed-IsStep call (publishing team_id payload stored) s log corpus a c h =
      publish_stored-IsStep call.app team_id payload stored s log a c h
  proceed-IsStep call (answered x) s log corpus a c h =
      quiet sha contents S s s log (answered x) a (λ r b v. v) c h
