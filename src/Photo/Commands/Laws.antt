-- ===== src/Photo/Commands/Laws.antt =====
-- What reaches the log, and that the projection takes it.
use foto.Base.{
  ◌≡◌, ◌≢◌, ◌⊎◌, inl, inr, refl, true, Bool-cases, Option, none, some, ◌∷◌, ok, Result-cases,
}
use foto.Photo.Messages.{Photographed}
use foto.Photo.Subject.{Subject, photographed_subject, valid_photo_ref}
use foto.Photo.Commands.{Event, photographed, Broker, Log, publish_event, event_of, publish}

pub publish_event-cases :
    (broker : Broker) (s : Subject) (e : Event) (log : Log)
    → (((publish_event broker s e log).0 ≡ ok tt)
        × ((publish_event broker s e log).1 ≡ (s, e) ∷ log))
      ⊎ (((publish_event broker s e log).0 ≢ ok tt) × ((publish_event broker s e log).1 ≡ log))
unfolding publish_event
publish_event-cases broker s e log = elim (Bool-cases broker.has_message) [
  | inr m ↦ inr (rw m ((λ h. cc), refl))
  | inl m ↦ elim (Bool-cases broker.sets_body) [
    | inr b ↦ inr (rw (m, b) ((λ h. cc), refl))
    | inl b ↦ elim (Bool-cases broker.publishes) [
      | inr p ↦ inr (rw (m, b, p) ((λ h. cc), refl))
      | inl p ↦ inl (rw (m, b, p) (refl, refl))
    ]
  ]
]

-- The event of a command, under the subject of its year and team.
pub record IsPublished (cmd : Photographed) (log after : Log) : Type 0 where
  pub subject : Subject
  pub built : photographed_subject cmd.year cmd.team_id ≡ ok subject
  pub ref_valid : valid_photo_ref cmd.display.ref ≡ true
  pub logged : after ≡ (subject, photographed (event_of cmd)) ∷ log

-- `Publish` succeeds only if it adds the one event of its command to the log, under the subject of its
-- year and team and with a display image whose ref is a content hash; if it fails, the log is as before.
pub publish-log :
    (broker : Option Broker) (cmd : Photographed) (log : Log)
    → (((publish broker cmd log).0 ≡ ok tt) × IsPublished cmd log (publish broker cmd log).1)
      ⊎ (((publish broker cmd log).0 ≢ ok tt) × ((publish broker cmd log).1 ≡ log))
unfolding publish
publish-log none cmd log = inr ((λ h. cc), refl)
publish-log (some broker) cmd log =
    elim (Result-cases (photographed_subject cmd.year cmd.team_id)) [
      | inr (e, q) ↦ inr (rw (publish, q) ((λ h. cc), refl))
      | inl (s, q) ↦ elim (Bool-cases (valid_photo_ref cmd.display.ref)) [
        | inr v ↦ inr (rw (publish, q, v) ((λ h. cc), refl))
        | inl v ↦ elim (publish_event-cases broker s (photographed (event_of cmd)) log) [
          | inl (done, after) ↦ inl (
              rw (publish, q, v)
                (done, record { subject = s; built = q; ref_valid = v; logged = after }))
          | inr (failed, same) ↦ inr (rw (publish, q, v) (failed, same))
        ]
      ]
    ]
