-- ===== src/Examples/Replay.antt =====
-- Replays of the projection at concrete inputs.
use foto.Base.{none, some, [], ◌∷◌, codes}
use foto.Blob.Ref.{compute_ref}
use foto.Photo.Table.{Message}
use foto.Photo.Replay.{replay}
use foto.Photo.Replay.Erasure.{AreRows, replay-AreRows}
use foto.Examples.Toy.{toy_sha, upload}
use foto.Examples.Photo.{formats, season, team}
use foto.Examples.ReadModel.{message}
use foto.Examples.Pipeline.{toy_engine, toy_database, toy_database-IsDatabase, no_rows, toy_matches}

-- The purge of the photograph of the message.
abbrev removal : Message
removal = record {
  subject = codes "NATHEJK.2026.patrulje.team-a.photopurged";
  photographed = none;
  purged = some (record {
    team_id = team;
    year = season;
    refs = compute_ref toy_sha upload ∷ [];
    reason = [];
    purged_at = none;
  });
}

replay-AreRows_example :
    AreRows toy_engine
      (replay formats toy_matches toy_database (message ∷ removal ∷ message ∷ []) no_rows)
replay-AreRows_example =
    replay-AreRows formats toy_matches toy_database toy_database-IsDatabase
      (message ∷ removal ∷ message ∷ []) no_rows (λ k row h. cc h)
