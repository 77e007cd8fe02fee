-- ===== src/Examples/Photo.antt =====
-- The package photo at concrete inputs.
use foto.Base.{◌≡◌, refl, true, none, some, [], ◌++◌, Bytes, codes, ok}
use foto.Base.Int.{pos}
use foto.Photo.Messages.{PhotoRendition, no_original}
use foto.Photo.Subject.{Subject, photographed_subject, entity_subject, valid_subject_token}
use foto.Photo.Sql.{Formats, quote}
use foto.Photo.Sql.Literal.{read_literal, quote-read_literal}
use foto.Photo.Table.{Row, upsert}
use foto.Photo.Table.Render.{render, columns, on_duplicate, concat_columns}
use foto.Photo.Table.Render.Skeleton.{skeleton, outside, shape, render_upsert-skeleton}
use foto.Blob.Ref.{compute_ref}
use foto.Examples.Toy.{toy_sha, upload}

abbrev pub season : Bytes
season = codes "2026"

abbrev pub team : Bytes
team = codes "team-a"

abbrev pub built : Subject
built = codes "NATHEJK.2026.patrulje.team-a.photographed"

pub season-built : photographed_subject season team ≡ ok built
unfolding photographed_subject entity_subject valid_subject_token
season-built = refl

-- A text that tries to end its literal.
abbrev hostile : Bytes
hostile = codes "x' OR '1'='1"

quote-read_literal_example :
    read_literal (quote hostile ++ codes ", ref=") ≡ some (hostile, codes ", ref=")
quote-read_literal_example = quote-read_literal hostile (codes ", ref=") refl

abbrev pub thumb : PhotoRendition
thumb = record {
  name = codes "thumb256";
  ref = compute_ref toy_sha upload;
  content_type = codes "image/jpeg";
  bytes = pos 3;
  width = pos 256;
  height = pos 100;
}

-- Formats that refuse every list that is not empty.
abbrev pub formats : Formats
formats = record {
  marshal = λ renditions. none;
  unmarshal = λ text. none;
  format_time = λ t. codes "2026-09-19 20:00:00";
}

abbrev pub row : Row
row = record {
  year = season;
  team_id = team;
  ref = compute_ref toy_sha upload;
  kind = hostile;
  team_number = codes "42";
  attention = true;
  content_type = codes "image/jpeg";
  bytes = pos 3;
  width = pos 2000;
  height = pos 1000;
  renditions = [];
  thumb_ref = [];
  original = no_original;
  source_url = [];
  source_kind = [];
  captured_at = some 5;
}

render_upsert-skeleton_example :
    skeleton outside (render formats (upsert row))
    ≡ concat_columns shape (columns row) (codes on_duplicate)
render_upsert-skeleton_example = render_upsert-skeleton formats row
