-- ===== src/Photo/Subject.antt =====
-- Subjects of events, and the shape of a ref: go/nathejk/table/photo/subject.go. A subject is its text;
-- `Parts` of package cqrs splits it at the dots, which is written here.
pub mod Laws
use foto.Base.{
  ℕ, Bool, true, false, ◌&&◌, ◌||◌, Option, none, some, List, [], ◌∷◌, ◌++◌, Bytes, codes, is_empty,
  any, all, length, get_elem?, ◌==◌, if◌then◌else◌, Result, ok, err, ◌>>=◌,
}
use foto.Base.Split.{join, split}
use foto.Blob.Ref.{is_lower_hex}

pub data SubjectError : Type 0 where
  empty_token : SubjectError
  bad_token : SubjectError

abbrev pub Subject : Type 0
Subject = Bytes

abbrev pub stream_domain : Bytes
stream_domain = codes "NATHEJK"

abbrev pub entity_token : Bytes
entity_token = codes "patrulje"

abbrev pub photographed_verb : Bytes
photographed_verb = codes "photographed"

abbrev pub purged_verb : Bytes
purged_verb = codes "photopurged"

-- The bytes of ". \t\r\n*>".
abbrev pub is_forbidden : ℕ → Bool
is_forbidden c =
    c == b'.' || (c == b' ' || (c == 9 || (c == 13 || (c == 10 || (c == b'*' || c == b'>')))))

unfoldable pub valid_subject_token : Bytes → Result SubjectError (Unit {0})
valid_subject_token s =
    if is_empty s then err empty_token else if any is_forbidden s then err bad_token else ok tt

unfoldable pub entity_subject : Bytes → Bytes → Bytes → Result SubjectError Subject
unfolding valid_subject_token
entity_subject year team_id verb = valid_subject_token year >>= λ year_valid.
    valid_subject_token team_id >>= λ team_valid.
    ok (join b'.' (stream_domain ∷ year ∷ entity_token ∷ team_id ∷ verb ∷ []))

unfoldable pub photographed_subject : Bytes → Bytes → Result SubjectError Subject
unfolding entity_subject
photographed_subject year team_id = entity_subject year team_id photographed_verb

unfoldable pub purge_subject : Bytes → Bytes → Result SubjectError Subject
unfolding entity_subject
purge_subject year team_id = entity_subject year team_id purged_verb

-- What `SubjectFromStr` takes for a subscription: the colon ends the name of the stream.
unfoldable pub consume_pattern : Bytes → Bytes
consume_pattern verb = stream_domain ++ (codes ":*." ++ (entity_token ++ (codes ".*." ++ verb)))

-- What `Match` takes.
unfoldable pub match_pattern : Bytes → Bytes
match_pattern verb = stream_domain ++ (codes ".*." ++ (entity_token ++ (codes ".*." ++ verb)))

-- `Parts` of a subject.
abbrev pub parts : Subject → List Bytes
parts s = split b'.' s

-- A missing part is the empty text.
unfoldable pub subject_part : Subject → ℕ → Bytes
unfolding split
subject_part s i = elim (get_elem? (parts s) i) [ none ↦ [] | some part ↦ part ]

unfoldable pub subject_year : Subject → Bytes
unfolding subject_part
subject_year s = subject_part s 1

unfoldable pub subject_team_id : Subject → Bytes
unfolding subject_part
subject_team_id s = subject_part s 3

unfoldable pub valid_photo_ref : Bytes → Bool
valid_photo_ref ref = if length ref == 64 then all is_lower_hex ref else false
