-- ===== src/Examples/Blob.antt =====
-- The package blob at concrete inputs.
use foto.Base.{
  ap, arith, inl, inr, Bool-cases, List, length-append, ℕ, zero, suc, ◌≡◌, refl, true, false, [],
  ◌∷◌, ◌++◌, Bytes, codes, any, length, take, ◌==◌, ok,
}
use foto.Base.Dict.{lookup}
use foto.Blob.Ref.{Ref, valid}
use foto.Blob.Store.{IsStore, IsAddressed}
use foto.Blob.Memory.{Objects}
use foto.Blob.File.{Env, path, object_path, slash, file_store, temp_path}
use foto.Blob.File.Paths.{path_confined}
use foto.Blob.File.Laws.{file_store-IsStore}
use foto.Blob.File.Racing.{PutCall, Race, stating, race_on, temp_of, ref_of}
use foto.Blob.File.Racing.Laws.{IsFair, race_on-IsFair}
use foto.Examples.Toy.{toy_sha, upload}
use foto.Examples.Ingest.{IsContent, contents-IsCollisionFree}

abbrev sixes : ℕ → Bytes
sixes zero = []
sixes (suc n) = b'6' ∷ sixes n

abbrev ref : Ref
ref = sixes 64

-- A run in which the write fails after two bytes, and the cleanup fails too.
abbrev full_disk : Env
full_disk = record {
  done = false;
  stat_fails = false;
  mkdir_fails = false;
  create_fails = false;
  temp_suffix = codes "1";
  temp_mode = 0o600;
  write_fails = true;
  written = 2;
  chmod_fails = false;
  close_fails = false;
  rename_fails = false;
  remove_fails = true;
  open_fails = false;
}

file_store-IsStore_example : IsStore toy_sha (file_store toy_sha (codes "/blobs"))
file_store-IsStore_example = file_store-IsStore toy_sha (codes "/blobs")

ref-valid : valid ref ≡ true
unfolding valid
ref-valid = refl

abbrev one_object : Objects
one_object = (ref, upload) ∷ []

ref-path : path (codes "/blobs") ref ≡ ok (object_path (codes "/blobs") ref)
unfolding path valid
ref-path = refl

path_confined_example :
    (object_path (codes "/blobs") ref ≡ codes "/blobs" ++ (slash ∷ (take 2 ref ++ (slash ∷ ref))))
    × (length ref ≡ 64)
    × (any (λ b. b == slash) ref ≡ false)
    × (any (λ b. b == b'.') ref ≡ false)
path_confined_example = path_confined (codes "/blobs") ref ref-path

-- Everyone puts the same upload; the write of the first call fails.
abbrev racers : ℕ → PutCall
racers i = record {
  content = upload;
  env = record full_disk { temp_suffix = sixes i; write_fails = i == 0; remove_fails = false };
}

length-sixes : (n : ℕ) → length (sixes n) ≡ n
length-sixes zero = refl
length-sixes (suc n) = omega (arith, length-sixes n)

racers-names :
    (i j : ℕ)
    → temp_of toy_sha (codes "/blobs") (racers i) ≡ temp_of toy_sha (codes "/blobs") (racers j)
    → i ≡ j
unfolding temp_path
racers-names i j e =
    let dir = take 2 (ref_of toy_sha (codes "/blobs") (racers i)) in
    omega (
      arith,
      ap length e,
      length-append {0} dir (slash ∷ (codes ".tmp-" ++ sixes i)),
      length-append {0} dir (slash ∷ (codes ".tmp-" ++ sixes j)),
      length-sixes i,
      length-sixes j,
    )

nothing-IsAddressed : IsAddressed toy_sha IsContent (file_store toy_sha (codes "/blobs")) []
unfolding lookup
nothing-IsAddressed r c h = elim (Bool-cases (valid r)) [
  | inl v ↦ absurd (cc (rw v at h))
  | inr v ↦ absurd (cc (rw v at h))
]

abbrev crossed : List ℕ
crossed = 0 ∷ 1 ∷ 0 ∷ 1 ∷ 0 ∷ 1 ∷ 1 ∷ 0 ∷ 1 ∷ []

abbrev lined_up : Race
lined_up = record { disk = []; stages = λ i. stating }

race_on-IsFair_example :
    IsFair toy_sha
      (codes "/blobs")
      racers
      racers-names
      []
      IsContent
      contents-IsCollisionFree
      (λ i. inl refl)
      nothing-IsAddressed
      (race_on toy_sha (codes "/blobs") racers crossed lined_up)
race_on-IsFair_example =
    race_on-IsFair toy_sha (codes "/blobs") racers racers-names [] IsContent
      contents-IsCollisionFree (λ i. inl refl) nothing-IsAddressed crossed lined_up refl (λ i. refl)
