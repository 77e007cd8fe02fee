-- ===== src/Blob/File/Racing.antt =====
-- Calls of `Put` at the same time, on one disk: `Put` of go/internal/blob/file.go cut at its system calls,
-- and a schedule that says who makes the next one. `CreateTemp` gives every call a name of its own.
pub mod Laws
pub mod Finishing
use foto.Base.{
  ℕ, Bool, true, false, Option, none, some, List, [], ◌∷◌, Bytes, take, ◌||◌, ◌==◌, if◌then◌else◌,
  Result, ok, err,
}
use foto.Base.Dict.{lookup, insert, erase}
use foto.Blob.Ref.{Ref, Sha256, compute_ref}
use foto.Blob.Store.{StoreError, cancelled, io}
use foto.Blob.File.{Disk, Env, private_file, path, temp_path, cleanup}

-- The next thing that a call of `Put` does.
pub data Stage : Type 0 where
  stating : Stage  -- `ctx.Err`, the path, and `os.Stat`
  creating : Stage  -- `os.MkdirAll` and `os.CreateTemp`
  writing : Stage  -- `tmp.Write`
  securing : Stage  -- `tmp.Chmod`
  renaming : Stage  -- `tmp.Close` and `os.Rename`
  removing : Result StoreError Ref → Stage  -- the deferred `os.Remove`
  returned : Result StoreError Ref → Stage

-- A call: its content, and what it meets.
pub record PutCall : Type 0 where
  pub content : Bytes
  pub env : Env

module _ (sha : Sha256) (root : Bytes) (w : PutCall) where
  open w use {content, env}

  abbrev pub ref_of : Ref
  ref_of = compute_ref sha content

  abbrev pub temp_of : Bytes
  temp_of = temp_path root ref_of env.temp_suffix

  -- `tmp.Close`, and `os.Rename` of what lies at the temporary path.
  unfoldable pub rename : Bytes → Disk → Stage × Disk
  rename dst d =
      if env.close_fails || env.rename_fails
      then (removing (err io), d)
      else (elim (lookup temp_of d) [
        | none ↦ (removing (err io), d)
        | some file ↦ (removing (ok ref_of), insert dst file (erase temp_of d))
      ])

  unfoldable pub stat : Bytes → Disk → Stage × Disk
  stat dst d =
      if env.stat_fails
      then (returned (err io), d)
      else (elim (lookup dst d) [ some file ↦ (returned (ok ref_of), d) | none ↦ (creating, d) ])

  -- A system call, on the path of the object.
  unfoldable pub call_at : Bytes → Stage → Disk → Stage × Disk
  unfolding rename stat cleanup
  call_at dst stating d = if env.done then (returned (err cancelled), d) else stat dst d
  call_at dst creating d =
      if env.mkdir_fails || env.create_fails
      then (returned (err io), d)
      else (writing, insert temp_of ([], env.temp_mode) d)
  call_at dst writing d =
      if env.write_fails
      then (removing (err io), insert temp_of (take env.written content, env.temp_mode) d)
      else (securing, insert temp_of (content, env.temp_mode) d)
  call_at dst securing d =
      if env.chmod_fails
      then (removing (err io), d)
      else (renaming, insert temp_of (content, private_file) d)
  call_at dst renaming d = rename dst d
  call_at dst (removing result) d = (returned result, cleanup env temp_of d)
  call_at dst (returned result) d = (returned result, d)

  -- The next system call of a `Put`, whose ref always has a path.
  unfoldable pub system_call : Stage → Disk → Stage × Disk
  unfolding call_at path
  system_call stage d = elim (path root ref_of) [
    | err e ↦ (returned (err e), d)
    | ok dst ↦ call_at dst stage d
  ]

-- The disk, and where every call stands.
pub record Race : Type 0 where
  pub disk : Disk
  pub stages : ℕ → Stage

module _ (sha : Sha256) (root : Bytes) (writers : ℕ → PutCall) where
  unfoldable pub turn : ℕ → Race → Race
  unfolding system_call
  turn i race =
      let (stage, disk) = system_call sha root (writers i) (race.stages i) race.disk in
      record { disk = disk; stages = λ j. if i == j then stage else race.stages j }

  unfoldable pub race_on : List ℕ → Race → Race
  unfolding turn
  race_on [] race = race
  race_on (i ∷ schedule) race = race_on schedule (turn i race)
