-- ===== src/Blob/File.antt =====
-- `FileStore`: go/internal/blob/file.go. The disk maps the path of a file to its bytes and its mode;
-- what the operating system does with a call is the call's environment. Paths are what
-- `filepath.Join` makes of a root that is already clean.
pub mod Paths
pub mod Atomic
pub mod Laws
pub mod Racing
use foto.Base.{
  ℕ, Bool, true, false, Option, none, some, List, [], ◌∷◌, ◌++◌, Bytes, codes, is_empty, take, not,
  ◌||◌, if◌then◌else◌, Result, ok, err,
}
use foto.Base.Dict.{Dict, lookup, insert, erase}
use foto.Blob.Ref.{Ref, valid, Sha256, compute_ref}
use foto.Blob.Store.{Store, StoreError, cancelled, invalid_ref, not_found, io}

-- A file: its bytes and its mode.
abbrev pub Disk : Type 0
Disk = Dict (Bytes × ℕ)

-- `0o700` and `0o600`.
abbrev pub private_dir : ℕ
private_dir = 0o700

abbrev pub private_file : ℕ
private_file = 0o600

-- What one call meets. A system call fails where its field is set; a write that fails has written
-- some bytes. `CreateTemp` picks the end of the name, and a mode that depends on the umask.
pub record Env : Type 0 where
  pub done : Bool
  pub stat_fails : Bool
  pub mkdir_fails : Bool
  pub create_fails : Bool
  pub temp_suffix : Bytes
  pub temp_mode : ℕ
  pub write_fails : Bool
  pub written : ℕ
  pub chmod_fails : Bool
  pub close_fails : Bool
  pub rename_fails : Bool
  pub remove_fails : Bool
  pub open_fails : Bool

-- `NewFileStore`: the mode that the root directory has afterwards, or no store.
unfoldable pub new_file_store : Bool → Bool → Bytes → Option ℕ
new_file_store mkdir_fails chmod_fails root =
    if is_empty root
    then none
    else if mkdir_fails
    then none
    else if chmod_fails
    then none
    else some private_dir

abbrev pub slash : ℕ
slash = b'/'

-- The directory of a ref, and the file in it.
abbrev pub bucket : Bytes → Ref → Bytes
bucket root ref = root ++ (slash ∷ take 2 ref)

unfoldable pub object_path : Bytes → Ref → Bytes
object_path root ref = root ++ (slash ∷ (take 2 ref ++ (slash ∷ ref)))

unfoldable pub path : Bytes → Ref → Result StoreError Bytes
unfolding object_path
path root ref = if not (valid ref) then err invalid_ref else ok (object_path root ref)

unfoldable pub temp_path : Bytes → Ref → Bytes → Bytes
temp_path root ref suffix = root ++ (slash ∷ (take 2 ref ++ (slash ∷ (codes ".tmp-" ++ suffix))))

-- The result of a call, and the disks that it leaves behind its system calls, the last one first.
abbrev pub Run : Type 0 → Type 0
Run A = A × List Disk

-- The deferred `os.Remove` of the temporary file.
pub cleanup : Env → Bytes → Disk → Disk
cleanup env tmp d = if env.remove_fails then d else erase tmp d

-- From the created temporary file on.
pub write_temp : Env → Ref → Bytes → Bytes → Bytes → Disk → Run (Result StoreError Ref)
unfolding cleanup
write_temp env ref dst tmp content d =
    let created = insert tmp ([], env.temp_mode) d in
    let partial = insert tmp (take env.written content, env.temp_mode) created in
    let full = insert tmp (content, env.temp_mode) created in
    let secured = insert tmp (content, private_file) full in
    let renamed = insert dst (content, private_file) (erase tmp secured) in
    if env.write_fails
    then (err io, cleanup env tmp partial ∷ partial ∷ created ∷ [])
    else if env.chmod_fails
    then (err io, cleanup env tmp full ∷ full ∷ created ∷ [])
    else if env.close_fails || env.rename_fails
    then (err io, cleanup env tmp secured ∷ secured ∷ full ∷ created ∷ [])
    else (ok ref, cleanup env tmp renamed ∷ renamed ∷ secured ∷ full ∷ created ∷ [])

-- From the stat on.
pub store_object : Env → Ref → Bytes → Bytes → Bytes → Disk → Run (Result StoreError Ref)
unfolding write_temp
store_object env ref dst tmp content d =
    if env.stat_fails then (err io, []) else elim (lookup dst d) [
      | some file ↦ (ok ref, [])
      | none ↦
          if env.mkdir_fails || env.create_fails
          then (err io, [])
          else write_temp env ref dst tmp content d
    ]

-- The disk after a call.
abbrev pub last : Disk → List Disk → Disk
last d [] = d
last d (newest ∷ older) = newest

-- The object under a ref, if there is one.
abbrev pub view : Bytes → Disk → Ref → Option Bytes
view root d ref =
    if valid ref
    then elim (lookup (object_path root ref) d) [ none ↦ none | some file ↦ some file.0 ]
    else none

module _ (sha : Sha256) (root : Bytes) where
  unfoldable pub put_run : Env → Bytes → Disk → Run (Result StoreError Ref)
  unfolding store_object path temp_path
  put_run env content d =
      if env.done then (err cancelled, []) else elim (path root (compute_ref sha content)) [
        | err e ↦ (err e, [])
        | ok dst ↦
            store_object env (compute_ref sha content) dst
              (temp_path root (compute_ref sha content) env.temp_suffix) content d
      ]

  unfoldable pub put : Env → Bytes → Disk → Result StoreError Ref × Disk
  unfolding put_run
  put env content d = ((put_run env content d).0, last d (put_run env content d).1)

  unfoldable pub get : Env → Ref → Disk → Result StoreError Bytes
  unfolding path
  get env ref d = if env.done then err cancelled else elim (path root ref) [
    | err e ↦ err e
    | ok p ↦ elim (lookup p d) [
      | none ↦ err not_found
      | some file ↦ if env.open_fails then err io else ok file.0
    ]
  ]

  unfoldable pub exists : Env → Ref → Disk → Result StoreError Bool
  unfolding path
  exists env ref d = if env.done then err cancelled else elim (path root ref) [
    | err e ↦ err e
    | ok p ↦
        if env.stat_fails
        then err io
        else elim (lookup p d) [ none ↦ ok false | some file ↦ ok true ]
  ]

  unfoldable pub delete : Env → Ref → Disk → Result StoreError (Unit {0}) × Disk
  unfolding path
  delete env ref d = if env.done then (err cancelled, d) else elim (path root ref) [
    | err e ↦ (err e, d)
    | ok p ↦ elim (lookup p d) [
      | none ↦ (ok tt, d)
      | some file ↦ if env.remove_fails then (err io, d) else (ok tt, erase p d)
    ]
  ]

  abbrev pub file_store : Store
  file_store = record { State = Disk; Env = Env; view = view root; put = put; get = get }
