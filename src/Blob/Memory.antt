-- ===== src/Blob/Memory.antt =====
-- `MemoryStore`: go/internal/blob/memory.go. A call's environment is whether its context is cancelled.
pub mod Laws
use foto.Base.{
  ℕ, Bool, true, false, Option, none, some, List, [], Bytes, length, not, if◌then◌else◌, Result, ok,
  err,
}
use foto.Base.Dict.{Dict, lookup, insert, erase}
use foto.Blob.Ref.{Ref, valid, Sha256, compute_ref}
use foto.Blob.Store.{Store, StoreError, cancelled, invalid_ref, not_found}

abbrev pub Objects : Type 0
Objects = Dict Bytes

abbrev pub new_memory_store : Objects
new_memory_store = []

-- The stored copy is a value, so the caller's later writes to its buffer do not reach it.
unfoldable pub put : Sha256 → Bool → Bytes → Objects → Result StoreError Ref × Objects
put sha done content objects =
    if done
    then (err cancelled, objects)
    else (ok (compute_ref sha content), insert (compute_ref sha content) content objects)

unfoldable pub get : Bool → Ref → Objects → Result StoreError Bytes
get done ref objects =
    if done
    then err cancelled
    else if not (valid ref)
    then err invalid_ref
    else elim (lookup ref objects) [ none ↦ err not_found | some content ↦ ok content ]

unfoldable pub exists : Bool → Ref → Objects → Result StoreError Bool
exists done ref objects =
    if done
    then err cancelled
    else if not (valid ref)
    then err invalid_ref
    else elim (lookup ref objects) [ none ↦ ok false | some content ↦ ok true ]

unfoldable pub delete : Bool → Ref → Objects → Result StoreError (Unit {0}) × Objects
delete done ref objects =
    if done
    then (err cancelled, objects)
    else if not (valid ref)
    then (err invalid_ref, objects)
    else (ok tt, erase ref objects)

unfoldable pub len : Objects → ℕ
len objects = length objects

abbrev pub memory_store : Sha256 → Store
memory_store sha = record {
  State = Objects;
  Env = Bool;
  view = λ objects ref. lookup ref objects;
  put = put sha;
  get = get;
}
