-- ===== src/Blob/Memory/Laws.antt =====
-- `MemoryStore` keeps the contract of a store.
use foto.Base.{
  ◌≡◌, refl, arith, true, false, none, Bytes, bytes_eq, bytes_eq_iff, bytes_eq_refl, if◌then◌else◌,
  ok, err,
}
use foto.Base.Dict.{lookup, insert, lookup-insert, lookup-erase, lookup-insert_self}
use foto.Blob.Ref.{Ref, valid, Sha256, compute_ref}
use foto.Blob.Store.{IsHonest, IsStore, not_found}
use foto.Blob.Memory.{Objects, put, get, exists, delete, memory_store}

-- `MemoryStore` is a store: a `Put` that succeeds returns the ref of the content and, where no other
-- content lay under that ref, stores it there; whether it succeeds or not it adds nothing else and, on
-- the same condition, loses nothing; and `Get` returns what lies under a ref.
pub memory_store-IsStore : (sha : Sha256) → IsStore sha (memory_store sha)
unfolding put get
memory_store-IsStore sha = record {
  put_ref = λ done c s r h. ground arith;
  put_stores = λ done c s r alone h. ground (arith, lookup-insert_self (compute_ref sha c) c s);
  put_keeps = λ done c s r b alone h.
      ground (
        arith,
        lookup-insert (compute_ref sha c) r c s,
        bytes_eq_iff (compute_ref sha c) r,
        alone b,
      );
  put_adds = λ done c s r b h.
      ground (arith, lookup-insert (compute_ref sha c) r c s, bytes_eq_iff (compute_ref sha c) r);
  get_view = λ done r s b h. ground arith;
}

-- Storing the same content again returns the same ref and changes no lookup.
pub put_again :
    (sha : Sha256) (content : Bytes) (s : Objects) (r : Ref)
    → let t = (put sha false content s).1 in
      ((put sha false content t).0 ≡ (put sha false content s).0)
      × (lookup r (put sha false content t).1 ≡ lookup r t)
unfolding put
put_again sha content s r = (
  refl,
  ground (
    arith,
    lookup-insert (compute_ref sha content) r content s,
    lookup-insert (compute_ref sha content) r content (insert (compute_ref sha content) content s),
  ),
)

-- With a context that is not cancelled, a valid ref that was deleted is not found, `Exists` says so,
-- every other object is still there, and deleting it again succeeds too.
pub delete_then_get :
    (r j : Ref) (s : Objects)
    → valid r ≡ true
    → let t = (delete false r s).1 in
      ((delete false r s).0 ≡ ok tt)
      × (get false r t ≡ err not_found)
      × (exists false r t ≡ ok false)
      × ((delete false r t).0 ≡ ok tt)
      × (lookup j t ≡ (if bytes_eq r j then none else lookup j s))
unfolding delete get exists
delete_then_get r j s h = (
  ground arith,
  ground (arith, lookup-erase r r s, bytes_eq_refl r),
  ground (arith, lookup-erase r r s, bytes_eq_refl r),
  ground arith,
  ground (arith, lookup-erase r j s),
)

-- MemoryStore reports only what is not there as not found.
pub memory_store-IsHonest : (sha : Sha256) → IsHonest (memory_store sha)
unfolding get
memory_store-IsHonest sha done r s h = ground arith
