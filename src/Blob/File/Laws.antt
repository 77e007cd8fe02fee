-- ===== src/Blob/File/Laws.antt =====
-- `FileStore` keeps the contract of a store.
use foto.Base.{
  ℕ, ◌≡◌, ◌⊎◌, inl, inr, refl, sym, ◌∙◌, ap, arith, Option-cases, Bool-cases, some, List, [], ◌∷◌,
  Bytes, bytes_eq_refl, All, ok,
}
use foto.Base.Dict.{lookup}
use foto.Blob.Ref.{Ref, Sha256, compute_ref, compute_ref-valid}
use foto.Blob.Store.{IsHonest, IsStore}
use foto.Blob.File.{
  Disk, Env, last, view, path, write_temp, store_object, put_run, put, get, file_store,
}
use foto.Blob.File.Atomic.{
  target, temporary, target-ne-temporary, put_run_cancelled, put_run_live, write_temp-ok, IsWhole,
  put_atomic, Published,
}

last-All {ℓ} : (P : Disk → Type ℓ) (d : Disk) (ds : List Disk) → P d → All P ds → P (last d ds)
last-All P d [] h a = h
last-All P d (e ∷ ds) h (pe, a) = pe

module _ (sha : Sha256) (root : Bytes) where
  put-IsWhole :
      (env : Env) (c : Bytes) (d : Disk) (r : Ref) → IsWhole sha root c d r (put sha root env c d).1
  unfolding put
  put-IsWhole env c d r =
      last-All (IsWhole sha root c d r) d _ (inl refl) (put_atomic sha root c env d r)

  store_object-ok :
      (env : Env) (ref : Ref) (dst tmp content : Bytes) (d : Disk) {r : Ref}
      → (store_object env ref dst tmp content d).0 ≡ ok r
      → ((r ≡ ref)
          × ((file : Bytes × ℕ) × (lookup dst d ≡ some file))
          × ((store_object env ref dst tmp content d).1 ≡ []))
        ⊎ (((write_temp env ref dst tmp content d).0 ≡ ok r)
            × ((store_object env ref dst tmp content d).1
                ≡ (write_temp env ref dst tmp content d).1))
  unfolding store_object
  store_object-ok env ref dst tmp content d h = elim (Option-cases (lookup dst d)) [
    | inr (file, e) ↦ inl (ground arith, (file, e), ground arith)
    | inl e ↦ inr (ground arith, ground arith)
  ]

  put_run-ok :
      (env : Env) (c : Bytes) (d : Disk) (r : Ref)
      → (put_run sha root env c d).0 ≡ ok r
      → let dst = target sha root c env d r in
        let tmp = temporary sha root c env d r in
        (r ≡ compute_ref sha c)
        × (((file : Bytes × ℕ) × (lookup dst d ≡ some file) × ((put_run sha root env c d).1 ≡ []))
            ⊎ Published tmp dst c d (last d (put_run sha root env c d).1))
  put_run-ok env c d r h = elim (Bool-cases env.done) [
    | inl t ↦ absurd (cc (ap (λ x. x.0) (put_run_cancelled sha root c env d r t)))
    | inr f ↦
        let live = put_run_live sha root c env d r f in
        elim (store_object-ok env _ _ _ c d (rw live at h)) [
          | inl (e, (file, old), nothing) ↦ (e, inl (file, old, rw live nothing))
          | inr (wrote, same) ↦
              let (e, published) =
                write_temp-ok env (compute_ref sha c) _ _ c d
                  (target-ne-temporary sha root c env d r) r wrote in
              (e, inr (rw (live, same) published))
        ]
  ]

  view_of_file :
      (c : Bytes) (d : Disk) (env : Env) (r : Ref) (file : Bytes × ℕ)
      → lookup (target sha root c env d r) d ≡ some file
      → view root d (compute_ref sha c) ≡ some file.0
  unfolding target
  view_of_file c d env r file e = rw (compute_ref-valid sha c, e)

  view_of_target :
      (c : Bytes) (d e : Disk) (env : Env) (r : Ref)
      → Published (temporary sha root c env d r) (target sha root c env d r) c d e
      → view root e (compute_ref sha c) ≡ some c
  unfolding target
  view_of_target c d e env r published =
      rw (
        compute_ref-valid sha c,
        published _ (target-ne-temporary sha root c env d r),
        bytes_eq_refl,
      )

  put_stores_lem :
      (env : Env) (c : Bytes) (d : Disk) (r : Ref)
      → ((b : Bytes) → view root d (compute_ref sha c) ≡ some b → b ≡ c)
      → (put sha root env c d).0 ≡ ok r
      → view root (put sha root env c d).1 r ≡ some c
  unfolding put
  put_stores_lem env c d r alone h =
      let (e, outcome) = put_run-ok env c d r h in
      rw e (elim outcome [
        | inl (file, old, nothing) ↦
            let there = view_of_file c d env r file old in
            rw nothing (there ∙ ap some (alone file.0 there))
        | inr published ↦ view_of_target c d _ env r published
      ])

  put_keeps_lem :
      (env : Env) (c : Bytes) (d : Disk) (r : Ref) (b : Bytes)
      → ((b : Bytes) → view root d (compute_ref sha c) ≡ some b → b ≡ c)
      → view root d r ≡ some b
      → view root (put sha root env c d).1 r ≡ some b
  put_keeps_lem env c d r b alone h = elim (put-IsWhole env c d r) [
    | inl same ↦ same ∙ h
    | inr (e, there) ↦ there ∙ ap some (sym (alone b (ap (view root d) (sym e) ∙ h)))
  ]

  put_adds_lem :
      (env : Env) (c : Bytes) (d : Disk) (r : Ref) (b : Bytes)
      → view root (put sha root env c d).1 r ≡ some b
      → (view root d r ≡ some b) ⊎ ((r ≡ compute_ref sha c) × (b ≡ c))
  put_adds_lem env c d r b h = elim (put-IsWhole env c d r) [
    | inl same ↦ inl (sym same ∙ h)
    | inr (e, there) ↦ inr (e, cc (h, there))
  ]

  get_view_lem :
      (env : Env) (r : Ref) (d : Disk) (b : Bytes)
      → get sha root env r d ≡ ok b
      → view root d r ≡ some b
  unfolding get
  get_view_lem env r d b h = ground arith

  -- `FileStore` is a store, whatever the operating system does with its calls: a `Put` that succeeds
  -- returns the ref of the content and, where no other content lay under that ref, stores it there;
  -- whether it succeeds or not it adds nothing else and, on the same condition, loses nothing; and `Get`
  -- returns what lies under a ref.
  pub file_store-IsStore : IsStore sha (file_store sha root)
  unfolding put
  file_store-IsStore = record {
    put_ref = λ env c d r h. (put_run-ok env c d r h).0;
    put_stores = put_stores_lem;
    put_keeps = put_keeps_lem;
    put_adds = put_adds_lem;
    get_view = get_view_lem;
  }

-- FileStore reports only what is not there as not found.
pub file_store-IsHonest : (sha : Sha256) (root : Bytes) → IsHonest (file_store sha root)
unfolding get path
file_store-IsHonest sha root env r d h = ground arith
