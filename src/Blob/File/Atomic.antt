-- ===== src/Blob/File/Atomic.antt =====
-- What a reader can see of the disk while `Put` runs.
use foto.Base.{
  ℕ, ◌≡◌, ◌≢◌, ◌⊎◌, inl, inr, refl, sym, arith, Option-cases, All-map, true, false, Bool-cases,
  some, [], Bytes, bytes_eq, bytes_eq_iff, All, if◌then◌else◌, ◌||◌, ok, err,
}
use foto.Base.Dict.{lookup, insert, erase, lookup-insert, lookup-erase}
use foto.Blob.Ref.{Ref, valid, Sha256, compute_ref, compute_ref-valid}
use foto.Blob.Store.{cancelled}
use foto.Blob.File.{
  Disk, Env, private_file, object_path, temp_path, cleanup, write_temp, store_object, put_run, last,
  view,
}
use foto.Blob.File.Paths.{object_path-injective, object_path-ne-temp_path}

-- A path other than the temporary one is as it was.
abbrev pub Agrees : Bytes → Disk → Disk → Type 0
Agrees tmp d e = (p : Bytes) → p ≢ tmp → lookup p e ≡ lookup p d

module _ (tmp : Bytes) (d : Disk) where
  pub Agrees-insert :
      (e : Disk) (file : Bytes × ℕ) → Agrees tmp d e → Agrees tmp d (insert tmp file e)
  Agrees-insert e file a p h =
      ground (arith, lookup-insert tmp p file e, bytes_eq_iff tmp p, a p h, h)

  Agrees-erase : (e : Disk) → Agrees tmp d e → Agrees tmp d (erase tmp e)
  Agrees-erase e a p h = ground (arith, lookup-erase tmp p e, bytes_eq_iff tmp p, a p h, h)

  pub Agrees-cleanup : (env : Env) (e : Disk) → Agrees tmp d e → Agrees tmp d (cleanup env tmp e)
  unfolding cleanup
  Agrees-cleanup env e a = elim (Bool-cases env.remove_fails) [
    | inl t ↦ rw t a
    | inr f ↦ rw f (Agrees-erase e a)
  ]

-- The complete object has appeared, and nothing else has changed.
abbrev pub Published : Bytes → Bytes → Bytes → Disk → Disk → Type 0
Published tmp dst content d e =
    (p : Bytes)
    → p ≢ tmp
    → lookup p e ≡ (if bytes_eq dst p then some (content, private_file) else lookup p d)

abbrev pub Seen : Bytes → Bytes → Bytes → Disk → Disk → Type 0
Seen tmp dst content d e = Agrees tmp d e ⊎ Published tmp dst content d e

module _ (env : Env) (ref : Ref) (dst tmp content : Bytes) (d : Disk) (apart : dst ≢ tmp) where
  created : Disk
  created = insert tmp ([], env.temp_mode) d

  created-Agrees : Agrees tmp d created
  unfolding created
  created-Agrees = Agrees-insert tmp d d _ (λ p h. refl)

  renamed : Disk
  unfolding created
  renamed =
      insert dst (content, private_file)
        (erase tmp
          (insert tmp (content, private_file) (insert tmp (content, env.temp_mode) created)))

  full-Agrees : Agrees tmp d (insert tmp (content, env.temp_mode) created)
  full-Agrees = Agrees-insert tmp d _ _ created-Agrees

  secured-Agrees :
      Agrees tmp d
        (insert tmp (content, private_file) (insert tmp (content, env.temp_mode) created))
  secured-Agrees = Agrees-insert tmp d _ _ full-Agrees

  renamed-Published : Published tmp dst content d renamed
  unfolding renamed
  renamed-Published p h =
      let inner =
        erase tmp
          (insert tmp (content, private_file) (insert tmp (content, env.temp_mode) created)) in
      ground (
        arith,
        lookup-insert dst p (content, private_file) inner,
        Agrees-erase tmp d _ secured-Agrees p h,
      )

  cleanup-Published :
      (e : Disk) → Published tmp dst content d e → Published tmp dst content d (cleanup env tmp e)
  unfolding cleanup
  cleanup-Published e a p h = ground (arith, lookup-erase tmp p e, bytes_eq_iff tmp p, a p h, h)

  write_temp-Seen : All (Seen tmp dst content d) (write_temp env ref dst tmp content d).1
  unfolding write_temp renamed
  write_temp-Seen = elim (Bool-cases env.write_fails) [
    | inl t ↦ rw t (
      inl (Agrees-cleanup tmp d env _ (Agrees-insert tmp d _ _ created-Agrees)),
      (inl (Agrees-insert tmp d _ _ created-Agrees), (inl created-Agrees, tt)),
    )
    | inr f ↦ elim (Bool-cases env.chmod_fails) [
      | inl t ↦
          rw (f, t)
            (
              inl (Agrees-cleanup tmp d env _ full-Agrees),
              (inl full-Agrees, (inl created-Agrees, tt)),
            )
      | inr f' ↦ elim (Bool-cases (env.close_fails || env.rename_fails)) [
        | inl t ↦
            rw (f, f', t)
              (
                inl (Agrees-cleanup tmp d env _ secured-Agrees),
                (inl secured-Agrees, (inl full-Agrees, (inl created-Agrees, tt))),
              )
        | inr f'' ↦
            rw (f, f', f'')
              (
                inr (cleanup-Published _ renamed-Published),
                (
                  inr renamed-Published,
                  (inl secured-Agrees, (inl full-Agrees, (inl created-Agrees, tt))),
                ),
              )
      ]
    ]
  ]

  -- A call that succeeds ends with the object in place.
  pub write_temp-ok :
      (r : Ref)
      → (write_temp env ref dst tmp content d).0 ≡ ok r
      → (r ≡ ref) × Published tmp dst content d (last d (write_temp env ref dst tmp content d).1)
  unfolding write_temp renamed
  write_temp-ok r h = elim (Bool-cases env.write_fails) [
    | inl t ↦ absurd (ground arith)
    | inr f ↦ elim (Bool-cases env.chmod_fails) [
      | inl t ↦ absurd (ground arith)
      | inr f' ↦ elim (Bool-cases (env.close_fails || env.rename_fails)) [
        | inl t ↦ absurd (ground arith)
        | inr f'' ↦ (ground arith, rw (f, f', f'') (cleanup-Published _ renamed-Published))
      ]
    ]
  ]

store_object-All {ℓ} :
    (P : Disk → Type ℓ) (env : Env) (ref : Ref) (dst tmp content : Bytes) (d : Disk)
    → All P (write_temp env ref dst tmp content d).1
    → All P (store_object env ref dst tmp content d).1
unfolding store_object
store_object-All P env ref dst tmp content d h = elim (Bool-cases env.stat_fails) [
  | inl t ↦ rw t tt
  | inr f ↦ rw f (elim (Option-cases (lookup dst d)) [
    | inr (file, e) ↦ rw e tt
    | inl e ↦ elim (Bool-cases (env.mkdir_fails || env.create_fails)) [
      | inl t ↦ rw (e, t) tt
      | inr g ↦ rw (e, g) h
    ]
  ])
]

-- What a reader finds under a ref: what lay there before, or the complete content of that ref.
abbrev pub IsWhole : Sha256 → Bytes → Bytes → Disk → Ref → Disk → Type 0
IsWhole sha root content d r e =
    (view root e r ≡ view root d r)
    ⊎ ((r ≡ compute_ref sha content) × (view root e r ≡ some content))

module _ (sha : Sha256) (root content : Bytes) (env : Env) (d : Disk) (r : Ref) where
  unfoldable pub target : Bytes
  target = object_path root (compute_ref sha content)

  unfoldable pub temporary : Bytes
  temporary = temp_path root (compute_ref sha content) env.temp_suffix

  pub target-ne-temporary : target ≢ temporary
  unfolding target temporary
  target-ne-temporary =
      object_path-ne-temp_path root _ _ env.temp_suffix (compute_ref-valid sha content)
        (compute_ref-valid sha content)

  view_of_invalid : (e : Disk) → valid r ≡ false → view root e r ≡ view root d r
  view_of_invalid e h = rw h

  pub view_of_published :
      (e : Disk)
      → valid r ≡ true
      → lookup (object_path root r) e ≡ (
          if bytes_eq target (object_path root r)
          then some (content, private_file)
          else lookup (object_path root r) d)
      → IsWhole sha root content d r e
  unfolding target
  view_of_published e h same = elim (Bool-cases (bytes_eq target (object_path root r))) [
    | inl t ↦
        let path_eq = (bytes_eq_iff target (object_path root r)).0 t in
        inr (
          sym (object_path-injective root _ r (compute_ref-valid sha content) h path_eq),
          rw (h, same, t),
        )
    | inr f ↦ inl (rw (h, same, f))
  ]

  pub Seen-IsWhole : (e : Disk) → Seen temporary target content d e → IsWhole sha root content d r e
  unfolding temporary target
  Seen-IsWhole e seen = elim (Bool-cases (valid r)) [
    | inr f ↦ inl (view_of_invalid e f)
    | inl t ↦
        let other =
          object_path-ne-temp_path root r (compute_ref sha content) env.temp_suffix t
            (compute_ref-valid sha content) in
        elim seen [
          | inl agrees ↦ inl (rw (t, agrees (object_path root r) other))
          | inr published ↦ view_of_published e t (published (object_path root r) other)
        ]
  ]

  write_temp-IsWhole :
      All
        (IsWhole sha root content d r)
        (write_temp env (compute_ref sha content) target temporary content d).1
  write_temp-IsWhole =
      All-map _ _ _ Seen-IsWhole (
        write_temp-Seen env (compute_ref sha content) target temporary content d
          target-ne-temporary)

  pub put_run_cancelled : env.done ≡ true → put_run sha root env content d ≡ (err cancelled, [])
  unfolding put_run
  put_run_cancelled t = ground arith

  pub put_run_live :
      env.done ≡ false
      → put_run sha root env content d
        ≡ store_object env (compute_ref sha content) target temporary content d
  unfolding put_run target temporary
  put_run_live f = ground (arith, compute_ref-valid sha content)

  -- Whatever the operating system does with the calls that `Put` makes: on every disk that it leaves
  -- behind on the way, a reader finds under each ref either what lay there before or, under the ref of
  -- the content, the complete content. No reader can observe a partly written object.
  pub put_atomic : All (IsWhole sha root content d r) (put_run sha root env content d).1
  put_atomic = elim (Bool-cases env.done) [
    | inl t ↦ rw (put_run_cancelled t) tt
    | inr f ↦ rw (put_run_live f) (
        store_object-All _ env (compute_ref sha content) target temporary content d
          write_temp-IsWhole)
  ]
