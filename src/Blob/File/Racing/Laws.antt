-- ===== src/Blob/File/Racing/Laws.antt =====
-- No call of `Put` shows a part of an object, whatever other calls do between its system calls.
use foto.Base.{
  ℕ, ◌≡◌, ◌≢◌, ◌⊎◌, inl, inr, refl, sym, ap, ◌∙◌, subst, arith, Bool-cases, ◌||◌, ◌==◌, ==_iff,
  some, Option-cases, List, [], ◌∷◌, Bytes, bytes_eq_iff, Result, ok, err,
}
use foto.Base.Dict.{lookup, insert, erase, lookup-insert, lookup-insert_self, lookup-erase}
use foto.Blob.Ref.{Ref, Sha256, compute_ref, compute_ref-valid}
use foto.Blob.Store.{StoreError, IsCollisionFree, IsAddressed}
use foto.Blob.File.{Disk, private_file, object_path, path, cleanup, view, file_store}
use foto.Blob.File.Paths.{object_path-ne-temp_path}
use foto.Blob.File.Atomic.{
  Agrees-insert, Agrees-cleanup, Seen, IsWhole, Seen-IsWhole, target, temporary,
}
use foto.Blob.File.Racing.{
  Stage, stating, creating, writing, securing, renaming, removing, returned, PutCall, ref_of,
  temp_of, rename, stat, call_at, system_call, Race, turn, race_on,
}

-- Something lies under the ref.
abbrev pub Visible : Bytes → Disk → Ref → Type 0
Visible root d r = (b : Bytes) × (view root d r ≡ some b)

module _ (sha : Sha256) (root : Bytes) (w : PutCall) where
  abbrev pub IsDone : Disk → Result StoreError Ref → Type 0
  IsDone d (ok r) = (r ≡ ref_of sha root w) × Visible root d r
  IsDone d (err e) = Unit

  -- What a call relies on at a stage.
  abbrev pub IsReady : Stage → Disk → Type 0
  IsReady stating d = Unit
  IsReady creating d = Unit
  IsReady writing d = Unit
  IsReady securing d = lookup (temp_of sha root w) d ≡ some (w.content, w.env.temp_mode)
  IsReady renaming d = lookup (temp_of sha root w) d ≡ some (w.content, private_file)
  IsReady (removing result) d = IsDone d result
  IsReady (returned result) d = IsDone d result

  -- What others see of a call.
  abbrev IsSeen : Disk → Disk → Type 0
  IsSeen d e = Seen (temp_of sha root w) (object_path root (ref_of sha root w)) w.content d e

  visible_of_file :
      (d : Disk) (file : Bytes × ℕ)
      → lookup (object_path root (ref_of sha root w)) d ≡ some file
      → IsDone d (ok (ref_of sha root w))
  visible_of_file d file h = (refl, (file.0, rw (compute_ref-valid sha w.content, h) refl))

  IsWhole-of_seen : (d e : Disk) (r : Ref) → IsSeen d e → IsWhole sha root w.content d r e
  unfolding target temporary
  IsWhole-of_seen d e r seen = Seen-IsWhole sha root w.content w.env d r e seen

  IsDone-Seen :
      (d e : Disk) (result : Result StoreError Ref)
      → ((r : Ref) → Visible root d r → Visible root e r)
      → IsDone d result
      → IsDone e result
  IsDone-Seen d e (ok r) keeps (same, h) = (same, keeps r h)
  IsDone-Seen d e (err x) keeps h = tt

  Visible-Seen : (d e : Disk) → IsSeen d e → (r : Ref) → Visible root d r → Visible root e r
  Visible-Seen d e seen r (b, h) = elim (IsWhole-of_seen d e r seen) [
    | inl same ↦ (b, same ∙ h)
    | inr (_, found) ↦ (w.content, found)
  ]

  -- A system call shows nothing, or the complete object, and leaves what the next one relies on.
  abbrev Goes : Stage × Disk → Disk → Type 0
  Goes (stage, e) d = IsSeen d e × IsReady stage e

  unseen : (d : Disk) → IsSeen d d
  unseen d = inl (λ p h. refl)

  stat-Goes : (d : Disk) → Goes (stat sha root w (object_path root (ref_of sha root w)) d) d
  unfolding stat
  stat-Goes d = elim (Bool-cases w.env.stat_fails) [
    | inl t ↦ rw t (unseen d, tt)
    | inr f ↦ elim (Option-cases (lookup (object_path root (ref_of sha root w)) d)) [
      | inl e ↦ rw (stat, f, e) (unseen d, tt)
      | inr (file, e) ↦ rw (stat, f, e) (unseen d, visible_of_file d file e)
    ]
  ]

  rename-Goes :
      (d : Disk)
      → IsReady renaming d
      → Goes (rename sha root w (object_path root (ref_of sha root w)) d) d
  unfolding rename
  rename-Goes d h = elim (Bool-cases (w.env.close_fails || w.env.rename_fails)) [
    | inl t ↦ rw t (unseen d, tt)
    | inr f ↦
        let dst = object_path root (ref_of sha root w) in
        let tmp = temp_of sha root w in
        let file : Bytes × ℕ = (w.content, private_file) in
        rw (rename, f, h)
          (
            inr (λ p apart. ground (
              arith,
              lookup-insert dst p file (erase tmp d),
              lookup-erase tmp p d,
              bytes_eq_iff tmp p,
              apart,
            )),
            visible_of_file (insert dst file (erase tmp d)) file
                (lookup-insert_self dst file (erase tmp d)),
          )
  ]

  call_at-Goes :
      (stage : Stage) (d : Disk)
      → IsReady stage d
      → Goes (call_at sha root w (object_path root (ref_of sha root w)) stage d) d
  unfolding call_at
  call_at-Goes stating d h = elim (Bool-cases w.env.done) [
    | inl t ↦ rw t (unseen d, tt)
    | inr f ↦ rw f (stat-Goes d)
  ]
  call_at-Goes creating d h = elim (Bool-cases (w.env.mkdir_fails || w.env.create_fails)) [
    | inl t ↦ rw t (unseen d, tt)
    | inr f ↦ rw f (inl (Agrees-insert (temp_of sha root w) d d _ (λ p n. refl)), tt)
  ]
  call_at-Goes writing d h =
      let seen = λ (file : Bytes × ℕ). Agrees-insert (temp_of sha root w) d d file (λ p n. refl) in
      elim (Bool-cases w.env.write_fails) [
        | inl t ↦ rw t (inl (seen _), tt)
        | inr f ↦ rw f (inl (seen _), lookup-insert_self (temp_of sha root w) _ d)
      ]
  call_at-Goes securing d h = elim (Bool-cases w.env.chmod_fails) [
    | inl t ↦ rw t (unseen d, tt)
    | inr f ↦ rw f (
      inl (Agrees-insert (temp_of sha root w) d d _ (λ p n. refl)),
      lookup-insert_self (temp_of sha root w) _ d,
    )
  ]
  call_at-Goes renaming d h = rename-Goes d h
  call_at-Goes (removing result) d h =
      let seen = inl (Agrees-cleanup (temp_of sha root w) d w.env d (λ p n. refl)) in
      (
        seen,
        IsDone-Seen d (cleanup w.env (temp_of sha root w) d) result
            (Visible-Seen d (cleanup w.env (temp_of sha root w) d) seen) h,
      )
  call_at-Goes (returned result) d h = (unseen d, h)

  pub system_call-Goes :
      (stage : Stage) (d : Disk) → IsReady stage d → Goes (system_call sha root w stage d) d
  unfolding system_call path
  system_call-Goes stage d h =
      let same : call_at sha root w (object_path root (ref_of sha root w)) stage d
          ≡ system_call sha root w stage d =
        rw (system_call, path, compute_ref-valid sha w.content) refl in
      subst (λ out. Goes out d) same (call_at-Goes stage d h)

module _ (sha : Sha256) (root : Bytes) where
  kept-apart :
      (w v : PutCall) (d e : Disk)
      → temp_of sha root w ≢ temp_of sha root v
      → IsSeen sha root v d e
      → lookup (temp_of sha root w) e ≡ lookup (temp_of sha root w) d
  kept-apart w v d e apart (inl agrees) = agrees (temp_of sha root w) apart
  kept-apart w v d e apart (inr published) =
      let other =
        object_path-ne-temp_path root (ref_of sha root v) (ref_of sha root w) w.env.temp_suffix
          (compute_ref-valid sha v.content) (compute_ref-valid sha w.content) in
      ground (
        arith,
        published (temp_of sha root w) apart,
        bytes_eq_iff (object_path root (ref_of sha root v)) (temp_of sha root w),
        other,
      )

  -- What another call does leaves what this one relies on.
  IsReady-kept :
      (w v : PutCall) (stage : Stage) (d e : Disk)
      → temp_of sha root w ≢ temp_of sha root v
      → IsSeen sha root v d e
      → IsReady sha root w stage d
      → IsReady sha root w stage e
  IsReady-kept w v stating d e apart seen h = tt
  IsReady-kept w v creating d e apart seen h = tt
  IsReady-kept w v writing d e apart seen h = tt
  IsReady-kept w v securing d e apart seen h = kept-apart w v d e apart seen ∙ h
  IsReady-kept w v renaming d e apart seen h = kept-apart w v d e apart seen ∙ h
  IsReady-kept w v (removing result) d e apart seen h =
      IsDone-Seen sha root w d e result (Visible-Seen sha root v d e seen) h
  IsReady-kept w v (returned result) d e apart seen h =
      IsDone-Seen sha root w d e result (Visible-Seen sha root v d e seen) h

  module _ (writers : ℕ → PutCall)
      (names : (i j : ℕ) → temp_of sha root (writers i) ≡ temp_of sha root (writers j) → i ≡ j)
      (before : Disk) where
    -- What lay there before, or the complete content of a call under its ref.
    abbrev pub IsWholeAmong : Disk → Ref → Type 0
    IsWholeAmong d r =
        (view root d r ≡ view root before r)
        ⊎ ((i : ℕ) × (r ≡ compute_ref sha (writers i).content)
            × (view root d r ≡ some (writers i).content))

    pub record IsRacing (race : Race) : Type 0 where
      pub whole : (r : Ref) → IsWholeAmong race.disk r
      pub ready : (i : ℕ) → IsReady sha root (writers i) (race.stages i) race.disk

    pub turn-IsRacing :
        (i : ℕ) (race : Race) → IsRacing race → IsRacing (turn sha root writers i race)
    unfolding turn
    turn-IsRacing i race h =
        let next = system_call sha root (writers i) (race.stages i) race.disk in
        let goes = system_call-Goes sha root (writers i) (race.stages i) race.disk (h.ready i) in
        record {
          whole = λ r. elim (IsWhole-of_seen sha root (writers i) race.disk next.1 r goes.0) [
            | inl same ↦ elim (h.whole r) [
              | inl old ↦ inl (same ∙ old)
              | inr (j, named, found) ↦ inr (j, named, same ∙ found)
            ]
            | inr (named, found) ↦ inr (i, named, found)
          ];
          ready = λ j. elim (Bool-cases (i == j)) [
            | inl e ↦
                rw e (
                  subst (λ k. IsReady sha root (writers k) next.0 next.1) ((==_iff i j).0 e) goes.1)
            | inr e ↦ rw e (
                IsReady-kept (writers j) (writers i) (race.stages j) race.disk next.1
                  (λ same. cc (sym e ∙ ((==_iff i j).1 (sym (names j i same))))) goes.0 (h.ready j))
          ];
        }

    race_on-IsRacing :
        (schedule : List ℕ) (race : Race)
        → IsRacing race
        → IsRacing (race_on sha root writers schedule race)
    unfolding race_on
    race_on-IsRacing [] race h = h
    race_on-IsRacing (i ∷ schedule) race h =
        race_on-IsRacing schedule (turn sha root writers i race) (turn-IsRacing i race h)

    IsReady-stating :
        (i : ℕ) (stage : Stage) → stage ≡ stating → IsReady sha root (writers i) stage before
    IsReady-stating i stage e = subst (λ t. IsReady sha root (writers i) t before) (sym e) tt

    -- Calls that have just begun.
    pub begun-IsRacing :
        (race : Race) → race.disk ≡ before → ((i : ℕ) → race.stages i ≡ stating) → IsRacing race
    begun-IsRacing race same fresh = record {
      whole = λ r. inl (ap (λ d. view root d r) same);
      ready = λ i.
          subst (IsReady sha root (writers i) (race.stages i)) (sym same)
            (IsReady-stating i (race.stages i) (fresh i));
    }

    module _ (contents : Bytes → Type 0) (free : IsCollisionFree sha contents)
        (known : (i : ℕ) → contents (writers i).content)
        (addressed : IsAddressed sha contents (file_store sha root) before) where
      -- What readers and callers can rely on at a moment of a race.
      pub record IsFair (race : Race) : Type 0 where
        pub whole : (r : Ref) → IsWholeAmong race.disk r
        pub stored :
            (i : ℕ) (r : Ref)
            → race.stages i ≡ returned (ok r)
            → (r ≡ compute_ref sha (writers i).content)
              × (view root race.disk r ≡ some (writers i).content)

      own_content :
          (d : Disk) (i : ℕ) (r : Ref)
          → IsWholeAmong d r
          → r ≡ compute_ref sha (writers i).content
          → Visible root d r
          → view root d r ≡ some (writers i).content
      own_content d i r (inl old) named (b, found) =
          let (there, hash) = addressed r b (sym old ∙ found) in
          found ∙ ap some (free b (writers i).content there (known i) (hash ∙ named))
      own_content d i r (inr (j, other, shown)) named h =
          shown
          ∙ ap some
              (free (writers j).content (writers i).content (known j) (known i) (sym other ∙ named))

      -- However the system calls of any number of calls of `Put` interleave on one disk, each call with its own
      -- content and its own failures, and where each has a name of its own for its temporary file: at
      -- every moment a reader finds under each ref either what lay there at the start or the complete
      -- content of one of the calls, whose hash the ref is, and a call that has returned a ref has
      -- returned the hash of its content, and the content lies under it, then and at every later
      -- moment. All calls have just begun, the objects at the start lie under their hashes, and no two of the
      -- contents concerned collide.
      pub race_on-IsFair :
          (schedule : List ℕ) (race : Race)
          → race.disk ≡ before
          → ((i : ℕ) → race.stages i ≡ stating)
          → IsFair (race_on sha root writers schedule race)
      race_on-IsFair schedule race same fresh =
          let h = race_on-IsRacing schedule race (begun-IsRacing race same fresh) in
          let end = race_on sha root writers schedule race in
          record {
            whole = h.whole;
            stored = λ i r e.
                let done = subst (λ t. IsReady sha root (writers i) t end.disk) e (h.ready i) in
                (done.0, own_content end.disk i r (h.whole r) done.0 done.1);
          }
