-- ===== src/Ingest/Storing/Laws.antt =====
-- Bytes before event: what `storePhoto` returns lies in the store.
use foto.Base.{
  ℕ, suc, ◌≡◌, inl, inr, refl, sym, ap, ◌∙◌, subst, Bool-cases, some, List, [], ◌∷◌, length, All,
  Bytes, is_empty, Result, ok, err, ok-injective, Result-cases,
}
use foto.Base.Int.{ℤ, pos}
use foto.Blob.Ref.{Ref, Sha256, compute_ref}
use foto.Blob.Store.{Store, IsCollisionFree, IsAlone, IsAddressed, IsStore}
use foto.Imaging.Prepare.{Codec, Rendition, dimensions}
use foto.Imaging.Prepare as Prepare
use foto.Photo.Messages.{PhotoRendition}
use foto.Ingest.Storing.{StoreFailure, StoredPhoto, store_thumbs, store_photo}

module _ (S : Store) where
  -- No object is lost.
  abbrev pub Keeps : S.State → S.State → Type 0
  Keeps s s' = (r : Ref) (b : Bytes) → S.view s r ≡ some b → S.view s' r ≡ some b

  -- The store has an object of that size under the ref.
  abbrev pub Holds : S.State → Ref → ℤ → Type 0
  Holds s ref size = (b : Bytes) × (S.view s ref ≡ some b) × (size ≡ pos (length b))

  abbrev pub HoldsRendition : S.State → PhotoRendition → Type 0
  HoldsRendition s r = Holds s r.ref r.bytes

  pub Holds-Keeps :
      (s s' : S.State) (r : Ref) (size : ℤ) → Keeps s s' → Holds s r size → Holds s' r size
  Holds-Keeps s s' r size keeps (b, v, e) = (b, keeps r b v, e)

  pub Keeps-trans : (s t u : S.State) → Keeps s t → Keeps t u → Keeps s u
  Keeps-trans s t u f g r b v = g r b (f r b v)

module _ (sha : Sha256) (contents : Bytes → Type 0) (S : Store) (law : IsStore sha S)
    (free : IsCollisionFree sha contents) where
  pub alone :
      (c : Bytes) (s : S.State) → contents c → IsAddressed sha contents S s → IsAlone sha S s c
  alone c s k h b v = let (known, e) = h (compute_ref sha c) b v in free b c known k e

  pub put-IsAddressed :
      (e : S.Env) (c : Bytes) (s : S.State)
      → contents c
      → IsAddressed sha contents S s
      → IsAddressed sha contents S (S.put e c s).1
  put-IsAddressed e c s k h r b v = elim (law.put_adds e c s r b v) [
    | inl old ↦ h r b old
    | inr (p, q) ↦ (subst contents (sym q) k, ap (compute_ref sha) q ∙ sym p)
  ]

  pub put-Keeps :
      (e : S.Env) (c : Bytes) (s : S.State)
      → contents c
      → IsAddressed sha contents S s
      → Keeps S s (S.put e c s).1
  put-Keeps e c s k h r b v = law.put_keeps e c s r b (alone c s k h) v

  pub put-Holds :
      (e : S.Env) (c : Bytes) (s : S.State) (r : Ref)
      → contents c
      → IsAddressed sha contents S s
      → (S.put e c s).0 ≡ ok r
      → Holds S (S.put e c s).1 r (pos (length c))
  put-Holds e c s r k h done = (c, law.put_stores e c s r (alone c s k h) done, refl)

  module _ (codec : Codec) (env : ℕ → S.Env) where
    record IsThumbs (s : S.State) (out : Result StoreFailure (List PhotoRendition) × S.State)
        : Type 0 where
      addressed : IsAddressed sha contents S out.1
      keeps : Keeps S s out.1
      holds : (rs : List PhotoRendition) → out.0 ≡ ok rs → All (HoldsRendition S out.1) rs

    store_thumbs-IsThumbs :
        (n : ℕ) (thumbs : List Rendition) (s : S.State)
        → All (λ r. contents r.bytes) thumbs
        → IsAddressed sha contents S s
        → IsThumbs s (store_thumbs codec S env n thumbs s)
    unfolding store_thumbs
    store_thumbs-IsThumbs n [] s _ h = record {
      addressed = h;
      keeps = λ r b v. v;
      holds = λ rs e. subst (All (HoldsRendition S s)) (ok-injective e) tt;
    }
    store_thumbs-IsThumbs n (thumb ∷ thumbs) s (k, ks) h =
        let put = S.put (env n) thumb.bytes s in
        let after = put-IsAddressed (env n) thumb.bytes s k h in
        let keep = put-Keeps (env n) thumb.bytes s k h in
        let skip = store_thumbs-IsThumbs n thumbs s ks h in
        let rest = store_thumbs-IsThumbs (suc n) thumbs put.1 ks after in
        elim (Bool-cases (is_empty thumb.bytes)) [
          | inl e ↦ rw (store_thumbs, e) skip
          | inr e ↦ elim (Result-cases put.0) [
            | inr (x, p) ↦
                rw (store_thumbs, e, p)
                  (record { addressed = after; keeps = keep; holds = λ rs q. cc })
            | inl (ref, p) ↦
                let keeps =
                  Keeps-trans S s put.1 (store_thumbs codec S env (suc n) thumbs put.1).1 keep
                    rest.keeps in
                elim (Result-cases (store_thumbs codec S env (suc n) thumbs put.1).0) [
                  | inr (x, q) ↦
                      rw (store_thumbs, e, p, q)
                        (record { addressed = rest.addressed; keeps = keeps; holds = λ rs z. cc })
                  | inl (rs', q) ↦
                      rw (store_thumbs, e, p, q)
                        (record {
                          addressed = rest.addressed;
                          keeps = keeps;
                          holds = λ rs z.
                              subst
                                (All (
                                  HoldsRendition S
                                    (store_thumbs codec S env (suc n) thumbs put.1).1))
                                (ok-injective z)
                                (
                                  Holds-Keeps S put.1
                                      (store_thumbs codec S env (suc n) thumbs put.1).1 ref
                                      (pos (length thumb.bytes)) rest.keeps
                                      (put-Holds (env n) thumb.bytes s ref k h p),
                                  rest.holds rs' q,
                                );
                        })
                ]
          ]
        ]

    -- What `storePhoto` leaves behind. When it returns a photo, the store holds every object of it.
    pub record IsStored (raw : Bytes) (s : S.State)
        (out : Result StoreFailure StoredPhoto × S.State) : Type 0 where
      pub addressed : IsAddressed sha contents S out.1
      pub keeps : Keeps S s out.1
      pub original : (p : StoredPhoto) → out.0 ≡ ok p → S.view out.1 p.original.ref ≡ some raw
      pub display : (p : StoredPhoto) → out.0 ≡ ok p → HoldsRendition S out.1 p.display
      pub renditions : (p : StoredPhoto) → out.0 ≡ ok p → All (HoldsRendition S out.1) p.renditions

    failed_IsStored :
        (raw : Bytes) (s t : S.State) (e : StoreFailure)
        → IsAddressed sha contents S t
        → Keeps S s t
        → IsStored raw s (err e, t)
    failed_IsStored raw s t e a k = record {
      addressed = a;
      keeps = k;
      original = λ p q. cc;
      display = λ p q. cc;
      renditions = λ p q. cc;
    }

    -- `storePhoto` on a store that keeps its contract and whose objects lie under their hashes, where no
    -- two of the contents concerned collide: no object is lost, every object still lies under its hash, and when it
    -- returns a photo, the store has the upload itself under the original's ref and, under the ref of
    -- the display image and of each rendition, an object of the size that is recorded.
    pub store_photo-IsStored :
        (raw : Bytes) (prepared : Prepare.Photo) (s : S.State)
        → contents raw
        → contents prepared.display.bytes
        → All (λ r. contents r.bytes) prepared.thumbs
        → IsAddressed sha contents S s
        → IsStored raw s (store_photo codec S env raw prepared s)
    unfolding store_photo
    store_photo-IsStored raw prepared s c0 c1 c2 h =
        let first = S.put (env 0) raw s in
        let a1 = put-IsAddressed (env 0) raw s c0 h in
        let k1 = put-Keeps (env 0) raw s c0 h in
        elim (Result-cases first.0) [
          | inr (e, p) ↦ rw (store_photo, p) (failed_IsStored raw s first.1 _ a1 k1)
          | inl (ref, p) ↦ elim (Result-cases (dimensions codec raw)) [
            | inr (e, q) ↦ rw (store_photo, p, q) (failed_IsStored raw s first.1 _ a1 k1)
            | inl (size, q) ↦
                let second = S.put (env 1) prepared.display.bytes first.1 in
                let a2 = put-IsAddressed (env 1) prepared.display.bytes first.1 c1 a1 in
                let k2 = put-Keeps (env 1) prepared.display.bytes first.1 c1 a1 in
                let k12 = Keeps-trans S s first.1 second.1 k1 k2 in
                elim (Result-cases second.0) [
                  | inr (e, d) ↦ rw (store_photo, p, q, d) (failed_IsStored raw s second.1 _ a2 k12)
                  | inl (dref, d) ↦
                      let rest = store_thumbs-IsThumbs 2 prepared.thumbs second.1 c2 a2 in
                      let third = store_thumbs codec S env 2 prepared.thumbs second.1 in
                      let k123 = Keeps-trans S s second.1 third.1 k12 rest.keeps in
                      elim (Result-cases third.0) [
                        | inr (e, t) ↦
                            rw (store_photo, p, q, d, t)
                              (failed_IsStored raw s third.1 _ rest.addressed k123)
                        | inl (rs, t) ↦
                            rw (store_photo, p, q, d, t)
                              (record {
                                addressed = rest.addressed;
                                keeps = k123;
                                original = λ photo z.
                                    subst (λ x. S.view third.1 x.original.ref ≡ some raw)
                                      (ok-injective z)
                                      (rest.keeps ref raw (
                                        k2 ref raw
                                          (law.put_stores (env 0) raw s ref (alone raw s c0 h) p)));
                                display = λ photo z.
                                    subst (λ x. HoldsRendition S third.1 x.display) (ok-injective z)
                                      (Holds-Keeps S second.1 third.1 dref
                                        (pos (length prepared.display.bytes)) rest.keeps
                                        (put-Holds (env 1) prepared.display.bytes first.1 dref c1 a1
                                          d));
                                renditions = λ photo z.
                                    subst (λ x. All (HoldsRendition S third.1) x.renditions)
                                      (ok-injective z) (rest.holds rs t);
                              })
                      ]
                ]
          ]
        ]
