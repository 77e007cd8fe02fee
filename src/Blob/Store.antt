-- ===== src/Blob/Store.antt =====
-- The interface `Store` of go/internal/blob/blob.go: what a client may rely on.
use foto.Base.{◌≡◌, ◌⊎◌, Option, none, some, Bytes, Result, ok, err}
use foto.Blob.Ref.{Ref, Sha256, compute_ref}

pub data StoreError : Type 0 where
  cancelled : StoreError
  invalid_ref : StoreError
  not_found : StoreError
  io : StoreError

-- `Env` is what a call meets besides the store: a cancelled context, a failing file system.
pub record Store : Type 1 where
  pub State : Type 0
  pub Env : Type 0
  pub view : State → Ref → Option Bytes
  pub put : Env → Bytes → State → Result StoreError Ref × State
  pub get : Env → Ref → State → Result StoreError Bytes

-- No two of these contents share a ref.
abbrev pub IsCollisionFree : Sha256 → (Bytes → Type 0) → Type 0
IsCollisionFree sha contents =
    (a b : Bytes) → contents a → contents b → compute_ref sha a ≡ compute_ref sha b → a ≡ b

-- Every object is one of these contents, and lies under the ref of its own.
abbrev pub IsAddressed : Sha256 → (Bytes → Type 0) → (S : Store) → S.State → Type 0
IsAddressed sha contents S s =
    (r : Ref) (c : Bytes) → S.view s r ≡ some c → contents c × (compute_ref sha c ≡ r)

-- What lies under the ref of a content is that content.
abbrev pub IsAlone : Sha256 → (S : Store) → S.State → Bytes → Type 0
IsAlone sha S s c = (b : Bytes) → S.view s (compute_ref sha c) ≡ some b → b ≡ c

pub record IsStore (sha : Sha256) (S : Store) : Type 0 where
  -- A `Put` that succeeds returns the ref of the content, and the content lies there.
  pub put_ref :
      (env : S.Env) (c : Bytes) (s : S.State) (r : Ref)
      → (S.put env c s).0 ≡ ok r
      → r ≡ compute_ref sha c
  pub put_stores :
      (env : S.Env) (c : Bytes) (s : S.State) (r : Ref)
      → IsAlone sha S s c
      → (S.put env c s).0 ≡ ok r
      → S.view (S.put env c s).1 r ≡ some c
  -- Whether it succeeds or fails, `Put` loses no object and adds no other but the content.
  pub put_keeps :
      (env : S.Env) (c : Bytes) (s : S.State) (r : Ref) (b : Bytes)
      → IsAlone sha S s c
      → S.view s r ≡ some b
      → S.view (S.put env c s).1 r ≡ some b
  pub put_adds :
      (env : S.Env) (c : Bytes) (s : S.State) (r : Ref) (b : Bytes)
      → S.view (S.put env c s).1 r ≡ some b
      → (S.view s r ≡ some b) ⊎ ((r ≡ compute_ref sha c) × (b ≡ c))
  -- `Get` returns what lies under the ref.
  pub get_view :
      (env : S.Env) (r : Ref) (s : S.State) (b : Bytes) → S.get env r s ≡ ok b → S.view s r ≡ some b

-- `Get` reports a ref as not found only where nothing lies under it.
abbrev pub IsHonest : Store → Type 0
IsHonest S =
    (env : S.Env) (r : Ref) (s : S.State) → S.get env r s ≡ err not_found → S.view s r ≡ none
