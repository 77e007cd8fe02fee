-- ===== src/Blob/File/Racing/Finishing.antt =====
-- A call of `Put` whose system calls succeed comes to its end, whatever other calls do between them.
use foto.Base.{ℕ, ◌-◌, ◌≤◌, ◌≡◌, false, Bytes, ok}
use foto.Blob.Ref.{Sha256}
use foto.Blob.File.{Env}
use foto.Blob.File.Racing.{
  Stage, stating, creating, writing, securing, renaming, removing, returned, PutCall, ref_of,
  rename, stat,
}

-- No system call of a `Put` fails up to the one that renames, and its context is not done.
pub record IsCalm (env : Env) : Type 0 where
  pub live : env.done ≡ false
  pub stat : env.stat_fails ≡ false
  pub mkdir : env.mkdir_fails ≡ false
  pub create : env.create_fails ≡ false
  pub write : env.write_fails ≡ false
  pub chmod : env.chmod_fails ≡ false
  pub close : env.close_fails ≡ false
  pub rename : env.rename_fails ≡ false

-- The system calls that a call has left at most.
abbrev left : Stage → ℕ
left stating = 6
left creating = 5
left writing = 4
left securing = 3
left renaming = 2
left (removing result) = 1
left (returned result) = 0

module _ (sha : Sha256) (root : Bytes) (w : PutCall) where
  -- A call that has a result has its ref.
  abbrev IsHopeful : Stage → Type 0
  IsHopeful stating = Unit
  IsHopeful creating = Unit
  IsHopeful writing = Unit
  IsHopeful securing = Unit
  IsHopeful renaming = Unit
  IsHopeful (removing result) = result ≡ ok (ref_of sha root w)
  IsHopeful (returned result) = result ≡ ok (ref_of sha root w)

  -- A step from one stage to another.
  abbrev IsOnward : Stage → Stage → Type 0
  IsOnward from to = IsHopeful to × (left to ≤ left from - 1)
