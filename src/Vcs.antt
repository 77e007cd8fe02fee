-- ===== src/Vcs.antt =====
-- The build's identity: go/internal/vcs/vcs.go. What the linker injects and what `debug.ReadBuildInfo`
-- returns are parameters.
use foto.Base.{
  ◌≡◌, refl, inl, inr, false, Bool-cases, Option, none, some, List, [], ◌∷◌, ◌++◌, not, Bytes,
  codes, is_empty, bytes_eq, if◌then◌else◌,
}

-- The loop over the settings: the revision and whether it is modified, the last setting of a key first.
unfoldable pub read_settings : List (Bytes × Bytes) → Bytes → Bytes → Bytes × Bytes
read_settings [] revision modified = (revision, modified)
read_settings ((key, value) ∷ settings) revision modified =
    read_settings settings (if bytes_eq key (codes "vcs.revision") then value else revision) (
      if bytes_eq key (codes "vcs.revision")
      then modified
      else if bytes_eq key (codes "vcs.modified")
      then value
      else modified)

abbrev pub unknown : Bytes
unknown = codes "unknown"

-- From the settings on.
unfoldable pub version_of : Bytes × Bytes → Bytes
version_of (revision, modified) =
    if is_empty revision
    then unknown
    else if bytes_eq modified (codes "true")
    then revision ++ codes "-dirty"
    else revision

unfoldable pub version : Bytes → Option (List (Bytes × Bytes)) → Bytes
unfolding read_settings version_of
version injected info =
    if not (is_empty injected)
    then injected
    else (elim info [ none ↦ unknown | some settings ↦ version_of (read_settings settings [] []) ])

version_of-filled : (revision modified : Bytes) → is_empty (version_of (revision, modified)) ≡ false
unfolding version_of
version_of-filled [] modified = refl
version_of-filled (c ∷ revision) modified = elim (Bool-cases (bytes_eq modified (codes "true"))) [
  | inl e ↦ rw e refl
  | inr e ↦ rw e refl
]

-- Every event is stamped with a version that is not empty.
pub version-filled :
    (injected : Bytes) (info : Option (List (Bytes × Bytes)))
    → is_empty (version injected info) ≡ false
unfolding version
version-filled (c ∷ injected) info = refl
version-filled [] none = refl
version-filled [] (some settings) =
    let (revision, modified) = read_settings settings [] [] in version_of-filled revision modified
