-- ===== src/Docker/Copy/Extracted.antt =====
-- What extractCopyTar of internal/docker/docker.go changes: nothing outside the destination, and nothing
-- behind a symbolic link.
use whaleshell_driver.Base.{Str, split, Bool, true, false, List, [], ◌∷◌, ◌≡◌, ◌≢◌, ◌⊎◌, All}
use whaleshell_driver.Docker.Copy.{Change, Disk, M, Stat, root_of}
use whaleshell_driver.Docker.Copy.Inside.{IsBelow, IsWithin}
use whaleshell_driver.GoPath.{clean, dir, base, join}

-- The path of each component, from the one that is reached.
components : Str → List Str → List Str
components from [] = []
components from (part ∷ rest) = let here = join (from ∷ part ∷ []) in here ∷ components here rest

-- No component of the path is a symbolic link.
pub IsUnlinked : Disk → List Change → Str → Type 0
IsUnlinked disk h p = All (λ q. disk.lstat h q ≢ Stat.link) (components [] (split (clean p) b'/'))

-- The file of a copy: below the destination, or the destination itself.
abbrev pub IsTarget : Bool → Str → Str → Type 0
IsTarget true dest p = IsBelow p
IsTarget false dest p = p ≡ base dest

abbrev pub IsFolder : Bool → Str → Str → Type 0
IsFolder true dest p = IsWithin p
IsFolder false dest p = p ≡ dir (base dest)

-- A change after those before it.
abbrev pub IsSafe : Disk → Str → Bool → Change → List Change → Type 0
IsSafe disk dest as_dir (Change.make_root r) h = r ≡ root_of dest as_dir
IsSafe disk dest as_dir (Change.make_dirs p) h =
    IsFolder as_dir dest p × ((t : Str) × IsUnlinked disk h t × ((p ≡ t) ⊎ (p ≡ dir t)))
IsSafe disk dest as_dir (Change.write_file p x body) h =
    IsTarget as_dir dest p
    × ((h' : List Change) × (h ≡ Change.make_dirs (dir p) ∷ h') × IsUnlinked disk h' p)

abbrev pub AllSafe : Disk → Str → Bool → List Change → Type 0
AllSafe disk dest as_dir [] = Unit {0}
AllSafe disk dest as_dir (c ∷ h) = IsSafe disk dest as_dir c h × AllSafe disk dest as_dir h

module _ (disk : Disk) (dest : Str) (as_dir : Bool) where
  abbrev Safe : List Change → Type 0
  Safe = AllSafe disk dest as_dir

  abbrev Keeps : {A : Type 0} → M A → Type 0
  Keeps m = (h : List Change) → Safe h → Safe ((m h).1)
