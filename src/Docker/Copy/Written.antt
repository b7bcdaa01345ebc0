-- ===== src/Docker/Copy/Written.antt =====
-- The files that extractCopyTar of internal/docker/docker.go has written when it succeeds.
use whaleshell_driver.Base.{Str, Bool, true, false, List, [], ◌∷◌, ◌≡◌, refl, length}
use whaleshell_driver.Docker.Copy.{Archive, Change, Entry, EntryType, is_executable}
use whaleshell_driver.Docker.Copy.Ends.{Ends}
use whaleshell_driver.GoPath.{clean, base}

-- A file: its path below the root, whether it is executable, and its content.
abbrev pub File : Type 0
File = Str × Bool × Str

-- The files of a history, the newest first.
pub written : List Change → List File
written [] = []
written (Change.make_root r ∷ h) = written h
written (Change.make_dirs p ∷ h) = written h
written (Change.write_file p x body ∷ h) = (p, x, body) ∷ written h

abbrev pub file_of : Bool → Str → Entry → File
file_of true dest e = (clean e.name, is_executable e.mode, e.content)
file_of false dest e = (base dest, is_executable e.mode, e.content)

abbrev pub add_file : EntryType → File → List File → List File
add_file EntryType.directory file files = files
add_file EntryType.regular file files = file ∷ files
add_file EntryType.other_type file files = files

-- The regular files of an archive, the last first, in front of those given.
pub files_of : Bool → Str → Archive → List File → List File
files_of as_dir dest Archive.finished files = files
files_of as_dir dest Archive.broken files = files
files_of as_dir dest (Archive.entry e rest) files =
    files_of as_dir dest rest (add_file e.type (file_of as_dir dest e) files)

-- As a file, a copy has written one exactly where `wroteFile` says so.
abbrev Agrees : Bool → Bool → List File → Type 0
Agrees true wrote files = Unit {0}
Agrees false true files = length files ≡ 1
Agrees false false files = files ≡ []

-- What an entry adds, and what becomes of `wroteFile`.
abbrev Adds : Bool → Str → Entry → EntryType → List Change → Bool → List Change → Type 0
Adds as_dir dest e type h wrote h' =
    (written h' ≡ add_file type (file_of as_dir dest e) (written h))
    × Agrees as_dir wrote (written h')

-- One file where the copy is a file.
abbrev IsSingle : Bool → List File → Type 0
IsSingle true files = Unit {0}
IsSingle false files = length files ≡ 1

-- The loop has written what the archive holds in addition to the files given.
abbrev Extracted : Bool → Str → Archive → List File → Unit {0} → List Change → Type 0
Extracted as_dir dest archive files u h =
    (written h ≡ files_of as_dir dest archive files) × IsSingle as_dir (written h)

start : (as_dir : Bool) → Agrees as_dir false []
start true = tt
start false = refl
