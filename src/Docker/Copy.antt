-- ===== src/Docker/Copy.antt =====
-- `CopyFrom` of internal/docker/docker.go: extractCopyTar, safeArchiveName and rejectExistingSymlink.
pub mod Inside
pub mod Extracted
pub mod Ends
pub mod Written
use whaleshell_driver.Base.{
  ℕ, Str, codes, ◌==◌, split, has_prefix, is_nil, any, eqb, Bool, true, false, not, ◌&&◌, ◌||◌,
  List, [], ◌∷◌, if◌then◌else◌, Option, none, some, Result, ok, err, ℤ, pos, negsuc, ◌/◌, ◌%◌,
}
use whaleshell_driver.Defaults.{Host, FileInfo}
use whaleshell_driver.GoPath.{clean, is_abs, dir, base, join}

pub data CopyError : Type 0 where
  refused no_source broken_archive multiple_entries no_regular_file : CopyError
  invalid_name escapes symlink unreadable : Str → CopyError

-- tar.Header.Typeflag, as far as the code tells the types apart
pub data EntryType : Type 0 where
  directory regular other_type : EntryType

pub record Entry : Type 0 where
  pub type : EntryType
  pub name : Str
  pub mode : ℤ
  pub content : Str

-- What the reader of the archive gives: entries, then the end of the file or an error.
pub data Archive : Type 0 where
  finished broken : Archive
  entry : Entry → Archive → Archive

-- The calls that change the file system. Paths are relative to the root, but for the root itself.
pub data Change : Type 0 where
  make_root make_dirs : Str → Change
  write_file : Str → Bool → Str → Change

pub data Stat : Type 0 where
  missing link other_file unknown : Stat

-- The file system, which may depend on all changes before, newest first: what Lstat says of a path
-- below the root, whether a change succeeds, and whether the root can be opened.
pub record Disk : Type 0 where
  pub lstat : List Change → Str → Stat
  pub accepts : List Change → Change → Bool
  pub opens : List Change → Str → Bool

abbrev pub M : Type 0 → Type 0
M A = List Change → Result CopyError A × List Change

module _ {A : Type 0} where
  unfoldable pub pure : A → M A
  pure a h = (ok a, h)

  unfoldable pub lift : Result CopyError A → M A
  lift r h = (r, h)

unfoldable pub fail : {A : Type 0} → CopyError → M A
fail why h = (err why, h)

module _ {A B : Type 0} where
  abbrev pub continue : Result CopyError A → (A → M B) → M B
  continue (ok a) next h = next a h
  continue (err why) next h = (err why, h)

  infixl 5 ◌>>=◌ ◌>>◌
  unfoldable pub ◌>>=◌ : M A → (A → M B) → M B
  ◌>>=◌ m next h = let (r, h') = m h in continue r next h'

  abbrev pub ◌>>◌ : M A → M B → M B
  m >> rest = m >>= λ _. rest

unfoldable pub change : Disk → Change → M (Unit {0})
change disk c h = (if disk.accepts h c then ok tt else err CopyError.refused, c ∷ h)

-- safeArchiveName
unfoldable pub safe_archive_name : Str → Result CopyError Str
unfolding clean is_abs split has_prefix
safe_archive_name raw =
    let name = clean raw in
    if is_nil raw || is_abs raw
    then err (CopyError.invalid_name raw)
    else if any (λ s. s == codes "..") (split raw b'/')
    then err (CopyError.escapes raw)
    else if name == codes "." || (name == codes ".." || has_prefix name (codes "../"))
    then err (CopyError.escapes raw)
    else ok name

abbrev pub check_stat : Str → Stat → Result CopyError (Unit {0}) → Result CopyError (Unit {0})
check_stat path Stat.missing later = later
check_stat path Stat.other_file later = later
check_stat path Stat.link later = err (CopyError.symlink path)
check_stat path Stat.unknown later = err (CopyError.unreadable path)

-- The components of the path, from the one that is reached.
unfoldable pub check_components : Disk → List Change → Str → List Str → Result CopyError (Unit {0})
unfolding join
check_components disk h component [] = ok tt
check_components disk h component (part ∷ rest) =
    let here = join (component ∷ part ∷ []) in
    check_stat here (disk.lstat h here) (check_components disk h here rest)

-- rejectExistingSymlink
unfoldable pub reject_existing_symlink : Disk → Str → M (Unit {0})
unfolding check_components clean split
reject_existing_symlink disk name h = (check_components disk h [] (split (clean name) b'/'), h)

abbrev is_odd : ℕ → Bool
is_odd n = eqb (n % 2) 1

-- `mode & 0o111 != 0`, on the two's complement of a negative number
unfoldable pub is_executable : ℤ → Bool
is_executable (pos n) = is_odd n || (is_odd (n / 8) || is_odd (n / 64))
is_executable (negsuc n) = not (is_odd n) || (not (is_odd (n / 8)) || not (is_odd (n / 64)))

-- The file of an entry, below the root.
unfoldable pub write_target : Disk → Str → Entry → M (Unit {0})
unfolding reject_existing_symlink change dir ◌>>=◌ is_executable
write_target disk target e = do
  reject_existing_symlink disk target
  change disk (Change.make_dirs (dir target))
  change disk (Change.write_file target (is_executable e.mode) e.content)

unfoldable pub make_directory : Disk → Str → M (Unit {0})
unfolding reject_existing_symlink change ◌>>=◌
make_directory disk name = reject_existing_symlink disk name >> change disk (Change.make_dirs name)

-- The switch over the type; the result is `wroteFile`.
unfoldable pub place : Disk → Str → Bool → Str → Entry → Bool → EntryType → M Bool
unfolding write_target make_directory ◌>>=◌ pure fail base
place disk dest true name e wrote EntryType.directory = make_directory disk name >> pure wrote
place disk dest false name e wrote EntryType.directory = pure wrote
place disk dest true name e wrote EntryType.regular = write_target disk name e >> pure wrote
place disk dest false name e true EntryType.regular = fail CopyError.multiple_entries
place disk dest false name e false EntryType.regular = write_target disk (base dest) e >> pure true
place disk dest as_dir name e wrote EntryType.other_type = pure wrote

abbrev pub is_directory : EntryType → Bool
is_directory EntryType.directory = true
is_directory EntryType.regular = false
is_directory EntryType.other_type = false

-- The directory that is copied, which needs no entry of its own.
abbrev pub is_top : Entry → Bool
is_top e = is_directory e.type && (e.name == codes "." || e.name == codes "./")

-- The loop over the archive.
unfoldable pub extract : Disk → Str → Bool → Archive → Bool → M (Unit {0})
unfolding safe_archive_name place ◌>>=◌ pure fail lift
extract disk dest as_dir Archive.finished wrote =
    if not as_dir && not wrote then fail CopyError.no_regular_file else pure tt
extract disk dest as_dir Archive.broken wrote = fail CopyError.broken_archive
extract disk dest as_dir (Archive.entry e rest) wrote =
    let next = extract disk dest as_dir rest in
    if is_top e
    then next wrote
    else (lift (safe_archive_name e.name) >>= λ name.
        place disk dest as_dir name e wrote e.type >>= next)

abbrev pub root_of : Str → Bool → Str
root_of dest as_dir = if as_dir then dest else dir dest

unfoldable pub open_root : Disk → Str → M (Unit {0})
open_root disk root h = (if disk.opens h root then ok tt else err CopyError.refused, h)

-- extractCopyTar
unfoldable pub extract_copy_tar : Disk → Str → Bool → Archive → M (Unit {0})
unfolding extract change open_root ◌>>=◌ dir
extract_copy_tar disk dest as_dir archive = do
  change disk (Change.make_root (root_of dest as_dir))
  open_root disk (root_of dest as_dir)
  extract disk dest as_dir archive false

unfoldable pub ends_in_slash : Str → Bool
ends_in_slash [] = false
ends_in_slash (c ∷ s) = let rest = ends_in_slash s in if is_nil s then eqb c b'/' else rest

abbrev is_folder : Option FileInfo → Bool
is_folder none = false
is_folder (some info) = info.is_dir

-- CopyFrom, on the archive that the daemon answers with.
unfoldable pub copy_from : Host → Disk → Option Archive → Str → M (Unit {0})
unfolding extract_copy_tar fail ends_in_slash
copy_from host disk none dest = fail CopyError.no_source
copy_from host disk (some archive) dest =
    extract_copy_tar disk dest (ends_in_slash dest || is_folder (host.stat dest)) archive
