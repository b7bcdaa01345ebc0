-- ===== src/Tests/Copies.antt =====
-- A copy out of a sandbox: a directory with a program in it, onto a disk that is empty.
use whaleshell_driver.Base.{Str, codes, true, List, [], ◌∷◌, pos}
use whaleshell_driver.Docker.Copy.{Archive, Change, Disk, Entry, EntryType, Stat}

abbrev empty_disk : Disk
empty_disk = record { lstat = λ h p. Stat.missing; accepts = λ h c. true; opens = λ h root. true }

abbrev named_entry : EntryType → Str → Entry
named_entry type name = record { type = type; name = name; mode = pos 64; content = codes "#!" }

abbrev archive : Archive
archive = Archive.entry (named_entry EntryType.directory (codes "./")) (
    Archive.entry (named_entry EntryType.other_type (codes "bin"))
      (Archive.entry (named_entry EntryType.regular (codes "bin//run")) Archive.finished))

abbrev destination : Str
destination = codes "/home/me/out"

abbrev changes : List Change
changes =
    Change.write_file (codes "bin/run") true (codes "#!")
    ∷ Change.make_dirs (codes "bin")
    ∷ Change.make_root destination
    ∷ []
