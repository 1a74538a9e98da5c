-- ===== src/Tests/Sessions.antt =====
-- src/fs.rs: a session of the overlay over the disk of one file, which is an `.npmrc`.
use airgap.Prelude.{
  ◌++◌, ◌↔◌, ◌≡◌, refl, true, false, List, [], ◌∷◌, none, some, Bytes, codes, ok, nat_eq, list_eq,
}
use airgap.Prelude.Assoc.{lookup, insert}
use airgap.Std.FilePath.{FilePath, normal, root_dir, component_eq, join, file_name, starts_with}
use airgap.Std.Utf8.{from_utf8_lossy, utf8_from, from_utf8}
use airgap.Std.Text
use airgap.Std.Text.{split, split_once, ends_with, trim, trim_start, to_ascii_lowercase}
use airgap.Redact.Detect.{detect}
use airgap.Redact.Dispatch.{redact}
use airgap.Redact.Npmrc.{redact_npmrc, is_npmrc_comment, is_npmrc_secret_key}
use airgap.Fs.View.{at, symlink_target_within_overlay}
use airgap.Fs.View.Normal.{target_from, symlink_target_within_overlay_iff}
use airgap.Fs.Types.{System, nonneg, Stat, Tree}
use airgap.Fs.Inodes
use airgap.Fs.Inodes.{path_of}
use airgap.Fs.Handles
use airgap.Fs.Io.{read_all, read_from}
use airgap.Fs.Files.{State, open_file, create_file, read}
use airgap.Fs.Session.{Request, new, run}
use airgap.Fs.Session.Sound.{Rules, Sound}
use airgap.Fs.Session.Gated.{gated, open_file-run-Approved, create_file-run-Approved}
use airgap.Profiles.Npm
use airgap.Profiles.Npm.{Asker}
use airgap.Profiles.Npm.Answers.{Approved}
use airgap.Fs.Io.Whole.{Posix}
use airgap.Fs.Session.Whole.{Reached, Wrote}
use airgap.Tests.Disk.{disk, posix}

abbrev plain_stat : Stat
plain_stat = record {
  st_mode = 33188;
  st_size = 0;
  st_blocks = 0;
  st_atime = nonneg 0;
  st_atime_nsec = nonneg 0;
  st_mtime = nonneg 0;
  st_mtime_nsec = nonneg 0;
  st_ctime = nonneg 0;
  st_ctime_nsec = nonneg 0;
  st_nlink = 1;
  st_uid = 0;
  st_gid = 0;
  st_rdev = 0;
  st_blksize = 4096;
}

abbrev pub files : Tree (disk false)
files = record {
  fstatat = λ w p follow. ok plain_stat;
  entries = λ w p. ok [];
  mkdirat = λ w p mode. (ok tt, w);
  unlinkat = λ w p dir. (ok tt, w);
  renameat = λ w p q. (ok tt, w);
  symlinkat = λ w target p. (ok tt, w);
  linkat = λ w p q. (ok tt, w);
}

abbrev pub here : FilePath
here = root_dir ∷ normal (codes "p") ∷ []

abbrev pub original : Bytes
original = codes "_auth=x"

-- The file is looked up, opened to be written, written behind its end and flushed.
abbrev requests : List Request
requests =
    Request.lookups 1 (codes ".npmrc")
    ∷ Request.opens 2 2
    ∷ Request.writes 1 22 (codes "\na=1")
    ∷ Request.flushes 1
    ∷ []

abbrev fresh_overlay : State (disk false)
fresh_overlay = new (disk false) original here true none

-- The rules that say of the files and of the writes what the requests are.
abbrev session_rules : Rules (disk false)
session_rules = record {
  path = here;
  Seen = Reached (disk false) files fresh_overlay requests;
  Sent = Wrote (disk false) files requests;
  Kept = λ g. Unit;
  keeps = λ g p a k. tt;
}

-- A link in the mounted directory that leads up and down again.
abbrev linked : System
linked = record (disk false) { readlinkat = λ w p. ok (codes "../p/./a") }

symlink_target_within_overlay_iff_example :
    (symlink_target_within_overlay linked [] here (normal (codes "l") ∷ []) ≡ true) ↔ (
      (bytes : Bytes) × (rest : FilePath) × (linked.readlinkat [] (normal (codes "l") ∷ [])
        ≡ ok bytes)
      × (target_from here (normal (codes "l") ∷ []) bytes ≡ here ++ rest))
unfolding at
symlink_target_within_overlay_iff_example =
    symlink_target_within_overlay_iff linked [] here (normal (codes "l") ∷ [])

-- The same disk behind a gate whose user says yes to everything.
abbrev asker : Asker (Unit {0})
asker w p a = (true, w)

abbrev gated_disk : System
gated_disk = gated (disk false) asker

gated_posix : Posix gated_disk
gated_posix = record {
  pread_bytes = (posix false).pread_bytes;
  pread_some = (posix false).pread_some;
  pread_error = (posix false).pread_error;
  pwrite_bytes = (posix false).pwrite_bytes;
  pwrite_some = (posix false).pwrite_some;
  pwrite_error = (posix false).pwrite_error;
  ftruncate_ok = (posix false).ftruncate_ok;
  ftruncate_error = (posix false).ftruncate_error;
}

abbrev gated_files : Tree gated_disk
gated_files = record {
  fstatat = files.fstatat;
  entries = files.entries;
  mkdirat = files.mkdirat;
  unlinkat = files.unlinkat;
  renameat = files.renameat;
  symlinkat = files.symlinkat;
  linkat = files.linkat;
}

abbrev looked_up : State gated_disk
looked_up =
    (run gated_disk gated_files (new gated_disk original here false (some (Npm.new [] tt)))
      (Request.lookups 1 (codes "a") ∷ [])).1

granted_open : (open_file gated_disk looked_up 2 0).0 ≡ ok 1
unfolding run new Npm.new Npm.allow lookup insert Inodes.new path_of Inodes.intern file_name join
    starts_with open_file Handles.empty Handles.insert
granted_open = refl

open_file-run-Approved_example :
    (rel : FilePath) × (path_of looked_up.inodes 2 ≡ some rel) × Approved asker [] (join here rel)
open_file-run-Approved_example =
    open_file-run-Approved (disk false) asker [] gated_files gated_posix here false original tt
      (Request.lookups 1 (codes "a") ∷ []) 2 0 1 granted_open

granted_create : (create_file gated_disk looked_up 1 (codes "b") 420 2).0 ≡ ok (3, 1)
unfolding run new Npm.new Npm.allow lookup insert Inodes.new path_of Inodes.intern file_name join
    starts_with create_file Handles.empty Handles.insert
granted_create = refl

create_file-run-Approved_example :
    (dir : FilePath) × (path_of looked_up.inodes 1 ≡ some dir)
    × Approved asker [] (join here (join dir (normal (codes "b") ∷ [])))
create_file-run-Approved_example =
    create_file-run-Approved (disk false) asker [] gated_files gated_posix here false original tt
      (Request.lookups 1 (codes "a") ∷ []) 1 (codes "b") 420 2 (3, 1) granted_create

-- A second link to the file, under a name that has no handler, is opened and read as it is.
abbrev through_link : List Request
through_link =
    Request.lookups 1 (codes ".npmrc") ∷ Request.links 2 1 (codes "x") ∷ Request.opens 3 0 ∷ []

link_shows :
    read
      (disk false)
      (run (disk false) files (new (disk false) original here true none) through_link).1
      1
      0
      64
    ≡ ok original
unfolding read run new Handles.get Handles.set Handles.empty Handles.insert lookup insert Inodes.new
    Inodes.path_of Inodes.intern detect from_utf8 utf8_from file_name join starts_with
    Text.starts_with read_all read_from redact redact_npmrc split split_once ends_with trim
    trim_start to_ascii_lowercase is_npmrc_comment is_npmrc_secret_key from_utf8_lossy
link_shows = refl
