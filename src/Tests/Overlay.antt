-- ===== src/Tests/Overlay.antt =====
-- src/fs.rs: the overlay over the disk of one file.
use airgap.Prelude.{
  ◌||◌, ◌≡◌, refl, Bool, true, false, [], ◌∷◌, none, some, Bytes, codes, ok, err, nat_eq, list_eq,
}
use airgap.Prelude.Assoc.{lookup, insert}
use airgap.Std.FilePath.{FilePath, normal, root_dir, component_eq}
use airgap.Redact.{npmrc}
use airgap.Redact.Detect.{detect, is_env_file, is_npmrc_file}
use airgap.Redact.Dispatch.{redact, merge}
use airgap.Redact.Npmrc.{redact_npmrc, merge_npmrc, is_npmrc_comment, is_npmrc_secret_key}
use airgap.Std.Utf8.{utf8_from, from_utf8}
use airgap.Std.Text.{
  split, split_once, starts_with, ends_with, trim, trim_start, to_ascii_lowercase,
}
use airgap.Fs.Types.{eio, os_error, Handle, View}
use airgap.Fs.Inodes.{new, intern, path_of}
use airgap.Fs.Inodes.Run.{interns, run}
use airgap.Fs.Handles
use airgap.Fs.Handles.{Handles}
use airgap.Fs.Io.{read_all, write_all_at, splice, resize, read_from, write_from}
use airgap.Fs.Io.Whole.{ReadsAs, read_all-ReadsAs}
use airgap.Fs.View.{open_real, sniffed, view_of_fd}
use airgap.Fs.View.Decide.{Decided, view_of_fd-Decided}
use airgap.Fs.Files.{State, open_view, has_trunc, staged, overwrite, persist}
use airgap.Fs.Files.Persist.{persist_loses}
use airgap.Fs.Attrs.{FileAttr, after, regular_file}
use airgap.Tests.Disk.{disk, posix}

abbrev original : Bytes
original = codes "a=1\n_auth=x"

abbrev served : Bytes
served = codes "a=1\n_auth=<redacted value>"

abbrev written : Bytes
written = codes "a=2\n_auth=<redacted value>"

abbrev opened : (full : Bool) → Handle Unit → State (disk full)
opened full h = record {
  world = original;
  mount_root = root_dir ∷ normal (codes "p") ∷ [];
  redacting = true;
  gate = some tt;
  inodes = new;
  handles = Handles.set Handles.empty 1 h;
}

abbrev pending : Bytes → Handle Unit
pending buf = Handle.redacted npmrc tt served (some buf)

handle_found : (full : Bool) (h : Handle Unit) → Handles.get (opened full h).handles 1 ≡ some h
unfolding Handles.get Handles.set Handles.empty lookup insert
handle_found full h = refl

flushed : (persist (disk false) (opened false (pending written)) 1).0 ≡ ok tt
unfolding persist staged Handles.get Handles.set Handles.empty resize splice overwrite write_from
    read_from redact merge redact_npmrc merge_npmrc utf8_from from_utf8 split split_once starts_with
    ends_with trim trim_start to_ascii_lowercase lookup insert read_all is_npmrc_comment
    is_npmrc_secret_key write_all_at
flushed = refl

abbrev not_text : Bytes
not_text = 255 ∷ []

not_staged : staged (disk false) original npmrc tt not_text ≡ err eio
unfolding staged read_from redact merge redact_npmrc merge_npmrc utf8_from from_utf8 split
    split_once starts_with ends_with trim trim_start to_ascii_lowercase lookup insert read_all
not_staged = refl

staged_full : staged (disk true) original npmrc tt written ≡ ok (codes "a=2\n_auth=x", written)
unfolding staged read_from redact merge redact_npmrc merge_npmrc utf8_from from_utf8 split
    split_once starts_with ends_with trim trim_start to_ascii_lowercase lookup insert read_all
    is_npmrc_comment is_npmrc_secret_key
staged_full = refl

persist_loses_example :
    ((persist (disk true) (opened true (pending written)) 1).0 ≡ err (os_error 28))
    × ((persist (disk true) (opened true (pending written)) 1).1.world ≡ [])
persist_loses_example =
    persist_loses (disk true) (posix true) (opened true (pending written)) 1 npmrc tt served written
      (codes "a=2\n_auth=x") written (os_error 28) (handle_found true (pending written)) staged_full
      refl refl (λ e. cc e)

viewed_npmrc :
    view_of_fd (disk false) original tt (codes ".npmrc") ≡ ok (View.redacted npmrc served)
unfolding view_of_fd detect read_from redact redact_npmrc utf8_from from_utf8 split split_once
    starts_with ends_with trim trim_start to_ascii_lowercase read_all is_npmrc_comment
    is_npmrc_secret_key
viewed_npmrc = refl

root_known : path_of new 1 ≡ some []
unfolding path_of new lookup insert
root_known = refl

view_of_fd-Decided_example :
    Decided
      (disk false).crates
      (codes ".npmrc")
      (sniffed ((disk false).pread original tt 1024 0))
      original
      (View.redacted npmrc served)
view_of_fd-Decided_example =
    view_of_fd-Decided (disk false) (posix false) original tt (codes ".npmrc")
      (View.redacted npmrc served) viewed_npmrc

abbrev root_read : State (disk false)
root_read = opened false Handle.failed

abbrev a_path : FilePath
a_path = normal (codes "a") ∷ []

abbrev b_path : FilePath
b_path = normal (codes "b") ∷ []

same_inode :
    (intern (run new (interns a_path ∷ [])) a_path).0
    ≡ (intern (intern (run new (interns a_path ∷ [])) a_path).1 a_path).0
unfolding run new intern lookup insert
same_inode = refl

a_interned : lookup (run new (interns a_path ∷ [])).by_path a_path ≡ some 2
unfolding run new intern lookup insert
a_interned = refl

empty-Inv : Handles.Inv (Handles.empty {Fd = Unit {0}})
unfolding Handles.empty Handles.get lookup
empty-Inv = record { below = λ fh h e. cc e }

read_all-ReadsAs_example :
    ReadsAs (disk false) (posix false) original tt (read_all (disk false) original tt)
read_all-ReadsAs_example = read_all-ReadsAs (disk false) (posix false) original tt

abbrev attr_example : FileAttr
attr_example = record {
  ino = 2;
  size = 12;
  blocks = 8;
  atime = after 0 0;
  mtime = after 0 0;
  ctime = after 0 0;
  kind = regular_file;
  perm = 420;
  nlink = 1;
  uid = 0;
  gid = 0;
  rdev = 0;
  blksize = 4096;
}

opened_handle :
    (open_view (disk false) root_read a_path 0 (View.redacted npmrc served)).0
    ≡ ok (Handle.redacted npmrc tt served none)
unfolding open_view has_trunc open_real
opened_handle = refl

no_trunc : has_trunc 0 ≡ false
unfolding has_trunc
no_trunc = refl

env_name : (is_env_file (codes ".env") || is_npmrc_file (codes ".env")) ≡ true
unfolding is_env_file is_npmrc_file from_utf8 utf8_from
env_name = refl
