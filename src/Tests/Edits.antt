-- ===== src/Tests/Edits.antt =====
-- src/fs.rs: an `.npmrc` on the disk of one file is opened, edited and flushed.
use airgap.Prelude.{
  ◌≡◌, refl, true, false, List, [], ◌∷◌, none, some, Bytes, arith, map, Pointwise, codes, ok,
  nat_eq, list_eq,
}
use airgap.Prelude.Assoc.{lookup, insert}
use airgap.Std.FilePath.{FilePath, normal, component_eq, join, file_name, starts_with}
use airgap.Std.Utf8.{utf8_from, from_utf8}
use airgap.Std.Text
use airgap.Std.Text.{split, split_once, ends_with, trim, trim_start, to_ascii_lowercase}
use airgap.Redact.Detect.{detect}
use airgap.Redact.Dispatch.{redact, merge}
use airgap.Redact.Npmrc.{redact_npmrc, merge_npmrc, is_npmrc_comment, is_npmrc_secret_key}
use airgap.Fs.Types.{Handle}
use airgap.Redact.{npmrc}
use airgap.Fs.Inodes
use airgap.Fs.Inodes.{path_of}
use airgap.Fs.Handles
use airgap.Fs.Io.{read_all, write_all_at, slice, splice, resize, read_from, write_from}
use airgap.Fs.Files.{State, persist, read, staged, overwrite}
use airgap.Fs.Session.{Request, new, run}
use airgap.Fs.Session.Contents.{contents_of}
use airgap.Fs.Session.Editing.{
  Edit, reads, writes, truncates, request, replay, Tells, Holds, run-replay,
}
use airgap.Fs.Session.Saving.{Saves, persist-run}
use airgap.Tests.Disk.{disk, posix}
use airgap.Tests.Sessions.{files, here, original}

-- The file, opened to be written, before it is edited.
abbrev opened : State (disk false)
opened =
    (run (disk false) files (new (disk false) original here true none)
      (Request.lookups 1 (codes ".npmrc") ∷ Request.opens 2 2 ∷ [])).1

abbrev edits : List Edit
edits = truncates 6 ∷ writes 6 (codes "<redacted value>\na=1") ∷ reads 23 8 ∷ []

abbrev npmrc_path : FilePath
npmrc_path = normal (codes ".npmrc") ∷ []

abbrev view : Bytes
view = codes "_auth=<redacted value>"

opened_path : path_of opened.inodes 2 ≡ some npmrc_path
unfolding run new lookup insert Inodes.new path_of Inodes.intern detect from_utf8 utf8_from
    file_name join starts_with Text.starts_with read_all read_from redact redact_npmrc split
    split_once ends_with trim trim_start to_ascii_lowercase is_npmrc_comment is_npmrc_secret_key
    Handles.insert Handles.empty
opened_path = refl

opened_handle : Handles.get opened.handles 1 ≡ some (Handle.redacted npmrc tt view none)
unfolding run new lookup insert Inodes.new path_of Inodes.intern detect from_utf8 utf8_from
    file_name join starts_with Text.starts_with read_all read_from redact redact_npmrc split
    split_once ends_with trim trim_start to_ascii_lowercase is_npmrc_comment is_npmrc_secret_key
    Handles.get Handles.insert Handles.empty
opened_handle = refl

run-replay_example :
    let asked = run (disk false) files opened (map (request 2 1) edits) in
    let wanted = replay (contents_of view) edits in
    Pointwise Tells asked.0 wanted.0
    × Holds (disk false) files 2 npmrc_path 1 npmrc tt view opened.world wanted.1 asked.1
run-replay_example =
    run-replay (disk false) files opened 2 npmrc_path 1 npmrc tt view none edits opened_path
      opened_handle (tt, (omega arith, (omega arith, tt)))

edited_saved :
    (persist (disk false) (run (disk false) files opened (map (request 2 1) edits)).1 1).0 ≡ ok tt
unfolding read run new Handles.get Handles.set Handles.empty Handles.insert lookup insert Inodes.new
    path_of Inodes.intern detect from_utf8 utf8_from file_name join starts_with Text.starts_with
    read_all read_from redact redact_npmrc merge merge_npmrc split split_once ends_with trim
    trim_start to_ascii_lowercase is_npmrc_comment is_npmrc_secret_key staged overwrite write_from
    write_all_at splice resize slice persist request
edited_saved = refl

persist-run_example :
    let edited = (run (disk false) files opened (map (request 2 1) edits)).1 in
    Saves
      (disk false)
      (posix false)
      opened.world
      1
      npmrc
      tt
      view
      (replay (contents_of view) edits).1
      edited
      (persist (disk false) edited 1).1
persist-run_example =
    persist-run (disk false) (posix false) files opened 2 npmrc_path 1 npmrc tt view edits
      opened_path opened_handle (tt, (omega arith, (omega arith, tt))) edited_saved
