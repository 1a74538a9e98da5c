-- ===== src/Fs/Files.antt =====
-- src/fs.rs: the operations on open files. A handler takes the state of the overlay and gives its
-- reply and the new state; the locks of the source are held over each use of a table.
pub mod Persist
pub mod Serve
pub mod Opened
use mathlib.Core.Option
use airgap.Prelude.{
  ℕ, ◌+◌, ◌%◌, ◌/◌, Bool, true, false, List, [], ◌∷◌, ◌++◌, Option, none, some, if◌then◌else◌,
  nat_beq, ltb, Bytes, Result, ok, err, map_err, ◌>>=◌, length, take,
}
use airgap.Std.FilePath.{FilePath, normal, join, file_name}
use airgap.Redact.{HandlerKind, env, npmrc}
use airgap.Redact.Detect.{is_env_file, is_npmrc_file}
use airgap.Redact.Dispatch.{redact, merge}
use airgap.Fs.Types.{
  Errno, enoent, eacces, eio, erofs, ebadf, panicked, View, Handle, Access, AccessMode, OFlag,
  System,
}
use airgap.Fs.Inodes.{InodeTable, path_of, intern}
use airgap.Fs.Handles
use airgap.Fs.Handles.{Handles}
use airgap.Fs.Io.{usize_max, read_all, write_all_at, slice, resize, splice}
use airgap.Fs.View.{open_real, view_for}

pub record State (sys : System) : Type 0 where
  pub world : sys.World
  pub mount_root : FilePath
  pub redacting : Bool
  pub gate : Option sys.Gate
  pub inodes : InodeTable
  pub handles : Handles sys.Fd

-- `flags & O_TRUNC != 0`, `flags & O_APPEND != 0`, `flags & O_ACCMODE`.
unfoldable pub has_trunc : ℕ → Bool
has_trunc flags = nat_beq (flags / 512 % 2) 1

unfoldable pub has_append : ℕ → Bool
has_append flags = nat_beq (flags / 1024 % 2) 1

unfoldable pub access_mode : ℕ → AccessMode
access_mode flags =
    if nat_beq (flags % 4) 1
    then AccessMode.write_only
    else if nat_beq (flags % 4) 2
    then AccessMode.read_write
    else AccessMode.read_only

unfoldable pub passthrough_oflag : ℕ → OFlag
unfolding access_mode has_append has_trunc
passthrough_oflag flags = record {
  mode = access_mode flags;
  append = has_append flags;
  trunc = has_trunc flags;
  creat = false;
}

abbrev pub read_write_flag : OFlag
read_write_flag = record {
  mode = AccessMode.read_write;
  append = false;
  trunc = false;
  creat = false;
}

-- The access that `open` asks the gate for: `flags & (O_WRONLY | O_RDWR) != 0` is a write.
unfoldable pub open_access : ℕ → Access
open_access flags = if nat_beq (flags % 4) 0 then Access.read else Access.write

unfoldable pub file_name_or_empty : FilePath → Bytes
file_name_or_empty rel = Option.get_or (file_name rel) []

module _ (sys : System) where
  open sys use {World, Fd, pread, pwrite, ftruncate, allow, crates}

  unfoldable pub gate_allows : State sys → FilePath → Access → Bool × State sys
  gate_allows s rel access = elim s.gate [
    | none ↦ (true, s)
    | some g ↦
        let (answer, g') = allow g (join s.mount_root rel) access in
        (answer, record s { gate = some g' })
  ]

  unfoldable pub add_handle : State sys → Handle Fd → ℕ × State sys
  add_handle s h = let (fh, hs) = Handles.insert s.handles h in (fh, record s { handles = hs })

  -- The handle of `open` for a view, where opening the real file may fail.
  unfoldable pub open_view : State sys → FilePath → ℕ → View → Result Errno (Handle Fd) × State sys
  unfolding open_real passthrough_oflag
  open_view s rel flags View.passthrough =
      let (r, w) = open_real sys s.world rel (passthrough_oflag flags) 0 in
      ((do fd ← r; ok (Handle.file fd)), record s { world = w })
  open_view s rel flags (View.redacted kind served) =
      let (r, w) = open_real sys s.world rel read_write_flag 0 in
      (
        (do
          fd ← r
          ok (Handle.redacted kind fd served (if has_trunc flags then some [] else none))),
        record s { world = w },
      )
  open_view s rel flags (View.key served) = (ok (Handle.key served), s)
  open_view s rel flags View.failed = (ok Handle.failed, s)

  unfoldable pub open_allowed : State sys → FilePath → ℕ → Result Errno ℕ × State sys
  unfolding view_for open_view add_handle file_name_or_empty
  open_allowed s rel flags =
      let (r, w) = view_for sys s.world s.redacting rel (file_name_or_empty rel) in
      let s' = record s { world = w } in
      elim r [
        | err e ↦ (err e, s')
        | ok view ↦
            let (h, s'') = open_view s' rel flags view in
            elim h [
              | err e ↦ (err e, s'')
              | ok handle ↦ let (fh, s3) = add_handle s'' handle in (ok fh, s3)
            ]
      ]

  unfoldable pub open_file : State sys → ℕ → ℕ → Result Errno ℕ × State sys
  unfolding gate_allows open_allowed
  open_file s ino flags = elim (path_of s.inodes ino) [
    | none ↦ (err enoent, s)
    | some rel ↦
        let (allowed, s') = gate_allows s rel (open_access flags) in
        if allowed then open_allowed s' rel flags else (err eacces, s')
  ]

  -- A file that is created is empty, so only the handlers by name apply.
  unfoldable pub created_handle : Bool → Bytes → Fd → Handle Fd
  created_handle redacting name fd =
      if redacting
      then if is_env_file name
        then Handle.redacted env fd [] (some [])
        else if is_npmrc_file name
        then Handle.redacted npmrc fd [] (some [])
        else Handle.file fd
      else Handle.file fd

  -- `create`, up to the attributes of its reply. `mode` is the mode with the mask taken off.
  unfoldable pub create_file : State sys → ℕ → Bytes → ℕ → ℕ → Result Errno (ℕ × ℕ) × State sys
  unfolding gate_allows created_handle open_real add_handle
  create_file s parent name mode flags = elim (path_of s.inodes parent) [
    | none ↦ (err enoent, s)
    | some parent_path ↦
        let rel = join parent_path (normal name ∷ []) in
        let (allowed, s') = gate_allows s rel Access.create in
        if allowed
        then (let (r, w) =
              open_real sys s'.world rel
                (record {
                  mode = AccessMode.read_write;
                  append = false;
                  trunc = has_trunc flags;
                  creat = true;
                })
                (mode % 4096) in
            elim r [
              | err e ↦ (err e, record s' { world = w })
              | ok fd ↦
                  let (ino, table) = intern s'.inodes rel in
                  let (fh, s3) =
                    add_handle (record s' { world = w; inodes = table })
                      (created_handle s'.redacting name fd) in
                  (ok (ino, fh), s3)
            ])
        else (err eacces, s')
  ]

  -- What a handle gives to `read`.
  unfoldable pub read_handle : World → Option (Handle Fd) → ℕ → ℕ → Result Errno Bytes
  read_handle w none offset size = err ebadf
  read_handle w (some (Handle.file fd)) offset size = (do
    bs ← pread w fd size offset
    ok (take size bs))
  read_handle w (some (Handle.redacted kind fd served pending)) offset size =
      ok (slice (Option.get_or pending served) offset size)
  read_handle w (some (Handle.key served)) offset size = ok (slice served offset size)
  read_handle w (some Handle.failed) offset size = err eio

  unfoldable pub read : State sys → ℕ → ℕ → ℕ → Result Errno Bytes
  unfolding read_handle
  read s fh offset size = read_handle s.world (Handles.get s.handles fh) offset size

  -- Where `offset as usize + data.len()` does not fit 64 bits, the sum panics, or the slice behind it
  -- where sums are not checked; no later request gets past the poisoned lock to the buffer.
  unfoldable pub write_handle :
      State sys → ℕ → Option (Handle Fd) → ℕ → Bytes → Result Errno ℕ × State sys
  write_handle s fh none offset bytes = (err ebadf, s)
  write_handle s fh (some (Handle.file fd)) offset bytes =
      let (r, w) = pwrite s.world fd bytes offset in (r, record s { world = w })
  write_handle s fh (some (Handle.redacted kind fd served pending)) offset bytes =
      let buf = Option.get_or pending served in
      if ltb usize_max (offset + length bytes)
      then (
        err panicked,
        record s { handles = Handles.set s.handles fh (Handle.redacted kind fd served (some buf)) },
      )
      else (
        ok (length bytes),
        record s {
          handles =
              Handles.set s.handles fh
                (Handle.redacted kind fd served (some (splice buf offset bytes)));
        },
      )
  write_handle s fh (some (Handle.key served)) offset bytes = (err erofs, s)
  write_handle s fh (some Handle.failed) offset bytes = (err eio, s)

  unfoldable pub write : State sys → ℕ → ℕ → Bytes → Result Errno ℕ × State sys
  unfolding write_handle
  write s fh offset bytes = write_handle s fh (Handles.get s.handles fh) offset bytes

  -- `persist` reads the original, merges, and makes the new view before it touches the file.
  unfoldable pub staged : World → HandlerKind → Fd → Bytes → Result Errno (Bytes × Bytes)
  staged w kind fd written = do
    original ← read_all sys w fd
    merged ← map_err eio (merge crates kind original written)
    view ← map_err eio (redact crates kind merged)
    ok (merged, view)

  unfoldable pub overwrite : World → Fd → Bytes → Result Errno (Unit {0}) × World
  overwrite w fd merged =
      let (r, w') = ftruncate w fd 0 in
      elim r [ err e ↦ (err e, w') | ok done ↦ write_all_at sys w' fd merged ]

  unfoldable pub persist_pending :
      State sys → ℕ → HandlerKind → Fd → Bytes → Bytes → Result Errno (Unit {0}) × State sys
  unfolding staged overwrite
  persist_pending s fh kind fd served written =
      let taken = Handles.set s.handles fh (Handle.redacted kind fd served none) in
      elim (staged s.world kind fd written) [
        | err e ↦ (err e, record s { handles = taken })
        | ok (merged, view) ↦
            let (r, w) = overwrite s.world fd merged in
            elim r [
              | err e ↦ (err e, record s { handles = taken; world = w })
              | ok done ↦ (
                ok tt,
                record s {
                  handles = Handles.set s.handles fh (Handle.redacted kind fd view none);
                  world = w;
                },
              )
            ]
      ]

  unfoldable pub persist_handle :
      State sys → ℕ → Option (Handle Fd) → Result Errno (Unit {0}) × State sys
  unfolding persist_pending
  persist_handle s fh (some (Handle.redacted kind fd served (some written))) =
      persist_pending s fh kind fd served written
  persist_handle s fh _ = (ok tt, s)

  -- `persist`, which is `flush` and `fsync` too.
  unfoldable pub persist : State sys → ℕ → Result Errno (Unit {0}) × State sys
  unfolding persist_handle
  persist s fh = persist_handle s fh (Handles.get s.handles fh)

  unfoldable pub release : State sys → ℕ → Result Errno (Unit {0}) × State sys
  unfolding persist
  release s fh =
      let (result, s') = persist s fh in
      (result, record s' { handles = Handles.remove s'.handles fh })
