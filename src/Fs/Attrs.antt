-- ===== src/Fs/Attrs.antt =====
-- src/fs.rs: the attributes that the overlay shows, from those of the real file and its view, and
-- `getattr` and `setattr`.
pub mod Size
use mathlib.Core.Option
use airgap.Prelude.{
  ℕ, ◌+◌, ◌/◌, ◌%◌, min, Bool, true, false, Option, none, some, [], if◌then◌else◌, nat_beq, length,
  Bytes, Result, ok, err,
}
use airgap.Std.FilePath.{FilePath}
use airgap.Fs.Types.{
  Errno, enoent, eio, erofs, View, Handle, OFlag, AccessMode, System, Tree, Stat, Int64, nonneg,
  negative,
}
use airgap.Fs.Inodes.{path_of}
use airgap.Fs.Handles
use airgap.Fs.Handles.{Handles}
use airgap.Fs.Io.{resize}
use airgap.Fs.View.{at, open_real, view_for, symlink_target_within_overlay}
use airgap.Fs.Files.{State, file_name_or_empty}

pub data FileType : Type 0 where
  directory symlink named_pipe char_device block_device socket regular_file : FileType

-- Seconds after or before the epoch, and nanoseconds that are added.
pub data SystemTime : Type 0 where
  after before : ℕ → ℕ → SystemTime

pub record FileAttr : Type 0 where
  pub ino : ℕ
  pub size : ℕ
  pub blocks : ℕ
  pub atime : SystemTime
  pub mtime : SystemTime
  pub ctime : SystemTime
  pub kind : FileType
  pub perm : ℕ
  pub nlink : ℕ
  pub uid : ℕ
  pub gid : ℕ
  pub rdev : ℕ
  pub blksize : ℕ

unfoldable pub clamped_nsecs : Int64 → ℕ
clamped_nsecs (nonneg n) = min n 999999999
clamped_nsecs (negative n) = 0

unfoldable pub system_time : Int64 → Int64 → SystemTime
unfolding clamped_nsecs
system_time (nonneg secs) nsecs = after secs (clamped_nsecs nsecs)
system_time (negative secs) nsecs = before secs (clamped_nsecs nsecs)

-- `st_mode & S_IFMT`.
unfoldable pub file_type : ℕ → FileType
file_type mode =
    let format = mode / 4096 % 16 in
    if nat_beq format 4
    then directory
    else if nat_beq format 10
    then symlink
    else if nat_beq format 1
    then named_pipe
    else if nat_beq format 2
    then char_device
    else if nat_beq format 6
    then block_device
    else if nat_beq format 12
    then socket
    else regular_file

unfoldable pub attr_from_stat : ℕ → Stat → FileAttr
unfolding system_time file_type
attr_from_stat ino st = record {
  ino = ino;
  size = st.st_size;
  blocks = st.st_blocks;
  atime = system_time st.st_atime st.st_atime_nsec;
  mtime = system_time st.st_mtime st.st_mtime_nsec;
  ctime = system_time st.st_ctime st.st_ctime_nsec;
  kind = file_type st.st_mode;
  perm = st.st_mode % 4096;
  nlink = st.st_nlink % 4294967296;
  uid = st.st_uid;
  gid = st.st_gid;
  rdev = st.st_rdev % 4294967296;
  blksize = st.st_blksize % 4294967296;
}

-- `size.div_ceil(512)`.
unfoldable pub sized : FileAttr → ℕ → FileAttr
sized attr size = record attr { size = size; blocks = (size + 511) / 512 }

-- The size that a symlink's view gives it, where it is to be shown as a regular file.
unfoldable pub redacted_len : Result Errno View → Option ℕ
redacted_len (ok (View.redacted kind bytes)) = some (length bytes)
redacted_len (ok (View.key bytes)) = some (length bytes)
redacted_len (ok View.failed) = some 0
redacted_len (ok View.passthrough) = none
redacted_len (err e) = none

-- The attributes of a regular file with a view.
unfoldable pub viewed : FileAttr → View → FileAttr
unfolding sized
viewed attr View.passthrough = attr
viewed attr (View.redacted kind bytes) = sized attr (length bytes)
viewed attr (View.key bytes) = sized attr (length bytes)
viewed attr View.failed = record attr { size = 0; blocks = 0 }

module _ (sys : System) (tree : Tree sys) where
  open sys use {World, ftruncate}
  open tree use {fstatat}

  unfoldable pub link_attr : State sys → ℕ → FilePath → Stat → Result Errno FileAttr × State sys
  unfolding redacted_len attr_from_stat sized symlink_target_within_overlay view_for
      file_name_or_empty
  link_attr s ino rel st =
      if symlink_target_within_overlay sys s.world s.mount_root rel
      then (ok (attr_from_stat ino st), s)
      else (let (r, w) = view_for sys s.world s.redacting rel (file_name_or_empty rel) in
          let s' = record s { world = w } in
          elim (redacted_len r) [
            | none ↦ (ok (attr_from_stat ino st), s')
            | some len ↦ elim (fstatat w (at rel) true) [
              | err e ↦ (err e, s')
              | ok target ↦
                  (ok (sized (record (attr_from_stat ino target) { kind = regular_file }) len), s')
            ]
          ])

  unfoldable pub file_attr : State sys → ℕ → FilePath → Stat → Result Errno FileAttr × State sys
  unfolding viewed attr_from_stat view_for file_name_or_empty
  file_attr s ino rel st =
      let (r, w) = view_for sys s.world s.redacting rel (file_name_or_empty rel) in
      let s' = record s { world = w } in
      elim r [ err e ↦ (err e, s') | ok view ↦ (ok (viewed (attr_from_stat ino st) view), s') ]

  unfoldable pub attr_of_type :
      State sys → ℕ → FilePath → Stat → FileType → Result Errno FileAttr × State sys
  unfolding link_attr file_attr
  attr_of_type s ino rel st symlink = link_attr s ino rel st
  attr_of_type s ino rel st regular_file =
      if nat_beq (st.st_mode / 4096 % 16) 8
      then file_attr s ino rel st
      else (ok (attr_from_stat ino st), s)
  attr_of_type s ino rel st kind = (ok (attr_from_stat ino st), s)

  unfoldable pub attr : State sys → ℕ → FilePath → Result Errno FileAttr × State sys
  unfolding attr_of_type
  attr s ino rel = elim (fstatat s.world (at rel) false) [
    | err e ↦ (err e, s)
    | ok st ↦ attr_of_type s ino rel st (file_type st.st_mode)
  ]

  unfoldable pub getattr : State sys → ℕ → Result Errno FileAttr × State sys
  unfolding attr
  getattr s ino = elim (path_of s.inodes ino) [ none ↦ (err enoent, s) | some rel ↦ attr s ino rel ]

  -- A truncation through an open redacted handle.
  unfoldable pub resize_pending :
      State sys → ℕ → FilePath → ℕ → ℕ → Handle sys.Fd → Option (Result Errno FileAttr × State sys)
  unfolding sized
  resize_pending s ino rel sz fh (Handle.redacted kind fd served pending) =
      let buf = resize (Option.get_or pending served) sz in
      let s' = record s {
        handles = Handles.set s.handles fh (Handle.redacted kind fd served (some buf));
      } in
      some (elim (fstatat s.world (at rel) false) [
        | err e ↦ (err e, s')
        | ok st ↦ (ok (sized (attr_from_stat ino st) sz), s')
      ])
  resize_pending s ino rel sz fh h = none

  unfoldable pub truncate_real : State sys → FilePath → ℕ → Result Errno (Unit {0}) × State sys
  unfolding open_real
  truncate_real s rel sz =
      let (r, w) =
        open_real sys s.world rel
          (record { mode = AccessMode.write_only; append = false; trunc = false; creat = false })
          0 in
      elim r [
        | err e ↦ (err e, record s { world = w })
        | ok fd ↦ let (t, w') = ftruncate w fd sz in (t, record s { world = w' })
      ]

  unfoldable pub truncate_view :
      State sys → FilePath → ℕ → Result Errno View → Result Errno (Unit {0}) × State sys
  unfolding truncate_real
  truncate_view s rel sz (ok View.passthrough) = truncate_real s rel sz
  truncate_view s rel sz (ok (View.redacted kind bytes)) = (ok tt, s)
  truncate_view s rel sz (ok (View.key bytes)) = (err erofs, s)
  truncate_view s rel sz (ok View.failed) = (err eio, s)
  truncate_view s rel sz (err e) = (err e, s)

  -- A truncation of the file itself, and the attributes behind it.
  unfoldable pub truncate_file :
      State sys → ℕ → FilePath → Option ℕ → Result Errno FileAttr × State sys
  unfolding truncate_view attr view_for file_name_or_empty
  truncate_file s ino rel none = attr s ino rel
  truncate_file s ino rel (some sz) =
      let (r, w) = view_for sys s.world s.redacting rel (file_name_or_empty rel) in
      let (t, s') = truncate_view (record s { world = w }) rel sz r in
      elim t [ err e ↦ (err e, s') | ok done ↦ attr s' ino rel ]

  unfoldable pub handle_truncation :
      State sys → ℕ → FilePath → Option ℕ → Option ℕ → Option (Result Errno FileAttr × State sys)
  unfolding resize_pending
  handle_truncation s ino rel (some sz) (some fh) = elim (Handles.get s.handles fh) [
    | none ↦ none
    | some h ↦ resize_pending s ino rel sz fh h
  ]
  handle_truncation s ino rel size fh = none

  -- `setattr`, of whose other arguments the source uses none.
  unfoldable pub setattr : State sys → ℕ → Option ℕ → Option ℕ → Result Errno FileAttr × State sys
  unfolding handle_truncation truncate_file
  setattr s ino size fh = elim (path_of s.inodes ino) [
    | none ↦ (err enoent, s)
    | some rel ↦ elim (handle_truncation s ino rel size fh) [
      | some reply ↦ reply
      | none ↦ truncate_file s ino rel size
    ]
  ]
