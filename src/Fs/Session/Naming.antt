-- ===== src/Fs/Session/Naming.antt =====
-- src/fs.rs, the handlers on attributes and names: the tables stay sound and no handle changes, but
-- for a truncation of an open file.
use airgap.Prelude.{
  ◌/◌, ◌%◌, ℕ, ◌≡◌, Bool, true, false, none, some, arith, Result, ok, err, inl, inr, Option-cases,
  Result-cases, Bool-cases, Option, nat_beq,
}
use airgap.Std.FilePath.{FilePath}
use airgap.Fs.Types.{OFlag, AccessMode, Errno, View, System, Tree, Stat}
use airgap.Fs.Inodes.{path_of}
use airgap.Fs.Handles
use airgap.Fs.View.{at, view_for, symlink_target_within_overlay, open_real}
use airgap.Fs.Files.{State, file_name_or_empty}
use airgap.Fs.Attrs.{
  FileAttr, FileType, directory, symlink, named_pipe, char_device, block_device, socket,
  regular_file, file_type, redacted_len, link_attr, file_attr, attr_of_type, attr, getattr,
  truncate_real, truncate_view, truncate_file, handle_truncation, setattr,
}
use airgap.Fs.Session.Sound.{Rules, Sound, world-Sound}
use airgap.Fs.Session.Storing.{resize_pending-Sound}

module _ (sys : System) (tree : Tree sys) (root : Rules sys) (redact : Bool) where
  open sys use {World, Fd}

  -- A handler's result that leaves a sound state.
  abbrev pub Sounds : {A : Type 0} → Result Errno A × State sys → Type 0
  Sounds r = Sound sys root redact r.1

  link_attr-Sound :
      (s : State sys) (ino : ℕ) (rel : FilePath) (st : Stat)
      → Sound sys root redact s
      → Sounds (link_attr sys tree s ino rel st)
  unfolding link_attr
  link_attr-Sound s ino rel st v =
      let looked = view_for sys s.world s.redacting rel (file_name_or_empty rel) in
      let v' = world-Sound sys root redact s looked.1 v in
      elim (Bool-cases (symlink_target_within_overlay sys s.world s.mount_root rel)) [
        | inl e ↦ rw (e, link_attr) v
        | inr e ↦ elim (Option-cases (redacted_len looked.0)) [
          | inl l ↦ rw (e, link_attr, l) v'
          | inr (len, l) ↦ elim (Result-cases (tree.fstatat looked.1 (at rel) true)) [
            | inl (target, f) ↦ rw (e, link_attr, l, f) v'
            | inr (x, f) ↦ rw (e, link_attr, l, f) v'
          ]
        ]
      ]

  file_attr-Sound :
      (s : State sys) (ino : ℕ) (rel : FilePath) (st : Stat)
      → Sound sys root redact s
      → Sounds (file_attr sys tree s ino rel st)
  unfolding file_attr
  file_attr-Sound s ino rel st v =
      let looked = view_for sys s.world s.redacting rel (file_name_or_empty rel) in
      elim (Result-cases looked.0) [
        | inl (view, e) ↦ rw (e, file_attr) (world-Sound sys root redact s looked.1 v)
        | inr (x, e) ↦ rw (e, file_attr) (world-Sound sys root redact s looked.1 v)
      ]

  attr_of_type-Sound :
      (s : State sys) (ino : ℕ) (rel : FilePath) (st : Stat) (kind : FileType)
      → Sound sys root redact s
      → Sounds (attr_of_type sys tree s ino rel st kind)
  unfolding attr_of_type
  attr_of_type-Sound s ino rel st symlink v = link_attr-Sound s ino rel st v
  attr_of_type-Sound s ino rel st regular_file v =
      elim (Bool-cases (nat_beq (st.st_mode / 4096 % 16) 8)) [
        | inl e ↦ rw (e, attr_of_type) (file_attr-Sound s ino rel st v)
        | inr e ↦ rw (e, attr_of_type) v
      ]
  attr_of_type-Sound s ino rel st directory v = v
  attr_of_type-Sound s ino rel st named_pipe v = v
  attr_of_type-Sound s ino rel st char_device v = v
  attr_of_type-Sound s ino rel st block_device v = v
  attr_of_type-Sound s ino rel st socket v = v

  pub attr-Sound :
      (s : State sys) (ino : ℕ) (rel : FilePath)
      → Sound sys root redact s
      → Sounds (attr sys tree s ino rel)
  unfolding attr
  attr-Sound s ino rel v = elim (Result-cases (tree.fstatat s.world (at rel) false)) [
    | inl (st, e) ↦ rw (e, attr) (attr_of_type-Sound s ino rel st (file_type st.st_mode) v)
    | inr (x, e) ↦ rw (e, attr) v
  ]

  pub getattr-Sound :
      (s : State sys) (ino : ℕ) → Sound sys root redact s → Sounds (getattr sys tree s ino)
  unfolding getattr
  getattr-Sound s ino v = elim (Option-cases (path_of s.inodes ino)) [
    | inl e ↦ rw (e, getattr) v
    | inr (rel, e) ↦ rw (e, getattr) (attr-Sound s ino rel v)
  ]

  truncate_real-Sound :
      (s : State sys) (rel : FilePath) (sz : ℕ)
      → Sound sys root redact s
      → Sounds (truncate_real sys tree s rel sz)
  unfolding truncate_real
  truncate_real-Sound s rel sz v =
      let flag : OFlag = record {
        mode = AccessMode.write_only;
        append = false;
        trunc = false;
        creat = false;
      } in
      let made = open_real sys s.world rel flag 0 in
      elim (Result-cases made.0) [
        | inr (x, e) ↦ rw (e, truncate_real) (world-Sound sys root redact s made.1 v)
        | inl (fd, e) ↦
            rw (e, truncate_real) (world-Sound sys root redact s (sys.ftruncate made.1 fd sz).1 v)
      ]

  truncate_view-Sound :
      (s : State sys) (rel : FilePath) (sz : ℕ) (r : Result Errno View)
      → Sound sys root redact s
      → Sounds (truncate_view sys tree s rel sz r)
  unfolding truncate_view
  truncate_view-Sound s rel sz (ok View.passthrough) v = truncate_real-Sound s rel sz v
  truncate_view-Sound s rel sz (ok (View.redacted kind bytes)) v = v
  truncate_view-Sound s rel sz (ok (View.key bytes)) v = v
  truncate_view-Sound s rel sz (ok View.failed) v = v
  truncate_view-Sound s rel sz (err x) v = v

  truncate_file-Sound :
      (s : State sys) (ino : ℕ) (rel : FilePath) (size : Option ℕ)
      → Sound sys root redact s
      → Sounds (truncate_file sys tree s ino rel size)
  unfolding truncate_file
  truncate_file-Sound s ino rel none v = attr-Sound s ino rel v
  truncate_file-Sound s ino rel (some sz) v =
      let looked = view_for sys s.world s.redacting rel (file_name_or_empty rel) in
      let cut = truncate_view sys tree (record s { world = looked.1 }) rel sz looked.0 in
      let v' =
        truncate_view-Sound (record s { world = looked.1 }) rel sz looked.0
          (world-Sound sys root redact s looked.1 v) in
      elim (Result-cases cut.0) [
        | inr (x, e) ↦ rw (e, truncate_file) v'
        | inl (done, e) ↦ rw (e, truncate_file) (attr-Sound cut.1 ino rel v')
      ]

  handle_truncation-Sound :
      (s : State sys) (ino : ℕ) (rel : FilePath) (size fh : Option ℕ)
      {r : Result Errno FileAttr × State sys}
      → handle_truncation sys tree s ino rel size fh ≡ some r
      → Sound sys root redact s
      → Sounds r
  unfolding handle_truncation
  handle_truncation-Sound s ino rel none fh h v = ground (arith, h)
  handle_truncation-Sound s ino rel (some sz) none h v = ground (arith, h)
  handle_truncation-Sound s ino rel (some sz) (some fh) {r} h v =
      elim (Option-cases (Handles.get s.handles fh)) [
        | inl e ↦ ground (arith, h, e)
        | inr (g, e) ↦
            resize_pending-Sound sys root redact tree s ino rel sz fh g {r = r} e
              (ground (arith, h, e)) v
      ]

  pub setattr-Sound :
      (s : State sys) (ino : ℕ) (size fh : Option ℕ)
      → Sound sys root redact s
      → Sounds (setattr sys tree s ino size fh)
  unfolding setattr
  setattr-Sound s ino size fh v = elim (Option-cases (path_of s.inodes ino)) [
    | inl e ↦ rw (e, setattr) v
    | inr (rel, e) ↦ elim (Option-cases (handle_truncation sys tree s ino rel size fh)) [
      | inl h ↦ rw (e, setattr, h) (truncate_file-Sound s ino rel size v)
      | inr (r, h) ↦ rw (e, setattr, h) (handle_truncation-Sound s ino rel size fh h v)
    ]
  ]
