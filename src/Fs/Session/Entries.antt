-- ===== src/Fs/Session/Entries.antt =====
-- src/fs.rs, the handlers on names: the tables stay sound and no handle changes.
use airgap.Prelude.{
  false, ℕ, Bool, ok, err, inl, inr, Option-cases, Result-cases, Result, ◌%◌, Bytes,
}
use airgap.Std.FilePath.{FilePath}
use airgap.Fs.Types.{Errno, System, Tree}
use airgap.Fs.Inodes
use airgap.Fs.Inodes.{path_of, intern, forget_path}
use airgap.Fs.Inodes.Invariant.{intern-Inv, forget_path-Inv, rename-Inv}
use airgap.Fs.View.{at}
use airgap.Fs.Files.{State}
use airgap.Fs.Names
use airgap.Fs.Names.{
  collect_entries, child, entry_reply, made_reply, lookup_name, readdir, mkdir, symlink, link,
  remove_name,
}
use airgap.Fs.Names.Listing.{collect_entries-Inv}
use airgap.Fs.Session.Sound.{Rules, Sound, world-Sound, inodes-Sound}
use airgap.Fs.Session.Naming.{Sounds, attr-Sound}

module _ (sys : System) (tree : Tree sys) (root : Rules sys) (redact : Bool) where
  open sys use {World, Fd}

  entry_reply-Sound :
      (s : State sys) (rel : FilePath)
      → Sound sys root redact s
      → Sounds sys tree root redact (entry_reply sys tree s rel)
  unfolding entry_reply
  entry_reply-Sound s rel v =
      let t = intern s.inodes rel in
      attr-Sound sys tree root redact (record s { inodes = t.1 }) t.0 rel
        (inodes-Sound sys root redact s t.1 (intern-Inv s.inodes rel v.inodes) v)

  made_reply-Sound :
      (s : State sys) (rel : FilePath) (r : Result Errno (Unit {0}) × World)
      → Sound sys root redact s
      → Sounds sys tree root redact (made_reply sys tree s rel r)
  unfolding made_reply
  made_reply-Sound s rel (err e, w) v = world-Sound sys root redact s w v
  made_reply-Sound s rel (ok done, w) v =
      entry_reply-Sound (record s { world = w }) rel (world-Sound sys root redact s w v)

  pub lookup_name-Sound :
      (s : State sys) (parent : ℕ) (name : Bytes)
      → Sound sys root redact s
      → Sounds sys tree root redact (lookup_name sys tree s parent name)
  unfolding lookup_name
  lookup_name-Sound s parent name v = elim (Option-cases (child sys tree s parent name)) [
    | inl e ↦ rw (e, lookup_name) v
    | inr (rel, e) ↦ elim (Result-cases (tree.fstatat s.world (at rel) false)) [
      | inl (st, f) ↦ rw (e, lookup_name, f) (entry_reply-Sound s rel v)
      | inr (x, f) ↦ rw (e, lookup_name, f) v
    ]
  ]

  pub readdir-Sound :
      (s : State sys) (ino offset room : ℕ)
      → Sound sys root redact s
      → Sounds sys tree root redact (readdir sys tree s ino offset room)
  unfolding readdir
  readdir-Sound s ino offset room v = elim (Option-cases (path_of s.inodes ino)) [
    | inl e ↦ rw (e, readdir) v
    | inr (dir, e) ↦ elim (Result-cases (tree.entries s.world (at dir))) [
      | inl (listed, f) ↦
          rw (e, readdir, f)
            (inodes-Sound sys root redact s (collect_entries s.inodes dir listed).1
              (collect_entries-Inv s.inodes dir listed v.inodes) v)
      | inr (x, f) ↦ rw (e, readdir, f) v
    ]
  ]

  pub mkdir-Sound :
      (s : State sys) (parent : ℕ) (name : Bytes) (mode : ℕ)
      → Sound sys root redact s
      → Sounds sys tree root redact (mkdir sys tree s parent name mode)
  unfolding mkdir
  mkdir-Sound s parent name mode v = elim (Option-cases (child sys tree s parent name)) [
    | inl e ↦ rw (e, mkdir) v
    | inr (rel, e) ↦
        rw (e, mkdir) (made_reply-Sound s rel (tree.mkdirat s.world (at rel) (mode % 4096)) v)
  ]

  pub symlink-Sound :
      (s : State sys) (parent : ℕ) (link_name target : Bytes)
      → Sound sys root redact s
      → Sounds sys tree root redact (symlink sys tree s parent link_name target)
  unfolding symlink
  symlink-Sound s parent link_name target v =
      elim (Option-cases (child sys tree s parent link_name)) [
        | inl e ↦ rw (e, symlink) v
        | inr (rel, e) ↦
            rw (e, symlink) (made_reply-Sound s rel (tree.symlinkat s.world target (at rel)) v)
      ]

  pub link-Sound :
      (s : State sys) (ino newparent : ℕ) (newname : Bytes)
      → Sound sys root redact s
      → Sounds sys tree root redact (link sys tree s ino newparent newname)
  unfolding link
  link-Sound s ino newparent newname v = elim (Option-cases (path_of s.inodes ino)) [
    | inl e ↦ rw (e, link) v
    | inr (old_rel, e) ↦ elim (Option-cases (child sys tree s newparent newname)) [
      | inl f ↦ rw (e, link, f) v
      | inr (new_rel, f) ↦
          rw (e, link, f)
            (made_reply-Sound s new_rel (tree.linkat s.world (at old_rel) (at new_rel)) v)
    ]
  ]

  pub remove_name-Sound :
      (s : State sys) (parent : ℕ) (name : Bytes) (remove_dir : Bool)
      → Sound sys root redact s
      → Sounds sys tree root redact (remove_name sys tree s parent name remove_dir)
  unfolding remove_name
  remove_name-Sound s parent name remove_dir v =
      elim (Option-cases (child sys tree s parent name)) [
        | inl e ↦ rw (e, remove_name) v
        | inr (rel, e) ↦
            let r = tree.unlinkat s.world (at rel) remove_dir in
            let v' = world-Sound sys root redact s r.1 v in
            elim (Result-cases r.0) [
              | inr (x, f) ↦ rw (e, remove_name, f) v'
              | inl (done, f) ↦
                  rw (e, remove_name, f)
                    (inodes-Sound sys root redact (record s { world = r.1 })
                      (forget_path s.inodes rel) (forget_path-Inv s.inodes rel v.inodes) v')
            ]
      ]

  pub rename-Sound :
      (s : State sys) (parent : ℕ) (name : Bytes) (newparent : ℕ) (newname : Bytes)
      → Sound sys root redact s
      → Sounds sys tree root redact (Names.rename sys tree s parent name newparent newname)
  unfolding Names.rename
  rename-Sound s parent name newparent newname v =
      elim (Option-cases (child sys tree s parent name)) [
        | inl e ↦ rw (e, Names.rename) v
        | inr (from, e) ↦ elim (Option-cases (child sys tree s newparent newname)) [
          | inl f ↦ rw (e, Names.rename, f) v
          | inr (to, f) ↦
              let r = tree.renameat s.world (at from) (at to) in
              let v' = world-Sound sys root redact s r.1 v in
              elim (Result-cases r.0) [
                | inr (x, g) ↦ rw (e, Names.rename, f, g) v'
                | inl (done, g) ↦
                    rw (e, Names.rename, f, g)
                      (inodes-Sound sys root redact (record s { world = r.1 })
                        (Inodes.rename s.inodes from to) (rename-Inv s.inodes from to v.inodes) v')
              ]
        ]
      ]
