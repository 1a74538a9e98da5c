-- ===== src/Fs/Names.antt =====
-- src/fs.rs: the handlers on names.
pub mod Listing
use airgap.Prelude.{
  ℕ, ◌+◌, ◌*◌, ◌%◌, Bool, true, false, ◌||◌, List, [], ◌∷◌, ◌++◌, Option, none, some, if◌then◌else◌,
  nat_beq, ◌==◌, list_eq, nat_eq, Bytes, codes, Result, ok, err, take, drop,
}
use airgap.Std.FilePath.{FilePath, normal, join}
use airgap.Fs.Types.{Errno, enoent, System, Tree}
use airgap.Fs.Inodes
use airgap.Fs.Inodes.{InodeTable, path_of, intern, forget_path}
use airgap.Fs.View.{at}
use airgap.Fs.Files.{State}
use airgap.Fs.Attrs.{FileAttr, FileType, directory, regular_file, file_type, attr}

-- An entry of a directory's reply: its inode, the offset behind it, its type and its name.
pub record DirEntry : Type 0 where
  pub ino : ℕ
  pub next_offset : ℕ
  pub kind : FileType
  pub name : Bytes

-- The format bits of an entry's type, where the kernel gave one.
unfoldable pub dir_type : Option ℕ → FileType
unfolding file_type
dir_type none = regular_file
dir_type (some format) = file_type (format % 16 * 4096)

unfoldable pub is_dot : Bytes → Bool
is_dot raw = raw == codes "." || raw == codes ".."

unfoldable pub collect_entry :
    InodeTable → FilePath → Bytes → Option ℕ → List (ℕ × FileType × Bytes) × InodeTable
unfolding is_dot dir_type
collect_entry t dir raw format =
    if is_dot raw
    then ([], t)
    else (let (ino, t') = intern t (join dir (normal raw ∷ [])) in
        ((ino, dir_type format, raw) ∷ [], t'))

-- The loop of `readdir` over the entries, which interns each child.
unfoldable pub collect_entries :
    InodeTable
    → FilePath
    → List (Option (Bytes × Option ℕ))
    → List (ℕ × FileType × Bytes) × InodeTable
unfolding collect_entry
collect_entries t dir [] = ([], t)
collect_entries t dir (none ∷ entries) = collect_entries t dir entries
collect_entries t dir (some (raw, format) ∷ entries) =
    let (first, t') = collect_entry t dir raw format in
    let (rest, t'') = collect_entries t' dir entries in (first ++ rest, t'')

unfoldable pub numbered : ℕ → List (ℕ × FileType × Bytes) → List DirEntry
numbered i [] = []
numbered i ((ino, kind, name) ∷ entries) =
    record { ino = ino; next_offset = i + 1; kind = kind; name = name } ∷ numbered (i + 1) entries

-- What goes into a reply that has room for some entries.
unfoldable pub dir_reply : List (ℕ × FileType × Bytes) → ℕ → ℕ → List DirEntry
unfolding numbered
dir_reply entries offset room = take room (drop offset (numbered 0 entries))

module _ (sys : System) (tree : Tree sys) where
  open sys use {World}
  open tree use {fstatat, entries, mkdirat, unlinkat, renameat, symlinkat, linkat}

  -- The path of a name in a directory.
  unfoldable pub child : State sys → ℕ → Bytes → Option FilePath
  child s parent name = elim (path_of s.inodes parent) [
    | none ↦ none
    | some parent_path ↦ some (join parent_path (normal name ∷ []))
  ]

  -- The reply for a name that is there: its inode and its attributes.
  unfoldable pub entry_reply : State sys → FilePath → Result Errno FileAttr × State sys
  unfolding attr
  entry_reply s rel =
      let (ino, t) = intern s.inodes rel in attr sys tree (record s { inodes = t }) ino rel

  -- The reply of a call that made a name.
  unfoldable pub made_reply :
      State sys → FilePath → Result Errno (Unit {0}) × World → Result Errno FileAttr × State sys
  unfolding entry_reply
  made_reply s rel (err e, w) = (err e, record s { world = w })
  made_reply s rel (ok done, w) = entry_reply (record s { world = w }) rel

  unfoldable pub lookup_name : State sys → ℕ → Bytes → Result Errno FileAttr × State sys
  unfolding child entry_reply
  lookup_name s parent name = elim (child s parent name) [
    | none ↦ (err enoent, s)
    | some rel ↦ elim (fstatat s.world (at rel) false) [
      | err e ↦ (err e, s)
      | ok st ↦ entry_reply s rel
    ]
  ]

  unfoldable pub readlink : State sys → ℕ → Result Errno Bytes
  readlink s ino = elim (path_of s.inodes ino) [
    | none ↦ err enoent
    | some rel ↦ sys.readlinkat s.world (at rel)
  ]

  unfoldable pub readdir : State sys → ℕ → ℕ → ℕ → Result Errno (List DirEntry) × State sys
  unfolding collect_entries dir_reply
  readdir s ino offset room = elim (path_of s.inodes ino) [
    | none ↦ (err enoent, s)
    | some dir ↦ elim (entries s.world (at dir)) [
      | err e ↦ (err e, s)
      | ok listed ↦
          let (found, t) = collect_entries s.inodes dir listed in
          (
            ok (
                dir_reply ((ino, directory, codes ".") ∷ (ino, directory, codes "..") ∷ found)
                  offset room),
            record s { inodes = t },
          )
    ]
  ]

  -- `mode` is the mode with the mask taken off.
  unfoldable pub mkdir : State sys → ℕ → Bytes → ℕ → Result Errno FileAttr × State sys
  unfolding child made_reply
  mkdir s parent name mode = elim (child s parent name) [
    | none ↦ (err enoent, s)
    | some rel ↦ made_reply s rel (mkdirat s.world (at rel) (mode % 4096))
  ]

  unfoldable pub symlink : State sys → ℕ → Bytes → Bytes → Result Errno FileAttr × State sys
  unfolding child made_reply
  symlink s parent link_name target = elim (child s parent link_name) [
    | none ↦ (err enoent, s)
    | some rel ↦ made_reply s rel (symlinkat s.world target (at rel))
  ]

  unfoldable pub link : State sys → ℕ → ℕ → Bytes → Result Errno FileAttr × State sys
  unfolding child made_reply
  link s ino newparent newname = elim (path_of s.inodes ino) [
    | none ↦ (err enoent, s)
    | some old_rel ↦ elim (child s newparent newname) [
      | none ↦ (err enoent, s)
      | some new_rel ↦ made_reply s new_rel (linkat s.world (at old_rel) (at new_rel))
    ]
  ]

  -- `unlink`, and `rmdir`, for which the flag is set.
  unfoldable pub remove_name : State sys → ℕ → Bytes → Bool → Result Errno (Unit {0}) × State sys
  unfolding child
  remove_name s parent name remove_dir = elim (child s parent name) [
    | none ↦ (err enoent, s)
    | some rel ↦
        let (r, w) = unlinkat s.world (at rel) remove_dir in
        elim r [
          | err e ↦ (err e, record s { world = w })
          | ok done ↦ (ok tt, record s { world = w; inodes = forget_path s.inodes rel })
        ]
  ]

  -- `rename`, which uses none of its flags.
  unfoldable pub rename : State sys → ℕ → Bytes → ℕ → Bytes → Result Errno (Unit {0}) × State sys
  unfolding child
  rename s parent name newparent newname = elim (child s parent name) [
    | none ↦ (err enoent, s)
    | some from ↦ elim (child s newparent newname) [
      | none ↦ (err enoent, s)
      | some to ↦
          let (r, w) = renameat s.world (at from) (at to) in
          elim r [
            | err e ↦ (err e, record s { world = w })
            | ok done ↦ (ok tt, record s { world = w; inodes = Inodes.rename s.inodes from to })
          ]
    ]
  ]
