-- ===== src/Fs/Inodes.antt =====
-- src/fs.rs: `InodeTable`, which maps inodes to paths.
pub mod Invariant
pub mod Run
use airgap.Prelude.{ℕ, ◌+◌, List, [], ◌∷◌, Option, none, some, nat_eq, list_eq}
use airgap.Prelude.Assoc.{Assoc, lookup, insert, remove}
use airgap.Std.FilePath.{FilePath, component_eq}

pub record InodeTable : Type 0 where
  pub by_ino : Assoc ℕ FilePath
  pub by_path : Assoc FilePath ℕ
  pub next : ℕ

abbrev pub root_ino : ℕ
root_ino = 1

unfoldable pub new : InodeTable
unfolding insert
new = record {
  by_ino = insert [] root_ino [];
  by_path = insert [] [] root_ino;
  next = root_ino + 1;
}

unfoldable pub intern : InodeTable → FilePath → ℕ × InodeTable
intern t path = elim (lookup t.by_path path) [
  | some ino ↦ (ino, t)
  | none ↦ (
    t.next,
    record t {
      next = t.next + 1;
      by_ino = insert t.by_ino t.next path;
      by_path = insert t.by_path path t.next;
    },
  )
]

unfoldable pub forget_path : InodeTable → FilePath → InodeTable
forget_path t path = elim (lookup t.by_path path) [
  | none ↦ t
  | some ino ↦ record t { by_path = remove t.by_path path; by_ino = remove t.by_ino ino }
]

unfoldable pub rename : InodeTable → FilePath → FilePath → InodeTable
rename t from to = elim (lookup t.by_path from) [
  | none ↦ t
  | some ino ↦ record t {
    by_path = insert (remove (remove t.by_path from) to) to ino;
    by_ino = insert t.by_ino ino to;
  }
]

unfoldable pub path_of : InodeTable → ℕ → Option FilePath
path_of t ino = lookup t.by_ino ino
