-- ===== src/Fs/Inodes/Invariant.antt =====
-- src/fs.rs, `InodeTable`: its two maps agree, after any sequence of its operations.
use airgap.Prelude.{
  ℕ, ◌<◌, ◌≡◌, [], some, arith, nat_eq, list_eq, list_beq_iff, nat_beq_iff, Option-cases, inl, inr,
}
use airgap.Prelude.Assoc.{lookup, insert, remove, lookup-insert, lookup-remove}
use airgap.Std.FilePath.{FilePath, component_eq}
use airgap.Fs.Inodes.{InodeTable, root_ino, new, intern, forget_path, rename}

-- An inode that a path has leads back to that path, and every inode in use is below `next`.
pub record Inv (t : InodeTable) : Type 0 where
  pub back : (p : FilePath) (i : ℕ) → lookup t.by_path p ≡ some i → lookup t.by_ino i ≡ some p
  pub below : (i : ℕ) (p : FilePath) → lookup t.by_ino i ≡ some p → i < t.next

pub new-Inv : Inv new
unfolding new lookup insert remove
new-Inv = record {
  back = λ p i h. ground (arith, list_beq_iff [] p, nat_beq_iff root_ino i);
  below = λ i p h. ground (arith, nat_beq_iff root_ino i);
}

pub intern-Inv : (t : InodeTable) (path : FilePath) → Inv t → Inv (intern t path).1
unfolding intern
intern-Inv t path v = elim (Option-cases (lookup t.by_path path)) [
  | inl e ↦
      rw (e, intern)
        (record {
          back = λ p i h. ground (
            arith,
            lookup-insert t.by_path path p t.next,
            lookup-insert t.by_ino t.next i path,
            list_beq_iff path p,
            v.back p i,
            v.below i p,
          );
          below = λ i p h. ground (arith, lookup-insert t.by_ino t.next i path, v.below i p);
        })
  | inr (ino, e) ↦ rw (e, intern) v
]

pub forget_path-Inv : (t : InodeTable) (path : FilePath) → Inv t → Inv (forget_path t path)
unfolding forget_path
forget_path-Inv t path v = elim (Option-cases (lookup t.by_path path)) [
  | inl e ↦ rw (e, forget_path) v
  | inr (ino, e) ↦
      rw (e, forget_path)
        (record {
          back = λ p i h. ground (
            arith,
            lookup-remove t.by_path path p,
            lookup-remove t.by_ino ino i,
            list_beq_iff path p,
            v.back p i,
            v.back path ino,
            v.back path i,
          );
          below = λ i p h. ground (arith, lookup-remove t.by_ino ino i, v.below i p);
        })
]

pub rename-Inv : (t : InodeTable) (from to : FilePath) → Inv t → Inv (rename t from to)
unfolding rename
rename-Inv t from to v = elim (Option-cases (lookup t.by_path from)) [
  | inl e ↦ rw (e, rename) v
  | inr (ino, e) ↦
      rw (e, rename)
        (record {
          back = λ p i h. ground (
            arith,
            lookup-insert (remove (remove t.by_path from) to) to p ino,
            lookup-remove (remove t.by_path from) to p,
            lookup-remove t.by_path from p,
            lookup-insert t.by_ino ino i to,
            list_beq_iff to p,
            list_beq_iff from p,
            v.back p i,
            v.back from ino e,
          );
          below = λ i p h. ground (
            arith,
            lookup-insert t.by_ino ino i to,
            v.below i p,
            v.below ino from,
            v.back from ino e,
          );
        })
]
