-- ===== src/Fs/Inodes/Run.antt =====
-- src/fs.rs, `InodeTable`: what holds after any sequence of calls, and what a rename does.
use airgap.Prelude.{
  ℕ, ◌≡◌, List, [], ◌∷◌, some, arith, nat_eq, list_eq, list_beq_iff, Option-cases, inl, inr,
}
use airgap.Prelude.Assoc.{lookup, lookup-insert}
use airgap.Std.FilePath.{FilePath, component_eq}
use airgap.Fs.Inodes.{InodeTable, new, intern, forget_path, rename, path_of}
use airgap.Fs.Inodes.Invariant.{Inv, new-Inv, intern-Inv, forget_path-Inv, rename-Inv}

-- The calls that the filesystem makes on the table.
pub data TableCall : Type 0 where
  interns forgets : FilePath → TableCall
  renames : FilePath → FilePath → TableCall

unfoldable pub call : InodeTable → TableCall → InodeTable
call t (interns p) = (intern t p).1
call t (forgets p) = forget_path t p
call t (renames p q) = rename t p q

unfoldable pub run : InodeTable → List TableCall → InodeTable
unfolding call
run t [] = t
run t (c ∷ cs) = run (call t c) cs

call-Inv : (t : InodeTable) (c : TableCall) → Inv t → Inv (call t c)
unfolding call
call-Inv t (interns p) v = intern-Inv t p v
call-Inv t (forgets p) v = forget_path-Inv t p v
call-Inv t (renames p q) v = rename-Inv t p q v

run-Inv : (t : InodeTable) (cs : List TableCall) → Inv t → Inv (run t cs)
unfolding run
run-Inv t [] v = v
run-Inv t (c ∷ cs) v = run-Inv (call t c) cs (call-Inv t c v)

-- After any calls on a new table the maps agree and every inode in use is below the next one.
pub run-new-Inv : (cs : List TableCall) → Inv (run new cs)
run-new-Inv cs = run-Inv new cs new-Inv

intern_entry :
    (t : InodeTable) (p : FilePath) → lookup (intern t p).1.by_path p ≡ some (intern t p).0
unfolding intern
intern_entry t p = elim (Option-cases (lookup t.by_path p)) [
  | inl e ↦ rw (e, intern) (ground (arith, lookup-insert t.by_path p p t.next, list_beq_iff p p))
  | inr (i, e) ↦ rw (e, intern) e
]

intern_again :
    (t : InodeTable) (p : FilePath) (i : ℕ) → lookup t.by_path p ≡ some i → intern t p ≡ (i, t)
unfolding intern
intern_again t p i e = ground arith

-- Interning a path changes no entry of another path.
intern_other :
    (t : InodeTable) (p q : FilePath) (i : ℕ)
    → lookup t.by_path p ≡ some i
    → lookup (intern t q).1.by_path p ≡ some i
unfolding intern
intern_other t p q i e = ground (arith, e, lookup-insert t.by_path q p t.next, list_beq_iff q p)

-- After any calls, interning a path gives an inode that leads back to the path, and interning it
-- again gives the same inode and changes nothing.
pub intern_lem :
    (cs : List TableCall) (p : FilePath)
    → (path_of (intern (run new cs) p).1 (intern (run new cs) p).0 ≡ some p)
      × (intern (intern (run new cs) p).1 p ≡ intern (run new cs) p)
unfolding path_of
intern_lem cs p =
    let t = run new cs in
    let v = intern-Inv t p (run-new-Inv cs) in
    (
      v.back p (intern t p).0 (intern_entry t p),
      intern_again (intern t p).1 p (intern t p).0 (intern_entry t p),
    )

-- After any calls, two paths that are interned one after the other have one inode only if they are
-- one path.
pub intern_distinct :
    (cs : List TableCall) (p q : FilePath)
    → (intern (run new cs) p).0 ≡ (intern (intern (run new cs) p).1 q).0
    → p ≡ q
intern_distinct cs p q e =
    let t = run new cs in
    let u = (intern t p).1 in
    let v = intern-Inv u q (intern-Inv t p (run-new-Inv cs)) in
    let mine = v.back p (intern t p).0 (intern_other u p q (intern t p).0 (intern_entry t p)) in
    let yours = v.back q (intern u q).0 (intern_entry u q) in cc (mine, yours, e)
