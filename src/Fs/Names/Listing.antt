-- ===== src/Fs/Names/Listing.antt =====
-- src/fs.rs, `readdir`: a listing in pieces, and the inodes that it gives.
use airgap.Prelude.{
  ℕ, ◌+◌, ◌≡◌, refl, List, [], ◌∷◌, ◌++◌, Option, none, some, Bytes, take-add, drop-drop, drop,
  Bool-cases, inl, inr,
}
use airgap.Std.FilePath.{FilePath, normal, join}
use airgap.Fs.Inodes.{InodeTable}
use airgap.Fs.Inodes.Invariant.{Inv, intern-Inv}
use airgap.Fs.Attrs.{FileType}
use airgap.Fs.Names.{is_dot, numbered, dir_reply, collect_entry, collect_entries}

-- A reply and the one that goes on behind it list what one reply with the room of both lists: no
-- entry is left out or listed twice while the directory stays as it is.
pub dir_reply-dir_reply :
    (entries : List (ℕ × FileType × Bytes)) (offset m n : ℕ)
    → dir_reply entries offset m ++ dir_reply entries (offset + m) n
      ≡ dir_reply entries offset (m + n)
unfolding dir_reply
dir_reply-dir_reply entries offset m n =
    rw (take-add m n (drop offset (numbered 0 entries)), drop-drop offset m (numbered 0 entries))
      refl

collect_entry-Inv :
    (t : InodeTable) (dir : FilePath) (raw : Bytes) (format : Option ℕ)
    → Inv t
    → Inv (collect_entry t dir raw format).1
unfolding collect_entry
collect_entry-Inv t dir raw format v = elim (Bool-cases (is_dot raw)) [
  | inl e ↦ rw e v
  | inr e ↦ rw e (intern-Inv t (join dir (normal raw ∷ [])) v)
]

-- A listing keeps the table of inodes sound.
pub collect_entries-Inv :
    (t : InodeTable) (dir : FilePath) (entries : List (Option (Bytes × Option ℕ)))
    → Inv t
    → Inv (collect_entries t dir entries).1
unfolding collect_entries
collect_entries-Inv t dir [] v = v
collect_entries-Inv t dir (none ∷ entries) v = collect_entries-Inv t dir entries v
collect_entries-Inv t dir (some (raw, format) ∷ entries) v =
    collect_entries-Inv (collect_entry t dir raw format).1 dir entries
      (collect_entry-Inv t dir raw format v)
