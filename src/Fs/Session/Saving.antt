-- ===== src/Fs/Session/Saving.antt =====
-- src/fs.rs: a redacted file is opened, edited and flushed.
use mathlib.Core.Option
use airgap.Prelude.{
  subst, ℕ, ◌≡◌, ◌⊎◌, inl, inr, List, Option, none, some, arith, Bytes, ok, All, map,
}
use airgap.Std.FilePath.{FilePath}
use airgap.Redact.{HandlerKind}
use airgap.Redact.Dispatch.{redact, merge}
use airgap.Fs.Types.{Handle, System, Tree}
use airgap.Fs.Inodes.{path_of}
use airgap.Fs.Handles
use airgap.Fs.Io.Whole.{Posix}
use airgap.Fs.Files.{State, persist, persist_handle}
use airgap.Fs.Files.Persist.{persist-Persisted}
use airgap.Fs.Session.{run}
use airgap.Fs.Session.Contents.{Contents, contents_of}
use airgap.Fs.Session.Editing.{Edit, Fits, request, replay, run-replay}

module _ (sys : System) (posix : Posix sys) where
  open sys use {World, Fd, content, crates}

  -- What a flush leaves of an edited file: where nothing was edited, what there was; otherwise the
  -- merge of the file with the edited buffer, and the view of the merge behind the handle.
  abbrev pub Saves :
      World → ℕ → HandlerKind → Fd → Bytes → Contents → State sys → State sys → Type 0
  Saves w fh kind fd served f before after =
      ((contents_of served ≡ f) × (after ≡ before))
      ⊎ ((written : Bytes) × (merged : Bytes) × (view : Bytes) × (contents_of written ≡ f)
          × (merge crates kind (content w fd) written ≡ ok merged)
          × (redact crates kind merged ≡ ok view)
          × (content after.world fd ≡ merged)
          × (Handles.get after.handles fh ≡ some (Handle.redacted kind fd view none)))

  persist-Saves :
      (s : State sys) (fh : ℕ) (kind : HandlerKind) (fd : Fd) (served : Bytes) (w : World)
      (f : Contents) (pending : Option Bytes)
      → s.world ≡ w
      → Handles.get s.handles fh ≡ some (Handle.redacted kind fd served pending)
      → contents_of (Option.get_or pending served) ≡ f
      → (persist sys s fh).0 ≡ ok tt
      → Saves w fh kind fd served f s (persist sys s fh).1
  unfolding persist persist_handle
  persist-Saves s fh kind fd served w f none q h c e = inl (c, ground (arith, h))
  persist-Saves s fh kind fd served w f (some written) q h c e =
      let (merged, view, m, v, k, g) =
        persist-Persisted sys posix s fh kind fd served written h e in
      inr (
        written,
        merged,
        view,
        c,
        subst (λ u. merge crates kind (content u fd) written ≡ ok merged) q m,
        v,
        k,
        g,
      )

  -- A flush that succeeds behind any reads, writes and truncations through an open handle on a
  -- redacted file, with nothing pending before, has either found nothing edited and changed
  -- nothing, or replaced the file by the merge of what it was with the edited contents, and serves
  -- the view of the merge. The file calls behave as documented, the inode of the truncations is
  -- known, and the ranges of the reads and writes fit 64 bits.
  pub persist-run :
      (tree : Tree sys) (s : State sys) (ino : ℕ) (rel : FilePath) (fh : ℕ) (kind : HandlerKind)
      (fd : Fd) (served : Bytes) (es : List Edit)
      → path_of s.inodes ino ≡ some rel
      → Handles.get s.handles fh ≡ some (Handle.redacted kind fd served none)
      → All Fits es
      → (persist sys (run sys tree s (map (request ino fh) es)).1 fh).0 ≡ ok tt
      → let edited = (run sys tree s (map (request ino fh) es)).1 in
        Saves s.world fh kind fd served
          (replay (contents_of served) es).1
          edited
          (persist sys edited fh).1
  persist-run tree s ino rel fh kind fd served es p h fits e =
      let (told, (p', q, pending, h', c)) =
        run-replay sys tree s ino rel fh kind fd served none es p h fits in
      persist-Saves (run sys tree s (map (request ino fh) es)).1 fh kind fd served s.world
        (replay (contents_of served) es).1 pending q h' c e
