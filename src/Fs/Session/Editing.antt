-- ===== src/Fs/Session/Editing.antt =====
-- src/fs.rs: an open redacted file, between two flushes, is a file in memory: any reads, writes and
-- truncations through its handle are answered as a file of those contents answers them.
use mathlib.Core.Option
use airgap.Prelude.{
  false, nat_eq, ℕ, ◌+◌, ◌≤◌, ◌≡◌, refl, sym, ap, ◌∙◌, [], ◌∷◌, List, Option, some, arith, Bytes,
  ok, err, inl, inr, Result-cases, length, Pointwise, All, map, subst,
}
use airgap.Std.FilePath.{FilePath}
use airgap.Redact.{HandlerKind}
use airgap.Fs.Types.{Handle, System, Tree}
use airgap.Fs.Inodes.{path_of}
use airgap.Fs.Handles
use airgap.Fs.Handles.{get-set}
use airgap.Fs.Io.{usize_max, slice, resize, splice}
use airgap.Fs.View.{at}
use airgap.Fs.Files.{State, read, read_handle, write, write_handle}
use airgap.Fs.Attrs.{setattr, handle_truncation, resize_pending, sized, attr_from_stat}
use airgap.Fs.Session.{Request, Reply, serve, run}
use airgap.Fs.Session.Contents.{
  Contents, read_contents, write_contents, resize_contents, contents_of, contents_of-splice,
  contents_of-resize, slice-eq-read_contents,
}

-- What a program does to an open file, and what it is told.
pub data Edit : Type 0 where
  reads : ℕ → ℕ → Edit
  writes : ℕ → Bytes → Edit
  truncates : ℕ → Edit

pub data Answer : Type 0 where
  got : Bytes → Answer
  put : ℕ → Answer
  cut : ℕ → Answer

unfoldable pub request : ℕ → ℕ → Edit → Request
request ino fh (reads offset n) = Request.reads fh offset n
request ino fh (writes offset bytes) = Request.writes fh offset bytes
request ino fh (truncates n) = Request.setattrs ino (some n) (some fh)

-- The same on a file's contents.
unfoldable pub edit : Contents → Edit → Answer × Contents
edit f (reads offset n) = (got (read_contents f offset n), f)
edit f (writes offset bytes) = (put (length bytes), write_contents f offset bytes)
edit f (truncates n) = (cut n, resize_contents f n)

unfoldable pub replay : Contents → List Edit → List Answer × Contents
unfolding edit
replay f [] = ([], f)
replay f (e ∷ es) = let (a, f') = edit f e in let (rest, f'') = replay f' es in (a ∷ rest, f'')

-- A reply gives the answer. The attributes behind a truncation may fail to be read.
abbrev pub Tells : Reply → Answer → Type 0
Tells (Reply.bytes (ok bytes)) (got expected) = bytes ≡ expected
Tells (Reply.written (ok n)) (put expected) = n ≡ expected
Tells (Reply.entry (ok attr)) (cut n) = attr.size ≡ n
Tells (Reply.entry (err e)) (cut n) = Unit {0}
Tells _ _ = ⊥

-- The range of a read or a write fits 64 bits.
abbrev pub Fits : Edit → Type 0
Fits (reads offset n) = offset + n ≤ usize_max
Fits (writes offset bytes) = offset + length bytes ≤ usize_max
Fits (truncates n) = Unit {0}

module _ (sys : System) (tree : Tree sys) where
  open sys use {World, Fd}

  -- The state has the open file, with the contents, over the world as it was.
  abbrev pub Holds :
      ℕ → FilePath → ℕ → HandlerKind → Fd → Bytes → World → Contents → State sys → Type 0
  Holds ino rel fh kind fd served w f s =
      (path_of s.inodes ino ≡ some rel)
      × (s.world ≡ w)
      × (pending : Option Bytes) × (Handles.get s.handles fh
          ≡ some (Handle.redacted kind fd served pending))
      × (contents_of (Option.get_or pending served) ≡ f)

  module _ (ino : ℕ) (rel : FilePath) (fh : ℕ) (kind : HandlerKind) (fd : Fd) (served : Bytes)
      (w : World) where
    -- The state behind a write or a truncation of the buffer.
    abbrev buffered : State sys → Bytes → State sys
    buffered s buf = record s {
      handles = Handles.set s.handles fh (Handle.redacted kind fd served (some buf));
    }

    buffered-Holds :
        (f : Contents) (s : State sys) (buf : Bytes)
        → path_of s.inodes ino ≡ some rel
        → s.world ≡ w
        → contents_of buf ≡ f
        → Holds ino rel fh kind fd served w f (buffered s buf)
    buffered-Holds f s buf p q c = (
      p,
      q,
      some buf,
      ground (arith, get-set s.handles fh fh (Handle.redacted kind fd served (some buf))),
      c,
    )

    abbrev Refines : Reply × State sys → Answer × Contents → Type 0
    Refines r a = Tells r.0 a.0 × Holds ino rel fh kind fd served w a.1 r.1

    serve-Refines :
        (s : State sys) (f : Contents) (e : Edit)
        → Fits e
        → Holds ino rel fh kind fd served w f s
        → Refines (serve sys tree s (request ino fh e)) (edit f e)
    unfolding serve request edit read write read_handle write_handle setattr handle_truncation
        resize_pending sized
    serve-Refines s f (reads offset n) fits (p, q, pending, h, c) =
        let buf = Option.get_or pending served in
        let r : serve sys tree s (request ino fh (reads offset n))
            ≡ (Reply.bytes (ok (slice buf offset n)), s) =
          ground (arith, h) in
        subst (λ x. Refines x (edit f (reads offset n))) (sym r)
          (
            slice-eq-read_contents buf offset n fits ∙ ap (λ g. read_contents g offset n) c,
            (p, q, pending, h, c),
          )
    serve-Refines s f (writes offset bytes) fits (p, q, pending, h, c) =
        let buf = splice (Option.get_or pending served) offset bytes in
        let r : serve sys tree s (request ino fh (writes offset bytes))
            ≡ (Reply.written (ok (length bytes)), buffered s buf) =
          ground (arith, h) in
        subst (λ x. Refines x (edit f (writes offset bytes))) (sym r)
          (
            refl,
            buffered-Holds (write_contents f offset bytes) s buf p q (
                contents_of-splice (Option.get_or pending served) bytes offset
                ∙ ap (λ g. write_contents g offset bytes) c),
          )
    serve-Refines s f (truncates n) fits (p, q, pending, h, c) =
        let buf = resize (Option.get_or pending served) n in
        let held =
          buffered-Holds (resize_contents f n) s buf p q (
            contents_of-resize (Option.get_or pending served) n
            ∙ ap (λ g. resize_contents g n) c) in
        elim (Result-cases (tree.fstatat s.world (at rel) false)) [
          | inl (st, e) ↦
              let r : serve sys tree s (request ino fh (truncates n))
                  ≡ (Reply.entry (ok (sized (attr_from_stat ino st) n)), buffered s buf) =
                ground (arith, h, p, e) in
              subst (λ x. Refines x (edit f (truncates n))) (sym r) (refl, held)
          | inr (x, e) ↦
              let r : serve sys tree s (request ino fh (truncates n))
                  ≡ (Reply.entry (err x), buffered s buf) =
                ground (arith, h, p, e) in
              subst (λ x. Refines x (edit f (truncates n))) (sym r) (tt, held)
        ]

    run-Refines :
        (s : State sys) (f : Contents) (es : List Edit)
        → All Fits es
        → Holds ino rel fh kind fd served w f s
        → Pointwise Tells (run sys tree s (map (request ino fh) es)).0 (replay f es).0
          × Holds ino rel fh kind fd served w
              (replay f es).1
              (run sys tree s (map (request ino fh) es)).1
    unfolding run replay
    run-Refines s f [] fits v = (tt, v)
    run-Refines s f (e ∷ es) (fit, fits) v =
        let (told, v') = serve-Refines s f e fit v in
        let (tells, v'') =
          run-Refines (serve sys tree s (request ino fh e)).1 (edit f e).1 es fits v' in
        ((told, tells), v'')

  -- Through an open handle on a redacted file, any reads, writes and truncations, one behind the
  -- other, are answered as a file of the handle's contents answers them, which are the redacted
  -- view or what the program made of it; behind them the handle has what that file has then,
  -- and no real file was touched. The inode of the truncations is known, the ranges of the reads and
  -- writes fit 64 bits, and the attributes behind a truncation may fail to be read.
  pub run-replay :
      (s : State sys) (ino : ℕ) (rel : FilePath) (fh : ℕ) (kind : HandlerKind) (fd : Fd)
      (served : Bytes) (pending : Option Bytes) (es : List Edit)
      → path_of s.inodes ino ≡ some rel
      → Handles.get s.handles fh ≡ some (Handle.redacted kind fd served pending)
      → All Fits es
      → let asked = run sys tree s (map (request ino fh) es) in
        let wanted = replay (contents_of (Option.get_or pending served)) es in
        Pointwise Tells asked.0 wanted.0 × Holds ino rel fh kind fd served s.world wanted.1 asked.1
  run-replay s ino rel fh kind fd served pending es p h fits =
      run-Refines ino rel fh kind fd served s.world s (contents_of (Option.get_or pending served))
        es fits (p, refl, pending, h, refl)
