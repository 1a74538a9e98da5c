-- ===== src/Fs/Files/Persist.antt =====
-- src/fs.rs, `persist`: what it writes, and what it leaves alone when it fails.
use airgap.Prelude.{
  ℕ, ◌≡◌, ◌≢◌, refl, ap, inl, inr, [], ◌∷◌, Option, none, some, arith, Bytes, Result, ok, err,
  Result-cases, nat_eq,
}
use airgap.Redact.{HandlerKind}
use airgap.Redact.Dispatch.{redact, merge}
use airgap.Fs.Types.{Errno, Handle, System}
use airgap.Fs.Handles
use airgap.Fs.Handles.{Handles, get-set}
use airgap.Fs.Io.{write_all_at, write_from}
use airgap.Fs.Io.Whole.{Posix, read_all-ReadsAs, write_all_at-WritesAs, resize_zero}
use airgap.Fs.Files.{State, staged, overwrite, persist_pending, persist_handle, persist}

module _ (sys : System) (posix : Posix sys) where
  open sys use {World, Fd, content, crates}

  -- What is staged is the merge of the file with what was written, and the view of the merge.
  pub staged-eq-ok :
      (w : World) (kind : HandlerKind) (fd : Fd) (written : Bytes) {merged view : Bytes}
      → staged sys w kind fd written ≡ ok (merged, view)
      → (merge crates kind (content w fd) written ≡ ok merged)
        × (redact crates kind merged ≡ ok view)
  unfolding staged
  staged-eq-ok w kind fd written h = ground (arith, read_all-ReadsAs sys posix w fd)

  overwrite-WritesAs :
      (w : World) (fd : Fd) (merged : Bytes)
      → (overwrite sys w fd merged).0 ≡ ok tt
      → content (overwrite sys w fd merged).1 fd ≡ merged
  unfolding overwrite
  overwrite-WritesAs w fd merged h = ground (
    arith,
    posix.ftruncate_ok w fd 0,
    resize_zero (content w fd),
    write_all_at-WritesAs sys posix (sys.ftruncate w fd 0).1 fd merged,
  )

  persist-pending :
      (s : State sys) (fh : ℕ) (kind : HandlerKind) (fd : Fd) (served written : Bytes)
      → Handles.get s.handles fh ≡ some (Handle.redacted kind fd served (some written))
      → persist sys s fh ≡ persist_pending sys s fh kind fd served written
  unfolding persist persist_handle
  persist-pending s fh kind fd served written e = ap (persist_handle sys s fh) e

  -- What a state must show after a flush that succeeds.
  abbrev pub Persisted :
      State sys → ℕ → HandlerKind → Fd → Bytes → Result Errno (Unit {0}) × State sys → Type 0
  Persisted s fh kind fd written r =
      (merged view : Bytes) × (merge crates kind (content s.world fd) written ≡ ok merged)
      × (redact crates kind merged ≡ ok view)
      × (content r.1.world fd ≡ merged)
      × (Handles.get r.1.handles fh ≡ some (Handle.redacted kind fd view none))

  persist_pending-Persisted :
      (s : State sys) (fh : ℕ) (kind : HandlerKind) (fd : Fd) (served written : Bytes)
      → (persist_pending sys s fh kind fd served written).0 ≡ ok tt
      → Persisted s fh kind fd written (persist_pending sys s fh kind fd served written)
  unfolding persist_pending
  persist_pending-Persisted s fh kind fd served written h =
      elim (Result-cases (staged sys s.world kind fd written)) [
        | inr (x, e) ↦ ground arith
        | inl ((merged, view), e) ↦
            let (m, v) = staged-eq-ok s.world kind fd written e in
            let w = overwrite-WritesAs s.world fd merged in
            (
              merged,
              view,
              m,
              v,
              ground arith,
              ground (arith, get-set s.handles fh fh (Handle.redacted kind fd view none)),
            )
      ]

  -- A flush that succeeds on a buffer that was written has replaced the file by the merge of the
  -- file with the buffer, and serves from then on the redacted view of the new file; nothing is
  -- pending. The file calls behave as documented.
  pub persist-Persisted :
      (s : State sys) (fh : ℕ) (kind : HandlerKind) (fd : Fd) (served written : Bytes)
      → Handles.get s.handles fh ≡ some (Handle.redacted kind fd served (some written))
      → (persist sys s fh).0 ≡ ok tt
      → Persisted s fh kind fd written (persist sys s fh)
  persist-Persisted s fh kind fd served written e h =
      let p = persist-pending s fh kind fd served written e in
      rw p (persist_pending-Persisted s fh kind fd served written (rw p at h))

  -- Where the file cannot be read, or the buffer cannot be merged, or the merge has no view, the flush
  -- fails with that error, changes no file, and drops the buffer.
  pub persist_refused :
      (s : State sys) (fh : ℕ) (kind : HandlerKind) (fd : Fd) (served written : Bytes) (x : Errno)
      → Handles.get s.handles fh ≡ some (Handle.redacted kind fd served (some written))
      → staged sys s.world kind fd written ≡ err x
      → ((persist sys s fh).0 ≡ err x)
        × ((persist sys s fh).1.world ≡ s.world)
        × (Handles.get (persist sys s fh).1.handles fh ≡ some (Handle.redacted kind fd served none))
  unfolding persist persist_handle persist_pending
  persist_refused s fh kind fd served written x e h =
      ground (arith, e, h, get-set s.handles fh fh (Handle.redacted kind fd served none))

  -- Where the file was emptied and the first write of a merge that is not empty fails, the flush fails
  -- with that error and the file stays empty: what it held is lost. The file calls behave as documented.
  pub persist_loses :
      (s : State sys) (fh : ℕ) (kind : HandlerKind) (fd : Fd) (served written merged view : Bytes)
      (x : Errno)
      → Handles.get s.handles fh ≡ some (Handle.redacted kind fd served (some written))
      → staged sys s.world kind fd written ≡ ok (merged, view)
      → (sys.ftruncate s.world fd 0).0 ≡ ok tt
      → (sys.pwrite (sys.ftruncate s.world fd 0).1 fd merged 0).0 ≡ err x
      → merged ≢ []
      → ((persist sys s fh).0 ≡ err x) × (content (persist sys s fh).1.world fd ≡ [])
  unfolding persist persist_handle persist_pending overwrite write_all_at write_from
  persist_loses s fh kind fd served written [] view x e st tr pw ne = absurd (ne refl)
  persist_loses s fh kind fd served written (b ∷ bs) view x e st tr pw ne = ground (
    arith,
    posix.ftruncate_ok s.world fd 0,
    resize_zero (content s.world fd),
    posix.pwrite_error (sys.ftruncate s.world fd 0).1 fd (b ∷ bs) 0 x,
  )

module _ (sys : System) where
  -- The handle of a flush has nothing pending behind it.
  persist_handle-flushed :
      (s : State sys) (fh : ℕ) (h : Option (Handle sys.Fd))
      → Handles.get s.handles fh ≡ h
      → persist sys (persist_handle sys s fh h).1 fh ≡ (ok tt, (persist_handle sys s fh h).1)
  unfolding persist persist_handle persist_pending
  persist_handle-flushed s fh none e = ground (arith, e)
  persist_handle-flushed s fh (some (Handle.file fd)) e = ground (arith, e)
  persist_handle-flushed s fh (some (Handle.key served)) e = ground (arith, e)
  persist_handle-flushed s fh (some Handle.failed) e = ground (arith, e)
  persist_handle-flushed s fh (some (Handle.redacted kind fd served none)) e = ground (arith, e)
  persist_handle-flushed s fh (some (Handle.redacted kind fd served (some written))) e =
      elim (Result-cases (staged sys s.world kind fd written)) [
        | inr (x, st) ↦
            ground (arith, st, get-set s.handles fh fh (Handle.redacted kind fd served none))
        | inl ((merged, view), st) ↦ elim (Result-cases (overwrite sys s.world fd merged).0) [
          | inr (x, ov) ↦
              ground (arith, st, ov, get-set s.handles fh fh (Handle.redacted kind fd served none))
          | inl (done, ov) ↦
              ground (arith, st, ov, get-set s.handles fh fh (Handle.redacted kind fd view none))
        ]
      ]

  -- Whatever a flush did, another one right behind it succeeds and changes nothing: a buffer is
  -- used once.
  pub persist_twice :
      (s : State sys) (fh : ℕ) → persist sys (persist sys s fh).1 fh ≡ (ok tt, (persist sys s fh).1)
  unfolding persist
  persist_twice s fh = persist_handle-flushed s fh (Handles.get s.handles fh) refl
