-- ===== src/Fs/Session/Storing.antt =====
-- src/fs.rs, `write`, `flush`, `release` and a truncation of an open file: the handles stay
-- hidden.
use mathlib.Core.Option
use airgap.Prelude.{
  subst, false, true, length, ltb, ◌+◌, Bool-cases, ℕ, ◌≡◌, refl, Bool, none, some, arith, Bytes,
  Result, inl, inr, Result-cases, Option,
}
use airgap.Std.FilePath.{FilePath}
use airgap.Fs.Types.{Errno, Handle, System, Tree}
use airgap.Fs.Handles
use airgap.Fs.Handles.{Handles}
use airgap.Fs.Io.{usize_max, resize}
use airgap.Fs.Io.Whole.{Posix}
use airgap.Fs.View.{at}
use airgap.Fs.Files.{
  State, write, write_handle, staged, overwrite, persist, persist_handle, persist_pending, release,
}
use airgap.Fs.Files.Persist.{staged-eq-ok}
use airgap.Fs.Attrs.{FileAttr, resize_pending}
use airgap.Fs.Session.Hidden.{Edited, fresh, written, resized, Pends, IsView}
use airgap.Fs.Session.Sound.{Rules, Sound, world-Sound, set-Sound, remove-Sound}

-- The buffer that a write or a truncation starts from was made of the view.
pub pending-Edited :
    (sys : System) (Sent : ℕ → Bytes → Type 0) (served : Bytes) (pending : Option Bytes)
    → Pends sys Sent served pending
    → Edited Sent served (Option.get_or pending served)
pending-Edited sys Sent served none p = fresh
pending-Edited sys Sent served (some buf) p = p

module _ (sys : System) (root : Rules sys) (redacts : Bool) where
  open sys use {World, Fd}

  write_handle-Sound :
      (s : State sys) (fh : ℕ) (h : Option (Handle Fd)) (offset : ℕ) (bytes : Bytes)
      → Handles.get s.handles fh ≡ h
      → root.Sent fh offset bytes
      → Sound sys root redacts s
      → Sound sys root redacts (write_handle sys s fh h offset bytes).1
  unfolding write_handle
  write_handle-Sound s fh none offset bytes e t v = v
  write_handle-Sound s fh (some (Handle.file fd)) offset bytes e t v =
      world-Sound sys root redacts s _ v
  write_handle-Sound s fh (some (Handle.redacted kind fd served pending)) offset bytes e t v =
      let edited : (r : redacts ≡ true)
          → IsView sys kind served × Edited (root.Sent fh) served (Option.get_or pending served) =
        λ r.
          let k = v.hidden r fh (Handle.redacted kind fd served pending) e in
          (k.0, pending-Edited sys (root.Sent fh) served pending k.1) in
      elim (Bool-cases (ltb usize_max (offset + length bytes))) [
        | inl over ↦ rw (write_handle, over) (set-Sound sys root redacts s fh _ e edited v)
        | inr fits ↦
            rw (write_handle, fits)
              (set-Sound sys root redacts s fh _ e
                (λ r. ((edited r).0, written offset bytes t (edited r).1)) v)
      ]
  write_handle-Sound s fh (some (Handle.key served)) offset bytes e t v = v
  write_handle-Sound s fh (some Handle.failed) offset bytes e t v = v

  pub write-Sound :
      (s : State sys) (fh offset : ℕ) (bytes : Bytes)
      → root.Sent fh offset bytes
      → Sound sys root redacts s
      → Sound sys root redacts (write sys s fh offset bytes).1
  unfolding write
  write-Sound s fh offset bytes t v =
      write_handle-Sound s fh (Handles.get s.handles fh) offset bytes refl t v

  pub resize_pending-Sound :
      (tree : Tree sys) (s : State sys) (ino : ℕ) (rel : FilePath) (sz fh : ℕ) (h : Handle Fd)
      {r : Result Errno FileAttr × State sys}
      → Handles.get s.handles fh ≡ some h
      → resize_pending sys tree s ino rel sz fh h ≡ some r
      → Sound sys root redacts s
      → Sound sys root redacts r.1
  unfolding resize_pending
  resize_pending-Sound tree s ino rel sz fh (Handle.file fd) e h v = ground (arith, h)
  resize_pending-Sound tree s ino rel sz fh (Handle.key served) e h v = ground (arith, h)
  resize_pending-Sound tree s ino rel sz fh Handle.failed e h v = ground (arith, h)
  resize_pending-Sound tree s ino rel sz fh (Handle.redacted kind fd served pending) {r} e h v =
      let buf = resize (Option.get_or pending served) sz in
      let s' : State sys = record s {
        handles = Handles.set s.handles fh (Handle.redacted kind fd served (some buf));
      } in
      let v' : Sound sys root redacts s' =
        set-Sound sys root redacts s fh (Handle.redacted kind fd served (some buf)) e
          (λ q.
            let k = v.hidden q fh (Handle.redacted kind fd served pending) e in
            (k.0, resized sz (pending-Edited sys (root.Sent fh) served pending k.1)))
          v in
      elim (Result-cases (tree.fstatat s.world (at rel) false)) [
        | inl (st, f) ↦
            let q : s' ≡ r.1 = ground (arith, h, f) in subst (Sound sys root redacts) q v'
        | inr (x, f) ↦
            let q : s' ≡ r.1 = ground (arith, h, f) in subst (Sound sys root redacts) q v'
      ]

module _ (sys : System) (posix : Posix sys) (root : Rules sys) (redacts : Bool) where
  open sys use {World, Fd}

  persist_handle-Sound :
      (s : State sys) (fh : ℕ) (h : Option (Handle Fd))
      → Handles.get s.handles fh ≡ h
      → Sound sys root redacts s
      → Sound sys root redacts (persist_handle sys s fh h).1
  unfolding persist_handle persist_pending
  persist_handle-Sound s fh none e v = v
  persist_handle-Sound s fh (some (Handle.file fd)) e v = v
  persist_handle-Sound s fh (some (Handle.key served)) e v = v
  persist_handle-Sound s fh (some Handle.failed) e v = v
  persist_handle-Sound s fh (some (Handle.redacted kind fd served none)) e v = v
  persist_handle-Sound s fh (some (Handle.redacted kind fd served (some buf))) e v =
      let dropped =
        set-Sound sys root redacts s fh (Handle.redacted kind fd served none) e
          (λ r. ((v.hidden r fh (Handle.redacted kind fd served (some buf)) e).0, tt)) v in
      elim (Result-cases (staged sys s.world kind fd buf)) [
        | inr (x, st) ↦ rw (persist_pending, st) dropped
        | inl ((merged, view), st) ↦
            let out = overwrite sys s.world fd merged in
            elim (Result-cases out.0) [
              | inr (x, o) ↦
                  rw (persist_pending, st, o) (world-Sound sys root redacts _ out.1 dropped)
              | inl (done, o) ↦
                  rw (persist_pending, st, o)
                    (world-Sound sys root redacts _ out.1 (
                      set-Sound sys root redacts s fh (Handle.redacted kind fd view none) e
                        (λ r. (inr (merged, (staged-eq-ok sys posix s.world kind fd buf st).1), tt))
                        v))
            ]
      ]

  pub persist-Sound :
      (s : State sys) (fh : ℕ)
      → Sound sys root redacts s
      → Sound sys root redacts (persist sys s fh).1
  unfolding persist
  persist-Sound s fh v = persist_handle-Sound s fh (Handles.get s.handles fh) refl v

  pub release-Sound :
      (s : State sys) (fh : ℕ)
      → Sound sys root redacts s
      → Sound sys root redacts (release sys s fh).1
  unfolding release
  release-Sound s fh v = remove-Sound sys root redacts _ fh (persist-Sound s fh v)
