-- ===== src/Fs/Files/Serve.antt =====
-- src/fs.rs: what `read` gives for a handle with a view, piece by piece and behind a `write`.
use mathlib.Core.Option
use airgap.Prelude.{
  ℕ, ◌+◌, ◌-◌, ◌≤◌, min, ◌≡◌, refl, sym, ap, ◌∙◌, ◌++◌, Option, some, arith, Bytes, ok, length,
  take, drop, take-add, drop-drop, take-all, drop-all, length-drop, length-take, take-append_self,
  drop-append_self, ◌≢◌, ltb, take-nil, leb, Bool-cases, inl, inr,
}
use airgap.Redact.{HandlerKind}
use airgap.Fs.Types.{Handle, System}
use airgap.Fs.Handles
use airgap.Fs.Handles.{Handles, get-set}
use airgap.Fs.Io.{usize_max, slice, resize, splice}
use airgap.Fs.Io.Whole.{length-resize}
use airgap.Fs.Files.{State, read, read_handle, write, write_handle}

pub slice_plain :
    (bytes : Bytes) (offset n : ℕ)
    → offset + n ≤ usize_max
    → slice bytes offset n ≡ take n (drop offset bytes)
unfolding slice
slice_plain bytes offset n h = elim (Bool-cases (leb offset (length bytes))) [
  | inr past ↦
      let o : min offset (length bytes) ≡ length bytes = ground arith in
      rw
        (
          o,
          drop-all (length bytes) bytes (omega arith),
          drop-all offset bytes (ground arith),
          take-nil n,
          take-nil (min (min (length bytes + n) usize_max) (length bytes) - length bytes),
        )
        refl
  | inl within ↦
      let o : min offset (length bytes) ≡ offset = ground arith in
      elim (Bool-cases (leb (offset + n) (length bytes))) [
        | inl fits ↦
            let e : min (min (offset + n) usize_max) (length bytes) - offset ≡ n = ground arith in
            rw (o, e) refl
        | inr short ↦
            let e : min (min (offset + n) usize_max) (length bytes) - offset
                ≡ length bytes - offset =
              ground arith in
            rw
              (
                o,
                e,
                take-all (length bytes - offset) (drop offset bytes)
                    (omega (arith, length-drop offset bytes)),
                take-all n (drop offset bytes) (ground (arith, length-drop offset bytes)),
              )
              refl
      ]
]

-- Two reads, one behind the other, give what one read of both sizes gives: no byte is lost or sent
-- twice where a file is read in pieces. The offsets fit 64 bits.
pub slice-slice :
    (bytes : Bytes) (offset m n : ℕ)
    → offset + m + n ≤ usize_max
    → slice bytes offset m ++ slice bytes (offset + m) n ≡ slice bytes offset (m + n)
slice-slice bytes offset m n h =
    rw
      (
        slice_plain bytes offset m (omega arith),
        slice_plain bytes (offset + m) n (omega arith),
        slice_plain bytes offset (m + n) (omega arith),
        take-add m n (drop offset bytes),
        drop-drop offset m bytes,
      )
      refl

take_middle :
    (xs bytes rest : Bytes) (n : ℕ)
    → length xs ≡ n
    → take (length bytes) (drop n (xs ++ (bytes ++ rest))) ≡ bytes
take_middle xs bytes rest n e =
    ap (λ k. take (length bytes) (drop k (xs ++ (bytes ++ rest)))) (sym e)
    ∙ (ap (take (length bytes)) (drop-append_self xs (bytes ++ rest)) ∙ take-append_self bytes rest)

-- What stands at the offset of a write is what was written, padded by zeros where it was past the end.
splice_read :
    (buf bytes : Bytes) (offset : ℕ)
    → take (length bytes) (drop offset (splice buf offset bytes)) ≡ bytes
unfolding splice
splice_read buf bytes offset = elim (Bool-cases (ltb (length buf) (offset + length bytes))) [
  | inl t ↦ rw t (
      take_middle (take offset (resize buf (offset + length bytes))) bytes
        (drop (offset + length bytes) (resize buf (offset + length bytes))) offset
        (length-take offset (resize buf (offset + length bytes))
          ∙ ground (arith, length-resize buf (offset + length bytes))))
  | inr f ↦ rw f (
      take_middle (take offset buf) bytes (drop (offset + length bytes) buf) offset
        (length-take offset buf ∙ ground arith))
]

-- A read behind a write of a redacted file, at the offset of the write and of its size, gives the
-- bytes of the write, also where the write is past the end. The range fits 64 bits.
pub read-write :
    (sys : System) (s : State sys) (fh : ℕ) (kind : HandlerKind) (fd : sys.Fd)
    (served bytes : Bytes) (pending : Option Bytes) (offset : ℕ)
    → Handles.get s.handles fh ≡ some (Handle.redacted kind fd served pending)
    → offset + length bytes ≤ usize_max
    → read sys (write sys s fh offset bytes).1 fh offset (length bytes) ≡ ok bytes
unfolding read write read_handle write_handle
read-write sys s fh kind fd served bytes pending offset e h =
    let buf = splice (Option.get_or pending served) offset bytes in
    let here = get-set s.handles fh fh (Handle.redacted kind fd served (some buf)) in
    let r : read sys (write sys s fh offset bytes).1 fh offset (length bytes)
        ≡ ok (slice buf offset (length bytes)) =
      ground (arith, e, here) in
    r
    ∙ ap ok (
        slice_plain buf offset (length bytes) h
        ∙ splice_read (Option.get_or pending served) bytes offset)

-- What a handle with a view gives does not depend on the files.
pub read_view :
    (sys : System) (s : State sys) (w : sys.World) (fh offset size : ℕ) (h : Handle sys.Fd)
    → Handles.get s.handles fh ≡ some h
    → ((fd : sys.Fd) → h ≢ Handle.file fd)
    → read sys (record s { world = w }) fh offset size ≡ read sys s fh offset size
unfolding read read_handle
read_view sys s w fh offset size (Handle.file fd) e view = absurd (view fd refl)
read_view sys s w fh offset size (Handle.redacted kind fd served pending) e view = ground (arith, e)
read_view sys s w fh offset size (Handle.key served) e view = ground (arith, e)
read_view sys s w fh offset size Handle.failed e view = ground (arith, e)
