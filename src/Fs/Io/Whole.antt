-- ===== src/Fs/Io/Whole.antt =====
-- src/fs.rs: `read_all` reads the whole file and `write_all_at` writes the whole buffer, over file
-- calls that behave as documented for regular files.
use airgap.Prelude.{
  ℕ, zero, suc, ◌+◌, ◌-◌, ◌≤◌, ◌<◌, ◌≡◌, ◌≢◌, refl, sym, ap, ◌∙◌, ◌⊎◌, inl, inr, [], ◌∷◌, ◌++◌,
  arith, ltb, Bytes, Result, ok, err, length, take, drop, replicate, length-append,
  take-append-drop, take-append_self, drop-append_self, take-all, drop-all, append-nil,
  append_assoc, length-take, length-drop, length-replicate, Bool-cases,
}
use airgap.Fs.Types.{Errno, unfinished, System}
use airgap.Fs.Io.{read_chunk, read_from, read_all, write_from, write_all_at, resize, splice}

-- What is documented of the file calls on a regular file: a read returns bytes that stand at the
-- offset, and some where there are any; a write puts a part of its bytes at the offset, not an
-- empty one of a buffer that is not empty; `ftruncate` cuts or extends by zeros; a call that fails
-- leaves the file as it is.
pub record Posix (sys : System) : Type 0 where
  pub pread_bytes :
      (w : sys.World) (fd : sys.Fd) (n offset : ℕ) (bs : Bytes)
      → sys.pread w fd n offset ≡ ok bs
      → bs ≡ take (length bs) (drop offset (sys.content w fd))
  pub pread_some :
      (w : sys.World) (fd : sys.Fd) (n offset : ℕ)
      → sys.pread w fd n offset ≡ ok []
      → 0 < n
      → length (sys.content w fd) ≤ offset
  pub pread_error :
      (w : sys.World) (fd : sys.Fd) (n offset : ℕ) → sys.pread w fd n offset ≢ err unfinished
  pub pwrite_bytes :
      (w : sys.World) (fd : sys.Fd) (bytes : Bytes) (offset n : ℕ)
      → (sys.pwrite w fd bytes offset).0 ≡ ok n
      → (n ≤ length bytes)
        × (sys.content (sys.pwrite w fd bytes offset).1 fd
            ≡ splice (sys.content w fd) offset (take n bytes))
  pub pwrite_some :
      (w : sys.World) (fd : sys.Fd) (bytes : Bytes) (offset : ℕ)
      → (sys.pwrite w fd bytes offset).0 ≡ ok 0
      → bytes ≡ []
  pub pwrite_error :
      (w : sys.World) (fd : sys.Fd) (bytes : Bytes) (offset : ℕ) (e : Errno)
      → (sys.pwrite w fd bytes offset).0 ≡ err e
      → (e ≢ unfinished) × (sys.content (sys.pwrite w fd bytes offset).1 fd ≡ sys.content w fd)
  pub ftruncate_ok :
      (w : sys.World) (fd : sys.Fd) (n : ℕ)
      → (sys.ftruncate w fd n).0 ≡ ok tt
      → sys.content (sys.ftruncate w fd n).1 fd ≡ resize (sys.content w fd) n
  pub ftruncate_error :
      (w : sys.World) (fd : sys.Fd) (n : ℕ) (e : Errno)
      → (sys.ftruncate w fd n).0 ≡ err e
      → sys.content (sys.ftruncate w fd n).1 fd ≡ sys.content w fd

pub resize-grow :
    (buf : Bytes) (n : ℕ) → length buf ≤ n → resize buf n ≡ buf ++ replicate (n - length buf) 0
unfolding resize
resize-grow buf n h = ap (λ b. b ++ replicate (n - length buf) 0) (take-all n buf h)

splice_grown :
    (buf bytes : Bytes) (z : ℕ)
    → z ≡ length bytes
    → take (length buf) (buf ++ replicate z 0)
        ++ (bytes ++ drop (length buf + length bytes) (buf ++ replicate z 0))
      ≡ buf ++ bytes
splice_grown buf bytes z h =
    rw
      (
        take-append_self buf (replicate z 0),
        drop-all (length buf + length bytes) (buf ++ replicate z 0)
            (omega (arith, length-append buf (replicate z 0), length-replicate {A = ℕ} z 0)),
        append-nil bytes,
      )
      refl

-- Bytes that go behind the end are appended.
pub splice-end : (buf bytes : Bytes) → splice buf (length buf) bytes ≡ buf ++ bytes
unfolding splice
splice-end buf bytes = elim (Bool-cases (ltb (length buf) (length buf + length bytes))) [
  | inl t ↦
      rw (t, resize-grow buf (length buf + length bytes) (omega arith))
        (splice_grown buf bytes (length buf + length bytes - length buf) (omega arith))
  | inr f ↦
      let none_left : length bytes ≡ 0 = ground arith in
      rw
        (
          f,
          take-all (length buf) buf (omega arith),
          drop-all (length buf + length bytes) buf (omega arith),
          append-nil bytes,
        )
        refl
]

pub length-resize : (buf : Bytes) (n : ℕ) → length (resize buf n) ≡ n
unfolding resize
length-resize buf n = ground (
  arith,
  length-append (take n buf) (replicate (n - length buf) 0),
  length-take n buf,
  length-replicate {A = ℕ} (n - length buf) 0,
)

pub resize_zero : (buf : Bytes) → resize buf 0 ≡ []
unfolding resize
resize_zero buf = let e : 0 - length buf ≡ 0 = omega arith in rw e refl

empty_of : (xs : Bytes) → length xs ≡ 0 → xs ≡ []
empty_of [] h = refl
empty_of (x ∷ xs) h = absurd (omega arith)

module _ (sys : System) (posix : Posix sys) where
  open sys use {World, Fd, content, pread, pwrite}

  -- A loop of reads gives the whole file, or the error of a read at an offset in it.
  abbrev pub ReadsAs : World → Fd → Result Errno Bytes → Type 0
  ReadsAs w fd r =
      (r ≡ ok (content w fd))
      ⊎ ((e : Errno) × (e ≢ unfinished)
          × (r ≡ err e)
          × (offset : ℕ) × (offset ≤ length (content w fd))
          × (pread w fd read_chunk offset ≡ err e))

  -- What a round reads of the rest.
  next_rest :
      (w : World) (fd : Fd) (out rest bs : Bytes)
      → content w fd ≡ out ++ rest
      → pread w fd read_chunk (length out) ≡ ok bs
      → rest ≡ bs ++ drop (length bs) rest
  next_rest w fd out rest bs e p =
      let at_offset : bs ≡ take (length bs) rest =
        rw (e, drop-append_self out rest) at
          (posix.pread_bytes w fd read_chunk (length out) bs p) in
      sym (ap (λ t. t ++ drop (length bs) rest) at_offset ∙ take-append-drop (length bs) rest)

  read_from-ReadsAs :
      (rounds : ℕ) (w : World) (fd : Fd) (out rest : Bytes) (offset : ℕ)
      → content w fd ≡ out ++ rest
      → offset ≡ length out
      → length rest < rounds
      → ReadsAs w fd (read_from sys rounds w fd out offset)
  unfolding read_from
  read_from-ReadsAs zero w fd out rest offset e o h = absurd (omega arith)
  read_from-ReadsAs (suc rounds) w fd out rest offset e o h =
      step (pread w fd read_chunk (length out)) refl (λ b bs s p.
        read_from-ReadsAs rounds w fd (out ++ (b ∷ bs)) (drop (length (b ∷ bs)) rest)
          (offset + length (b ∷ bs)) s (omega (arith, length-append out (b ∷ bs)))
          (omega (
            arith,
            length-drop (length (b ∷ bs)) rest,
            ap length (next_rest w fd out rest (b ∷ bs) e p),
            length-append (b ∷ bs) (drop (length (b ∷ bs)) rest),
          )))
    where
      step :
          (r : Result Errno Bytes)
          → pread w fd read_chunk (length out) ≡ r
          → ((b : ℕ) (bs : Bytes)
              → content w fd ≡ (out ++ (b ∷ bs)) ++ drop (length (b ∷ bs)) rest
              → pread w fd read_chunk (length out) ≡ ok (b ∷ bs)
              → ReadsAs w fd
                  (read_from sys rounds w fd (out ++ (b ∷ bs)) (offset + length (b ∷ bs))))
          → ReadsAs w fd (read_from sys (suc rounds) w fd out offset)
      step (err x) p ih =
          rw (o, p, read_from)
            (inr (
              x,
              (λ q. posix.pread_error w fd read_chunk (length out) (p ∙ ap err q)),
              refl,
              length out,
              omega (arith, ap length e, length-append out rest),
              p,
            ))
      step (ok []) p ih =
          let past = posix.pread_some w fd read_chunk (length out) p (omega arith) in
          let done : rest ≡ [] =
            empty_of rest (omega (arith, ap length e, length-append out rest)) in
          rw (o, p, read_from) (inl (ap ok (sym (e ∙ ap (◌++◌ out) done ∙ append-nil out))))
      step (ok (b ∷ bs)) p ih =
          let whole =
            e
            ∙ ap (◌++◌ out) (next_rest w fd out rest (b ∷ bs) e p)
            ∙ sym (append_assoc out (b ∷ bs) (drop (length (b ∷ bs)) rest)) in
          rw (o, p, read_from) (ih b bs whole p)

  -- `read_all` gives the whole file, or the error of a read at an offset in it; its loop ends. The file
  -- calls behave as documented.
  pub read_all-ReadsAs : (w : World) (fd : Fd) → ReadsAs w fd (read_all sys w fd)
  unfolding read_all
  read_all-ReadsAs w fd =
      read_from-ReadsAs (length (content w fd) + 1) w fd [] (content w fd) 0 refl refl (omega arith)

  -- The file holds the buffer, or a write failed.
  abbrev pub WritesAs : Bytes → Fd → Result Errno (Unit {0}) × World → Type 0
  WritesAs bytes fd r =
      ((r.0 ≡ ok tt) × (content r.1 fd ≡ bytes)) ⊎ ((e : Errno) × (e ≢ unfinished) × (r.0 ≡ err e))

  write_from-WritesAs :
      (rounds : ℕ) (w : World) (fd : Fd) (done left : Bytes) (written : ℕ)
      → content w fd ≡ done
      → written ≡ length done
      → length left ≤ rounds
      → WritesAs (done ++ left) fd (write_from sys rounds w fd left written)
  unfolding write_from
  write_from-WritesAs zero w fd done [] written c o h = inl (refl, c ∙ sym (append-nil done))
  write_from-WritesAs zero w fd done (b ∷ left) written c o h = absurd (omega arith)
  write_from-WritesAs (suc rounds) w fd done [] written c o h =
      inl (refl, c ∙ sym (append-nil done))
  write_from-WritesAs (suc rounds) w fd done (b ∷ left) written c o h =
      step (pwrite w fd (b ∷ left) written).0 refl (λ n fits grown.
        write_from-WritesAs rounds (pwrite w fd (b ∷ left) written).1 fd
          (done ++ take (suc n) (b ∷ left)) (drop (suc n) (b ∷ left)) (written + suc n) grown
          (omega
            (arith, length-append done (take (suc n) (b ∷ left)), length-take (suc n) (b ∷ left)))
          (omega (arith, length-drop (suc n) (b ∷ left))))
    where
      w1 : World
      w1 = (pwrite w fd (b ∷ left) written).1

      step :
          (r : Result Errno ℕ)
          → (pwrite w fd (b ∷ left) written).0 ≡ r
          → ((n : ℕ)
              → suc n ≤ length (b ∷ left)
              → content w1 fd ≡ done ++ take (suc n) (b ∷ left)
              → WritesAs
                  ((done ++ take (suc n) (b ∷ left)) ++ drop (suc n) (b ∷ left))
                  fd
                  (write_from sys rounds w1 fd (drop (suc n) (b ∷ left)) (written + suc n)))
          → WritesAs (done ++ (b ∷ left)) fd (elim r [
            | err e ↦ (err e, w1)
            | ok zero ↦ (ok tt, w1)
            | ok (suc n) ↦ write_from sys rounds w1 fd (drop (suc n) (b ∷ left)) (written + suc n)
          ])
      step (err x) p ih = inr (x, (posix.pwrite_error w fd (b ∷ left) written x p).0, refl)
      step (ok zero) p ih = cc (posix.pwrite_some w fd (b ∷ left) written p)
      step (ok (suc n)) p ih =
          let (fits, grown) = posix.pwrite_bytes w fd (b ∷ left) written (suc n) p in
          let target = grown ∙ rw (c, o, splice-end done (take (suc n) (b ∷ left))) refl in
          let whole : (done ++ take (suc n) (b ∷ left)) ++ drop (suc n) (b ∷ left)
              ≡ done ++ (b ∷ left) =
            append_assoc done (take (suc n) (b ∷ left)) (drop (suc n) (b ∷ left))
            ∙ ap (◌++◌ done) (take-append-drop (suc n) (b ∷ left)) in
          rw whole at (ih n fits target)

  -- `write_all_at` on an empty file leaves the whole buffer in it, or gives the error of a write; its
  -- loop ends. The file calls behave as documented.
  pub write_all_at-WritesAs :
      (w : World) (fd : Fd) (bytes : Bytes)
      → content w fd ≡ []
      → WritesAs bytes fd (write_all_at sys w fd bytes)
  unfolding write_all_at
  write_all_at-WritesAs w fd bytes e =
      write_from-WritesAs (length bytes) w fd [] bytes 0 e refl (omega arith)
