-- ===== src/Fs/Io.antt =====
-- src/fs.rs: reading and writing a whole file through a descriptor, and slices of what is served.
pub mod Whole
use airgap.Prelude.{
  ℕ, zero, suc, ◌+◌, ◌-◌, ◌^◌, min, Bool, true, false, List, [], ◌∷◌, ◌++◌, Option, none, some,
  if◌then◌else◌, ltb, nat_beq, Bytes, Result, ok, err, length, take, drop, replicate,
}
use airgap.Fs.Types.{Errno, unfinished, System}

abbrev pub read_chunk : ℕ
read_chunk = 8192

module _ (sys : System) where
  open sys use {World, Fd, content, pread, pwrite}

  -- The loop of `read_all`, with a bound on its rounds.
  unfoldable pub read_from : ℕ → World → Fd → Bytes → ℕ → Result Errno Bytes
  read_from zero w fd out offset = err unfinished
  read_from (suc rounds) w fd out offset = elim (pread w fd read_chunk offset) [
    | err e ↦ err e
    | ok [] ↦ ok out
    | ok (b ∷ bs) ↦ read_from rounds w fd (out ++ (b ∷ bs)) (offset + length (b ∷ bs))
  ]

  -- A round reads at least one byte of the file, so its length is bound enough.
  unfoldable pub read_all : World → Fd → Result Errno Bytes
  unfolding read_from
  read_all w fd = read_from (length (content w fd) + 1) w fd [] 0

  -- The loop of `write_all_at`; `left` is what `data` has from `written` on.
  unfoldable pub write_from : ℕ → World → Fd → Bytes → ℕ → Result Errno (Unit {0}) × World
  write_from zero w fd [] written = (ok tt, w)
  write_from zero w fd (b ∷ left) written = (err unfinished, w)
  write_from (suc rounds) w fd [] written = (ok tt, w)
  write_from (suc rounds) w fd (b ∷ left) written =
      let (r, w') = pwrite w fd (b ∷ left) written in
      elim r [
        | err e ↦ (err e, w')
        | ok zero ↦ (ok tt, w')
        | ok (suc n) ↦ write_from rounds w' fd (drop (suc n) (b ∷ left)) (written + suc n)
      ]

  unfoldable pub write_all_at : World → Fd → Bytes → Result Errno (Unit {0}) × World
  unfolding write_from
  write_all_at w fd bytes = write_from (length bytes) w fd bytes 0

abbrev pub usize_max : ℕ
usize_max = 2 ^ 64 - 1

-- What `read` replies of the bytes that a handle serves.
unfoldable pub slice : Bytes → ℕ → ℕ → Bytes
slice bytes offset size =
    let start = min offset (length bytes) in
    let end = min (min (start + size) usize_max) (length bytes) in
    take (end - start) (drop start bytes)

-- `buf.resize(n, 0)`.
unfoldable pub resize : Bytes → ℕ → Bytes
resize bytes n = take n bytes ++ replicate (n - length bytes) 0

-- What `write` makes of the pending buffer.
unfoldable pub splice : Bytes → ℕ → Bytes → Bytes
unfolding resize
splice buf offset bytes =
    let end = offset + length bytes in
    let grown = if ltb (length buf) end then resize buf end else buf in
    take offset grown ++ (bytes ++ drop end grown)
