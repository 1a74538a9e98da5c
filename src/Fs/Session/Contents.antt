-- ===== src/Fs/Session/Contents.antt =====
-- What a file is to a program: a size, and a byte at each place. An independent account of the reads,
-- writes and truncations that src/fs.rs answers from a buffer.
use airgap.Prelude.{
  ℕ, zero, suc, ◌+◌, ◌-◌, ◌≤◌, min, ◌≡◌, refl, sym, ap, ◌∙◌, [], ◌∷◌, ◌++◌, arith, ltb,
  if◌then◌else◌, Bytes, length, take, drop, replicate, length-append, length-take, length-drop,
  Bool-cases, inl, inr,
}
use airgap.Fs.Io.{usize_max, slice, resize, splice}
use airgap.Fs.Io.Whole.{length-resize}
use airgap.Fs.Files.Serve.{slice_plain}

-- Past its size a file has no bytes; a hole is read as zeros.
pub record Contents : Type 0 where
  pub size : ℕ
  pub value : ℕ → ℕ

-- The bytes from a place on.
unfoldable pub bytes_from : (ℕ → ℕ) → ℕ → ℕ → Bytes
bytes_from value i zero = []
bytes_from value i (suc n) = value i ∷ bytes_from value (suc i) n

unfoldable pub byte_at : Bytes → ℕ → ℕ
byte_at [] i = 0
byte_at (b ∷ bs) zero = b
byte_at (b ∷ bs) (suc i) = byte_at bs i

-- A read stops at the end of the file.
unfoldable pub read_contents : Contents → ℕ → ℕ → Bytes
unfolding bytes_from
read_contents f offset n = bytes_from f.value offset (min n (f.size - offset))

unfoldable pub write_contents : Contents → ℕ → Bytes → Contents
unfolding byte_at
write_contents f offset bytes = record {
  size = if ltb f.size (offset + length bytes) then offset + length bytes else f.size;
  value = λ i.
      if ltb i offset
      then f.value i
      else if ltb i (offset + length bytes)
      then byte_at bytes (i - offset)
      else f.value i;
}

unfoldable pub resize_contents : Contents → ℕ → Contents
resize_contents f n = record { size = n; value = λ i. if ltb i n then f.value i else 0 }

unfoldable pub contents_of : Bytes → Contents
unfolding byte_at
contents_of buf = record { size = length buf; value = byte_at buf }

byte_at-append :
    (xs ys : Bytes) (i : ℕ)
    → byte_at (xs ++ ys) i
      ≡ (if ltb i (length xs) then byte_at xs i else byte_at ys (i - length xs))
unfolding byte_at
byte_at-append [] ys i = ground arith
byte_at-append (x ∷ xs) ys zero = ground arith
byte_at-append (x ∷ xs) ys (suc i) = ground (arith, byte_at-append xs ys i)

byte_at-take :
    (n : ℕ) (xs : Bytes) (i : ℕ) → byte_at (take n xs) i ≡ (if ltb i n then byte_at xs i else 0)
unfolding byte_at
byte_at-take zero xs i = ground arith
byte_at-take (suc n) [] i = ground arith
byte_at-take (suc n) (x ∷ xs) zero = ground arith
byte_at-take (suc n) (x ∷ xs) (suc i) = ground (arith, byte_at-take n xs i)

byte_at-drop : (n : ℕ) (xs : Bytes) (i : ℕ) → byte_at (drop n xs) i ≡ byte_at xs (n + i)
unfolding byte_at
byte_at-drop zero xs i = ap (byte_at xs) (omega arith)
byte_at-drop (suc n) [] i = refl
byte_at-drop (suc n) (x ∷ xs) i =
    let k : suc (n + i) ≡ suc n + i = omega arith in byte_at-drop n xs i ∙ ap (byte_at (x ∷ xs)) k

byte_at-replicate : (n i : ℕ) → byte_at (replicate n 0) i ≡ 0
unfolding byte_at
byte_at-replicate zero i = refl
byte_at-replicate (suc n) zero = refl
byte_at-replicate (suc n) (suc i) = byte_at-replicate n i

byte_at-past : (xs : Bytes) (i : ℕ) → length xs ≤ i → byte_at xs i ≡ 0
unfolding byte_at
byte_at-past [] i h = refl
byte_at-past (x ∷ xs) zero h = absurd (omega arith)
byte_at-past (x ∷ xs) (suc i) h = byte_at-past xs i (omega arith)

byte_at-resize :
    (buf : Bytes) (n i : ℕ) → byte_at (resize buf n) i ≡ (if ltb i n then byte_at buf i else 0)
unfolding resize
byte_at-resize buf n i = ground (
  arith,
  byte_at-append (take n buf) (replicate (n - length buf) 0) i,
  byte_at-take n buf i,
  byte_at-replicate (n - length buf) (i - length (take n buf)),
  byte_at-past buf i,
  length-take n buf,
)

length-splice :
    (buf bytes : Bytes) (offset : ℕ)
    → length (splice buf offset bytes)
      ≡ (if ltb (length buf) (offset + length bytes) then offset + length bytes else length buf)
unfolding splice
length-splice buf bytes offset =
    let end = offset + length bytes in
    elim (Bool-cases (ltb (length buf) end)) [
      | inl t ↦ rw t (
          length-append (take offset (resize buf end)) (bytes ++ drop end (resize buf end))
          ∙ ground (
            arith,
            length-append bytes (drop end (resize buf end)),
            length-take offset (resize buf end),
            length-drop end (resize buf end),
            length-resize buf end,
          ))
      | inr f ↦ rw f (
          length-append (take offset buf) (bytes ++ drop end buf)
          ∙ ground (
            arith,
            length-append bytes (drop end buf),
            length-take offset buf,
            length-drop end buf,
          ))
    ]

-- Bytes put into a buffer that reaches to their end.
byte_at-put :
    (buf bytes : Bytes) (offset i : ℕ)
    → offset + length bytes ≤ length buf
    → byte_at (take offset buf ++ (bytes ++ drop (offset + length bytes) buf)) i ≡ (
        if ltb i offset
        then byte_at buf i
        else if ltb i (offset + length bytes)
        then byte_at bytes (i - offset)
        else byte_at buf i)
byte_at-put buf bytes offset i fits =
    let end = offset + length bytes in
    let e : length (take offset buf) ≡ offset = length-take offset buf ∙ ground arith in
    byte_at-append (take offset buf) (bytes ++ drop end buf) i
    ∙ rw
        (
          e,
          byte_at-take offset buf i,
          byte_at-append bytes (drop end buf) (i - offset),
          byte_at-drop end buf (i - offset - length bytes),
        )
        (elim (Bool-cases (ltb i offset)) [
          | inl a ↦ rw a refl
          | inr a ↦ elim (Bool-cases (ltb i end)) [
            | inl b ↦ ground arith
            | inr b ↦
                let k : end + (i - offset - length bytes) ≡ i = ground arith in rw k (ground arith)
          ]
        ])

byte_at-splice :
    (buf bytes : Bytes) (offset i : ℕ)
    → byte_at (splice buf offset bytes) i ≡ (write_contents (contents_of buf) offset bytes).value i
unfolding splice write_contents contents_of
byte_at-splice buf bytes offset i =
    let end = offset + length bytes in
    elim (Bool-cases (ltb (length buf) end)) [
      | inl t ↦ rw t (
          byte_at-put (resize buf end) bytes offset i (ground (arith, length-resize buf end))
          ∙ ground (arith, byte_at-resize buf end i, byte_at-past buf i))
      | inr f ↦ rw f (byte_at-put buf bytes offset i (ground arith))
    ]

-- A buffer is a file's contents, and the code's writes, truncations and reads of it are the file's.
pub contents_of-splice :
    (buf bytes : Bytes) (offset : ℕ)
    → contents_of (splice buf offset bytes) ≡ write_contents (contents_of buf) offset bytes
unfolding contents_of write_contents
contents_of-splice buf bytes offset = λ j. record {
  size = length-splice buf bytes offset j;
  value = λ i. byte_at-splice buf bytes offset i j;
}

pub contents_of-resize :
    (buf : Bytes) (n : ℕ) → contents_of (resize buf n) ≡ resize_contents (contents_of buf) n
unfolding contents_of resize_contents
contents_of-resize buf n =
    λ j. record { size = length-resize buf n j; value = λ i. byte_at-resize buf n i j }

bytes_from-tail :
    (b : ℕ) (bs : Bytes) (i n : ℕ)
    → bytes_from (byte_at (b ∷ bs)) (suc i) n ≡ bytes_from (byte_at bs) i n
unfolding bytes_from byte_at
bytes_from-tail b bs i zero = refl
bytes_from-tail b bs i (suc n) = ap (◌∷◌ (byte_at bs i)) (bytes_from-tail b bs (suc i) n)

-- What stands from a place on is what the bytes there are, one by one.
take-drop :
    (n i : ℕ) (buf : Bytes)
    → take n (drop i buf) ≡ bytes_from (byte_at buf) i (min n (length buf - i))
unfolding bytes_from byte_at
take-drop zero i buf = let k : min 0 (length buf - i) ≡ 0 = omega arith in rw k refl
take-drop (suc n) zero [] = let k : min (suc n) (0 - 0) ≡ 0 = omega arith in rw k refl
take-drop (suc n) (suc i) [] = let k : min (suc n) (0 - suc i) ≡ 0 = omega arith in rw k refl
take-drop (suc n) zero (b ∷ bs) =
    let k : min (suc n) (suc (length bs) - 0) ≡ suc (min n (length bs - 0)) = omega arith in
    rw k (ap (◌∷◌ b) (take-drop n 0 bs ∙ sym (bytes_from-tail b bs 0 (min n (length bs - 0)))))
take-drop (suc n) (suc i) (b ∷ bs) =
    let k : min (suc n) (suc (length bs) - suc i) ≡ min (suc n) (length bs - i) = omega arith in
    rw k (take-drop (suc n) i bs ∙ sym (bytes_from-tail b bs i (min (suc n) (length bs - i))))

pub slice-eq-read_contents :
    (buf : Bytes) (offset n : ℕ)
    → offset + n ≤ usize_max
    → slice buf offset n ≡ read_contents (contents_of buf) offset n
unfolding read_contents contents_of
slice-eq-read_contents buf offset n h = slice_plain buf offset n h ∙ take-drop n offset buf
