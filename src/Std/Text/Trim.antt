-- ===== src/Std/Text/Trim.antt =====
-- Trimming at the start looks no further than the first byte that is not whitespace.
use airgap.Prelude.{ℕ, zero, suc, ◌-◌, ◌≤◌, ◌≡◌, refl, [], ◌∷◌, ◌++◌, arith, Bytes, length}
use airgap.Std.Text.{starts_with, white_len, trim_from, trim_start}

-- What follows an `=` does not change the whitespace before it.
white_len-cut : (k x y : Bytes) → white_len (k ++ b'=' ∷ x) ≡ white_len (k ++ b'=' ∷ y)
unfolding white_len
white_len-cut [] [] [] = refl
white_len-cut [] [] (c ∷ y) = ground arith
white_len-cut [] (c ∷ x) [] = ground arith
white_len-cut [] (c ∷ x) (d ∷ y) = ground arith
white_len-cut (a ∷ []) [] [] = refl
white_len-cut (a ∷ []) [] (c ∷ y) = ground arith
white_len-cut (a ∷ []) (c ∷ x) [] = ground arith
white_len-cut (a ∷ []) (c ∷ x) (d ∷ y) = ground arith
white_len-cut (a ∷ b ∷ []) x y = ground arith
white_len-cut (a ∷ b ∷ c ∷ k) x y = refl

white_len-le : (k x : Bytes) → white_len (k ++ b'=' ∷ x) ≤ length k
unfolding white_len
white_len-le [] [] = ground arith
white_len-le [] (c ∷ []) = ground arith
white_len-le [] (c ∷ d ∷ x) = ground arith
white_len-le (a ∷ []) [] = ground arith
white_len-le (a ∷ []) (c ∷ x) = ground arith
white_len-le (a ∷ b ∷ []) x = ground arith
white_len-le (a ∷ b ∷ c ∷ k) x = ground arith

trim_from-cut :
    (b skip : ℕ) (k x y : Bytes)
    → skip ≤ length k
    → starts_with (trim_from white_len skip (k ++ b'=' ∷ x)) (b ∷ [])
      ≡ starts_with (trim_from white_len skip (k ++ b'=' ∷ y)) (b ∷ [])
unfolding trim_from starts_with
trim_from-cut b zero [] x y h = ground (arith, white_len-le [] x, white_len-le [] y)
trim_from-cut b (suc skip) [] x y h = absurd (omega arith)
trim_from-cut b (suc skip) (c ∷ k) x y h = trim_from-cut b skip k x y (omega arith)
trim_from-cut b zero (c ∷ k) x y h = ground (
  arith,
  white_len-cut (c ∷ k) x y,
  white_len-le (c ∷ k) x,
  trim_from-cut b (white_len (c ∷ (k ++ b'=' ∷ y)) - 1) k x y,
)

-- Whether a trimmed text begins with a byte is settled before an `=`.
pub trim_start-cut :
    (b : ℕ) (k x y : Bytes)
    → starts_with (trim_start (k ++ b'=' ∷ x)) (b ∷ [])
      ≡ starts_with (trim_start (k ++ b'=' ∷ y)) (b ∷ [])
unfolding trim_start
trim_start-cut b k x y = trim_from-cut b 0 k x y (omega arith)
