-- ===== src/Std/Text.antt =====
-- Operations of `str` and of byte slices, on bytes. Every pattern that the program looks for is
-- ASCII, so a search over bytes finds what a search over characters finds.
pub mod Pieces
pub mod Trim
use mathlib.Core.List.{reverse}
use airgap.Prelude.{
  ℕ, zero, suc, ◌+◌, ◌-◌, ◌≡◌, refl, ap, Bool, true, false, not, ◌&&◌, ◌||◌, List, [], ◌∷◌, ◌++◌,
  Option, none, some, arith, ltb, leb, nat_beq, if◌then◌else◌, Bytes, ◌==◌, codes, any, all, drop,
  length,
}

-- `starts_with`, `ends_with`.
unfoldable pub starts_with : Bytes → Bytes → Bool
starts_with s [] = true
starts_with [] (p ∷ ps) = false
starts_with (c ∷ cs) (p ∷ ps) = nat_beq c p && starts_with cs ps

unfoldable pub ends_with : Bytes → Bytes → Bool
unfolding starts_with
ends_with s p = starts_with (reverse s) (reverse p)

unfoldable pub cons_head : ℕ → List Bytes → List Bytes
cons_head c [] = (c ∷ []) ∷ []
cons_head c (l ∷ ls) = (c ∷ l) ∷ ls

-- `split(d)`: the pieces between the separators, one more than there are separators.
unfoldable pub split : ℕ → Bytes → List Bytes
unfolding cons_head
split d [] = [] ∷ []
split d (c ∷ cs) = let rest = split d cs in if nat_beq c d then [] ∷ rest else cons_head c rest

-- `split_once(d)`: what stands before the first separator, and behind it.
unfoldable pub split_once : ℕ → Bytes → Option (Bytes × Bytes)
split_once d [] = none
split_once d (c ∷ cs) =
    let rest = split_once d cs in
    if nat_beq c d then some ([], cs) else elim rest [ none ↦ none | some (k, v) ↦ some (c ∷ k, v) ]

-- `rsplit_once(d)`, at the last separator.
unfoldable pub rsplit_once : ℕ → Bytes → Option (Bytes × Bytes)
unfolding split_once
rsplit_once d s = elim (split_once d (reverse s)) [
  | none ↦ none
  | some (v, k) ↦ some (reverse k, reverse v)
]

-- `lines()`: as `split(b'\n')`, with no piece behind a last line feed, and a carriage return at the
-- end of a line that has a line feed taken off.
strip_cr : Bytes → Bytes
strip_cr [] = []
strip_cr (c ∷ []) = if nat_beq c b'\r' then [] else c ∷ []
strip_cr (c ∷ d ∷ cs) = c ∷ strip_cr (d ∷ cs)

line_pieces : List Bytes → List Bytes
unfolding strip_cr
line_pieces [] = []
line_pieces ([] ∷ []) = []
line_pieces ((c ∷ cs) ∷ []) = (c ∷ cs) ∷ []
line_pieces (l ∷ m ∷ ls) = strip_cr l ∷ line_pieces (m ∷ ls)

unfoldable pub lines : Bytes → List Bytes
unfolding split line_pieces
lines s = line_pieces (split b'\n' s)

-- The length of the whitespace character that a text begins with, 0 if it begins with none.
unfoldable pub white_len : Bytes → ℕ
white_len [] = 0
white_len (a ∷ s) = if (leb 0x09 a && leb a 0x0d) || nat_beq a 0x20 then 1 else white_two a s
  where
    white_three : ℕ → ℕ → Bytes → ℕ
    white_three a b [] = 0
    white_three a b (c ∷ s) =
        if (nat_beq a 0xe1 && nat_beq b 0x9a && nat_beq c 0x80)
          || (nat_beq a 0xe2
              && nat_beq b 0x80
              && ((leb 0x80 c && leb c 0x8a) || nat_beq c 0xa8 || nat_beq c 0xa9 || nat_beq c 0xaf))
          || (nat_beq a 0xe2 && nat_beq b 0x81 && nat_beq c 0x9f)
          || (nat_beq a 0xe3 && nat_beq b 0x80 && nat_beq c 0x80)
        then 3
        else 0

    white_two : ℕ → Bytes → ℕ
    white_two a [] = 0
    white_two a (b ∷ s) =
        if nat_beq a 0xc2 && (nat_beq b 0x85 || nat_beq b 0xa0) then 2 else white_three a b s

-- `skip` bytes of a character that is taken off are still to go.
trim_from : (Bytes → ℕ) → ℕ → Bytes → Bytes
trim_from white skip [] = []
trim_from white (suc skip) (c ∷ s) = trim_from white skip s
trim_from white zero (c ∷ s) =
    let n = white (c ∷ s) in
    let rest = trim_from white (n - 1) s in if nat_beq n 0 then c ∷ s else rest

unfoldable pub trim_start : Bytes → Bytes
unfolding trim_from white_len
trim_start s = trim_from white_len 0 s

-- The same from the end: the bytes of a character in reverse order.
white_len_end : Bytes → ℕ
unfolding white_len
white_len_end [] = 0
white_len_end (a ∷ []) = white_len (a ∷ [])
white_len_end (a ∷ b ∷ []) = if leb a 0x20 then white_len (a ∷ []) else white_len (b ∷ a ∷ [])
white_len_end (a ∷ b ∷ c ∷ s) =
    if leb a 0x20
    then white_len (a ∷ [])
    else if nat_beq b 0xc2
    then white_len (b ∷ a ∷ [])
    else if leb 0xe1 c
    then white_len (c ∷ b ∷ a ∷ [])
    else 0

unfoldable pub trim_end : Bytes → Bytes
unfolding trim_from white_len_end
trim_end s = reverse (trim_from white_len_end 0 (reverse s))

unfoldable pub trim : Bytes → Bytes
unfolding trim_start trim_end
trim s = trim_start (trim_end s)

unfoldable pub lower_byte : ℕ → ℕ
lower_byte c = if leb b'A' c && leb c b'Z' then c + 32 else c

unfoldable pub to_ascii_lowercase : Bytes → Bytes
unfolding lower_byte
to_ascii_lowercase [] = []
to_ascii_lowercase (c ∷ s) = lower_byte c ∷ to_ascii_lowercase s

-- `replace(from, to)` where `from` is one byte.
unfoldable pub replace_byte : ℕ → Bytes → Bytes → Bytes
replace_byte from to [] = []
replace_byte from to (c ∷ s) = (if nat_beq c from then to else c ∷ []) ++ replace_byte from to s

-- `replacen(from, to, 1)`.
unfoldable pub replace_first : Bytes → Bytes → Bytes → Bytes
unfolding starts_with
replace_first from to [] = if starts_with [] from then to else []
replace_first from to (c ∷ s) =
    let rest = replace_first from to s in
    if starts_with (c ∷ s) from then to ++ drop (length from) (c ∷ s) else c ∷ rest

-- The pieces with a separator between them, the inverse of `split`.
unfoldable pub join_pieces : ℕ → List Bytes → Bytes
join_pieces d [] = []
join_pieces d (l ∷ []) = l
join_pieces d (l ∷ m ∷ ls) = l ++ (d ∷ join_pieces d (m ∷ ls))

abbrev pub Lacks : ℕ → Bytes → Type 0
Lacks d s = any (λ c. nat_beq c d) s ≡ false

trims :
    (trim (codes "  a b\t\r\n") ≡ codes "a b")
    × (trim (0xc2 ∷ 0xa0 ∷ b'x' ∷ 0xe2 ∷ 0x80 ∷ 0x83 ∷ []) ≡ b'x' ∷ [])
    × (trim_end (codes "\n") ≡ [])
unfolding trim
trims = (refl, refl, refl)

splits :
    (split b'\n' (codes "a\n\nb\n") ≡ codes "a" ∷ [] ∷ codes "b" ∷ [] ∷ [])
    × (lines (codes "a\r\n\nb\n") ≡ codes "a" ∷ [] ∷ codes "b" ∷ [])
    × (split_once b'=' (codes "k=v=w") ≡ some (codes "k", codes "v=w"))
    × (rsplit_once b':' (codes "h:1:2") ≡ some (codes "h:1", codes "2"))
unfolding split lines split_once rsplit_once
splits = (refl, refl, refl, refl)
