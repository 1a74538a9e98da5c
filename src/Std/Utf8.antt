-- ===== src/Std/Utf8.antt =====
-- `std::str::from_utf8` and `String::from_utf8_lossy`, as a machine over the bytes. A text is its
-- bytes, so a conversion that succeeds returns what it was given.
use airgap.Prelude.{
  ℕ, ◌-◌, ◌≡◌, refl, Bool, true, false, ◌&&◌, [], ◌∷◌, ◌++◌, Option, none, some, arith, ltb, leb,
  nat_beq, if◌then◌else◌, Bytes,
}

-- Between characters, or inside one: `need` continuation bytes are missing, and the next one lies
-- in `lo ..= hi`.
pub data Utf8State : Type 0 where
  boundary : Utf8State
  inside : (need lo hi : ℕ) → Utf8State

pub data Utf8Step : Type 0 where
  invalid : Utf8Step
  move : Utf8State → Utf8Step

-- The first byte of a character.
unfoldable pub lead_byte : ℕ → Utf8Step
lead_byte b =
    if ltb b 0x80
    then move boundary
    else if ltb b 0xc2
    then invalid
    else if ltb b 0xe0
    then move (inside 1 0x80 0xbf)
    else if nat_beq b 0xe0
    then move (inside 2 0xa0 0xbf)
    else if nat_beq b 0xed
    then move (inside 2 0x80 0x9f)
    else if ltb b 0xf0
    then move (inside 2 0x80 0xbf)
    else if nat_beq b 0xf0
    then move (inside 3 0x90 0xbf)
    else if ltb b 0xf4
    then move (inside 3 0x80 0xbf)
    else if nat_beq b 0xf4
    then move (inside 3 0x80 0x8f)
    else invalid

unfoldable pub utf8_step : Utf8State → ℕ → Utf8Step
unfolding lead_byte
utf8_step boundary b = lead_byte b
utf8_step (inside need lo hi) b =
    if leb lo b && leb b hi
    then (if leb need 1 then move boundary else move (inside (need - 1) 0x80 0xbf))
    else invalid

unfoldable pub utf8_from : Utf8State → Bytes → Bool
unfolding utf8_step
utf8_from boundary [] = true
utf8_from (inside need lo hi) [] = false
utf8_from s (b ∷ bs) = elim (utf8_step s b) [ invalid ↦ false | move t ↦ utf8_from t bs ]

abbrev pub is_utf8 : Bytes → Bool
is_utf8 = utf8_from boundary

-- `from_utf8(bytes).ok()`, and `OsStr::to_str`.
unfoldable pub from_utf8 : Bytes → Option Bytes
unfolding utf8_from
from_utf8 bytes = if is_utf8 bytes then some bytes else none

abbrev pub replacement : Bytes
replacement = 0xef ∷ 0xbf ∷ 0xbd ∷ []

-- A byte that cannot go on the character begun is one replacement for that character, and is then
-- read as the first byte of the next. `held` are the bytes of the character begun.
unfoldable pub lossy_from : Utf8State → Bytes → Bytes → Bytes
unfolding utf8_step
lossy_from boundary held [] = []
lossy_from (inside need lo hi) held [] = replacement
lossy_from boundary held (b ∷ bs) = elim (lead_byte b) [
  | invalid ↦ replacement ++ lossy_from boundary [] bs
  | move boundary ↦ b ∷ lossy_from boundary [] bs
  | move (inside need lo hi) ↦ lossy_from (inside need lo hi) (b ∷ []) bs
]
lossy_from (inside need lo hi) held (b ∷ bs) = elim (utf8_step (inside need lo hi) b) [
  | invalid ↦ elim (lead_byte b) [
    | invalid ↦ replacement ++ (replacement ++ lossy_from boundary [] bs)
    | move boundary ↦ replacement ++ (b ∷ lossy_from boundary [] bs)
    | move (inside n l h) ↦ replacement ++ lossy_from (inside n l h) (b ∷ []) bs
  ]
  | move boundary ↦ held ++ (b ∷ lossy_from boundary [] bs)
  | move (inside n l h) ↦ lossy_from (inside n l h) (held ++ b ∷ []) bs
]

unfoldable pub from_utf8_lossy : Bytes → Bytes
unfolding lossy_from
from_utf8_lossy bytes = lossy_from boundary [] bytes

-- A byte below 0x80 stands between characters only.
utf8_step-ascii :
    (need lo hi b : ℕ)
    → ltb b 0x80 ≡ true
    → leb 0x80 lo ≡ true
    → utf8_step (inside need lo hi) b ≡ invalid
unfolding utf8_step
utf8_step-ascii need lo hi b h l = ground arith

abbrev HighLo : Utf8State → Type 0
HighLo boundary = Unit {0}
HighLo (inside need lo hi) = leb 0x80 lo ≡ true

abbrev HighStep : Utf8Step → Type 0
HighStep invalid = Unit {0}
HighStep (move t) = HighLo t

HighLo-step : (s : Utf8State) (b : ℕ) → HighLo s → HighStep (utf8_step s b)
unfolding utf8_step
HighLo-step boundary b h = ground arith
HighLo-step (inside need lo hi) b h = ground arith

after_step :
    (xs : Bytes) (b : ℕ) (ys : Bytes) (r : Utf8Step)
    → HighStep r
    → ((t : Utf8State) → HighLo t → utf8_from t (xs ++ b ∷ ys) ≡ utf8_from t xs && is_utf8 ys)
    → ◌≡◌ {A = Bool}
        (elim r [ invalid ↦ false | move t ↦ utf8_from t (xs ++ b ∷ ys) ])
        (elim r [ invalid ↦ false | move t ↦ utf8_from t xs ] && is_utf8 ys)
after_step xs b ys invalid w ih = refl
after_step xs b ys (move t) w ih = ih t w

-- A text splits into texts at an ASCII byte, and texts join.
utf8_from-ascii :
    (s : Utf8State) (xs : Bytes) (b : ℕ) (ys : Bytes)
    → HighLo s
    → ltb b 0x80 ≡ true
    → utf8_from s (xs ++ b ∷ ys) ≡ utf8_from s xs && is_utf8 ys
unfolding utf8_from
utf8_from-ascii boundary [] b ys v h = ground arith
utf8_from-ascii (inside need lo hi) [] b ys v h = ground (arith, utf8_step-ascii need lo hi b h v)
utf8_from-ascii boundary (x ∷ xs) b ys v h =
    after_step xs b ys (utf8_step boundary x) (HighLo-step boundary x v)
      (λ t w. utf8_from-ascii t xs b ys w h)
utf8_from-ascii (inside need lo hi) (x ∷ xs) b ys v h =
    after_step xs b ys (utf8_step (inside need lo hi) x) (HighLo-step (inside need lo hi) x v)
      (λ t w. utf8_from-ascii t xs b ys w h)

pub is_utf8-ascii :
    (xs : Bytes) (b : ℕ) (ys : Bytes)
    → ltb b 0x80 ≡ true
    → is_utf8 (xs ++ b ∷ ys) ≡ is_utf8 xs && is_utf8 ys
is_utf8-ascii xs b ys h = utf8_from-ascii boundary xs b ys tt h
