-- ===== src/Redact/Npmrc/Loops.antt =====
-- src/redact.rs: the loops over the lines of an `.npmrc`, and the texts that they print.
use airgap.Prelude.{
  ℕ, suc, ◌≡◌, refl, ap, ◌∙◌, true, List, [], ◌∷◌, ◌++◌, some, arith, Bytes, All, map, append-nil,
  all, any-append, nat_beq,
}
use airgap.Std.Utf8.{is_utf8, is_utf8-ascii}
use airgap.Std.Text.{split, split_once, join_pieces, Lacks}
use airgap.Std.Text.Pieces.{
  split-cons, join-split, split-Lacks, split-join, split_once-eq-some, is_utf8-join,
}
use airgap.Redact.Npmrc.{push_lines}

module _ (f : Bytes → Bytes) where
  push_lines-next :
      (i : ℕ) (l : Bytes) (ls : List Bytes)
      → push_lines f (suc i) (l ∷ ls) ≡ b'\n' ∷ (f l ++ push_lines f (suc (suc i)) ls)
  unfolding push_lines
  push_lines-next i l ls = ground arith

  push_lines-suc :
      (i : ℕ) (l : Bytes) (ls : List Bytes)
      → push_lines f (suc i) (l ∷ ls) ≡ b'\n' ∷ join_pieces b'\n' (map f (l ∷ ls))
  unfolding join_pieces
  push_lines-suc i l [] =
      rw (push_lines-next i l []) (unfold push_lines in ap (◌∷◌ b'\n') (append-nil (f l)))
  push_lines-suc i l (m ∷ ls) = rw (push_lines-next i l (m ∷ ls), push_lines-suc (suc i) m ls) refl

  -- The loops print their lines with line feeds between them.
  pub push_lines-join : (ls : List Bytes) → push_lines f 0 ls ≡ join_pieces b'\n' (map f ls)
  unfolding push_lines
  push_lines-join [] = unfold join_pieces in refl
  push_lines-join (l ∷ []) = unfold join_pieces in append-nil (f l)
  push_lines-join (l ∷ m ∷ ls) =
      ap (◌++◌ (f l)) (push_lines-suc 0 m ls) ∙ unfold join_pieces in refl

abbrev pub LineOut : Bytes → Type 0
LineOut l = Lacks b'\n' l × (is_utf8 l ≡ true)

All-LineOut : (ls : List Bytes) → All (Lacks b'\n') ls → all is_utf8 ls ≡ true → All LineOut ls
All-LineOut [] h v = tt
All-LineOut (l ∷ ls) h v = ground (arith, All-LineOut ls)

LineOut-All : (ls : List Bytes) → All LineOut ls → All (Lacks b'\n') ls × (all is_utf8 ls ≡ true)
LineOut-All [] h = (tt, refl)
LineOut-All (l ∷ ls) h = ground (arith, LineOut-All ls h.1)

All-map :
    (f : Bytes → Bytes) (keeps : (l : Bytes) → LineOut l → LineOut (f l)) (ls : List Bytes)
    → All LineOut ls
    → All LineOut (map f ls)
All-map f keeps [] h = tt
All-map f keeps (l ∷ ls) h = (keeps l h.0, All-map f keeps ls h.1)

-- The lines of a valid text hold no line feed and are valid.
pub lines-LineOut : (t : Bytes) → is_utf8 t ≡ true → All LineOut (split b'\n' t)
lines-LineOut t v =
    let (l, ls, e) = split-cons b'\n' t in
    All-LineOut (split b'\n' t) (split-Lacks b'\n' t)
      (rw (e, ← is_utf8-join b'\n' refl l ls, ← e, join-split b'\n' t) v)

-- A loop that keeps its lines free of line feeds and valid prints a valid text with those lines.
module _ (f : Bytes → Bytes) (keeps : (l : Bytes) → LineOut l → LineOut (f l)) where
  pub split-push_lines :
      (t : Bytes)
      → is_utf8 t ≡ true
      → (split b'\n' (push_lines f 0 (split b'\n' t)) ≡ map f (split b'\n' t))
        × (is_utf8 (push_lines f 0 (split b'\n' t)) ≡ true)
  split-push_lines t v =
      let (l, ls, e) = split-cons b'\n' t in
      let good : All LineOut (map f (l ∷ ls)) =
        All-map f keeps (l ∷ ls) (rw e at (lines-LineOut t v)) in
      let (lacks, valid) = LineOut-All (map f (l ∷ ls)) good in
      rw (e, push_lines-join f (l ∷ ls))
        (split-join b'\n' (f l) (map f ls) lacks, is_utf8-join b'\n' refl (f l) (map f ls) ∙ valid)

-- What stands before and behind the first `=` of a valid line is valid.
pub cut-LineOut :
    (l : Bytes) {key value : Bytes}
    → LineOut l
    → split_once b'=' l ≡ some (key, value)
    → LineOut key × LineOut value
cut-LineOut l {key} {value} v e =
    let (whole, _) = split_once-eq-some b'=' l e in
    let bytes : LineOut (key ++ (b'=' ∷ value)) = rw whole at v in
    ground (
      arith,
      bytes,
      any-append (λ c. nat_beq c b'\n') key (b'=' ∷ value),
      is_utf8-ascii key b'=' value refl,
    )

pub glue-LineOut :
    (key value : Bytes) → LineOut key → LineOut value → LineOut (key ++ (b'=' ∷ value))
glue-LineOut key value k v =
    ground (
      arith,
      any-append (λ c. nat_beq c b'\n') key (b'=' ∷ value),
      is_utf8-ascii key b'=' value refl,
    )
