-- ===== src/Std/Text/Pieces.antt =====
-- The laws of cutting a text into pieces and putting it together again.
use airgap.Prelude.{
  ℕ, ◌≡◌, refl, ap, true, List, [], ◌∷◌, ◌++◌, some, arith, ltb, nat_beq, nat_beq_iff, Bool-cases,
  Option-cases, inl, inr, Bytes, all, All,
}
use airgap.Std.Utf8.{is_utf8, is_utf8-ascii}
use airgap.Std.Text.{cons_head, split, split_once, join_pieces, Lacks}

module _ (d : ℕ) where
  join_pieces-cons_head :
      (c : ℕ) (l : Bytes) (ls : List Bytes)
      → join_pieces d (cons_head c (l ∷ ls)) ≡ c ∷ join_pieces d (l ∷ ls)
  unfolding join_pieces cons_head
  join_pieces-cons_head c l [] = refl
  join_pieces-cons_head c l (m ∷ ls) = refl

  -- A split is never empty.
  pub split-cons : (s : Bytes) → (l : Bytes) × (ls : List Bytes) × (split d s ≡ l ∷ ls)
  unfolding split cons_head
  split-cons [] = ([], [], refl)
  split-cons (c ∷ s) =
      let (l, ls, e) = split-cons s in
      elim (Bool-cases (nat_beq c d)) [
        | inl same ↦ ([], split d s, ground arith)
        | inr other ↦ (c ∷ l, ls, ground arith)
      ]

  pub join-split : (s : Bytes) → join_pieces d (split d s) ≡ s
  unfolding split join_pieces
  join-split [] = refl
  join-split (c ∷ s) =
      let (l, ls, e) = split-cons s in ground (arith, e, join-split s, join_pieces-cons_head c l ls)

  pub split-Lacks : (s : Bytes) → All (Lacks d) (split d s)
  unfolding split cons_head
  split-Lacks [] = (refl, tt)
  split-Lacks (c ∷ s) = let (l, ls, e) = split-cons s in ground (arith, e, split-Lacks s)

  split-Lacks_one : (l : Bytes) → Lacks d l → split d l ≡ l ∷ []
  unfolding split cons_head
  split-Lacks_one [] h = refl
  split-Lacks_one (c ∷ l) h = ground (arith, split-Lacks_one l)

  split-append : (l s : Bytes) → Lacks d l → split d (l ++ d ∷ s) ≡ l ∷ split d s
  unfolding split cons_head
  split-append [] s h = ground arith
  split-append (c ∷ l) s h = ground (arith, split-append l s)

  -- Pieces without the separator are read back.
  pub split-join :
      (l : Bytes) (ls : List Bytes)
      → All (Lacks d) (l ∷ ls)
      → split d (join_pieces d (l ∷ ls)) ≡ l ∷ ls
  unfolding join_pieces
  split-join l [] h = split-Lacks_one l h.0
  split-join l (m ∷ ls) h =
      rw (split-append l (join_pieces d (m ∷ ls)) h.0) (ap (◌∷◌ l) (split-join m ls h.1))

  pub split_once-append : (k v : Bytes) → Lacks d k → split_once d (k ++ d ∷ v) ≡ some (k, v)
  unfolding split_once
  split_once-append [] v h = ground arith
  split_once-append (c ∷ k) v h = ground (arith, split_once-append k v)

  -- What `split_once` finds is the text, cut at its first separator.
  pub split_once-eq-some :
      (s : Bytes) {k v : Bytes} → split_once d s ≡ some (k, v) → (s ≡ k ++ d ∷ v) × Lacks d k
  unfolding split_once
  split_once-eq-some [] h = ground arith
  split_once-eq-some (c ∷ s) h = elim (Option-cases (split_once d s)) [
    | inl e ↦ ground arith
    | inr ((k', v'), e) ↦ let ih = split_once-eq-some s e in ground (arith, nat_beq_iff c d)
  ]

  module _ (ascii : ltb d 0x80 ≡ true) where
    pub is_utf8-join :
        (l : Bytes) (ls : List Bytes) → is_utf8 (join_pieces d (l ∷ ls)) ≡ all is_utf8 (l ∷ ls)
    unfolding join_pieces
    is_utf8-join l [] = ground arith
    is_utf8-join l (m ∷ ls) =
        ground (arith, is_utf8-ascii l d (join_pieces d (m ∷ ls)) ascii, is_utf8-join m ls)
