-- ===== src/Mitm/Proxy/Ends.antt =====
-- src/mitm/proxy.rs: the first blank line of a text ends its head.
use airgap.Prelude.{
  ℕ, suc, ◌+◌, ◌≤◌, ◌≡◌, refl, sym, ap, ◌∙◌, inl, inr, true, [], ◌∷◌, ◌++◌, some, arith, Bytes,
  codes, length, take, Bool-cases, Option-cases, append_assoc, length-append, take-append_self,
}
use airgap.Std.Text.{starts_with}
use airgap.Mitm.Proxy.{find_headers_end}

abbrev pub blank_line : Bytes
blank_line = codes "\r\n\r\n"

starts_with_split : (s p : Bytes) → starts_with s p ≡ true → (y : Bytes) × (s ≡ p ++ y)
unfolding starts_with
starts_with_split s [] h = (s, refl)
starts_with_split [] (b ∷ p) h = cc
starts_with_split (c ∷ s) (b ∷ p) h =
    let (y, e) = starts_with_split s p (ground arith) in (y, ground arith)

find_headers_end-Split :
    (buf : Bytes) (i : ℕ)
    → find_headers_end buf ≡ some i
    → (x : Bytes) × (y : Bytes) × (buf ≡ x ++ (blank_line ++ y)) × (i ≡ length x + 4)
unfolding find_headers_end
find_headers_end-Split [] i h = cc
find_headers_end-Split (c ∷ cs) i h = elim (Bool-cases (starts_with (c ∷ cs) blank_line)) [
  | inl y ↦ let (rest, e) = starts_with_split (c ∷ cs) blank_line y in ([], rest, e, ground arith)
  | inr n ↦ elim (Option-cases (find_headers_end cs)) [
    | inl q ↦ absurd (ground arith)
    | inr (p, q) ↦
        let (x, y, e, m) = find_headers_end-Split cs p q in (c ∷ x, y, ap (◌∷◌ c) e, ground arith)
  ]
]

find_headers_end-split :
    (u v : Bytes)
    → (i : ℕ) × (find_headers_end (u ++ (blank_line ++ v)) ≡ some i) × (i ≤ length u + 4)
unfolding find_headers_end starts_with
find_headers_end-split [] v = (4, refl, omega arith)
find_headers_end-split (c ∷ u) v =
    elim (Bool-cases (starts_with (c ∷ (u ++ (blank_line ++ v))) blank_line)) [
      | inl y ↦ (4, ground arith, omega arith)
      | inr n ↦
          let (i, e, less) = find_headers_end-split u v in (suc i, ground (arith, e), omega arith)
    ]

-- Where a text has a blank line, the head that is found ends behind one, and no later than behind that
-- one: it is the first.
pub find_headers_end-first :
    (buf u v : Bytes)
    → buf ≡ u ++ (blank_line ++ v)
    → (x : Bytes) × (y : Bytes) × (buf ≡ x ++ (blank_line ++ y))
      × (find_headers_end buf ≡ some (length x + 4))
      × (length x ≤ length u)
find_headers_end-first buf u v e =
    let (i, found, less) = find_headers_end-split u v in
    let found' : find_headers_end buf ≡ some i = ap find_headers_end e ∙ found in
    let (x, y, e', m) = find_headers_end-Split buf i found' in
    (x, y, e', found' ∙ ap some m, omega (arith, less, m))

-- A head that is found is a head by itself.
pub find_headers_end-take :
    (buf : Bytes) (i : ℕ)
    → find_headers_end buf ≡ some i
    → (find_headers_end (take i buf) ≡ some i) × (length (take i buf) ≡ i)
find_headers_end-take buf i f =
    let (x, y, e, m) = find_headers_end-Split buf i f in
    let measure : i ≡ length (x ++ blank_line) = m ∙ sym (length-append x blank_line) in
    let whole : buf ≡ (x ++ blank_line) ++ y = e ∙ sym (append_assoc x blank_line y) in
    let cut : take i buf ≡ x ++ blank_line =
      ap (λ n. take n buf) measure
      ∙ (ap (take (length (x ++ blank_line))) whole ∙ take-append_self (x ++ blank_line) y) in
    let (j, g, less) = find_headers_end-split x [] in
    let (x', y', e', m') = find_headers_end-Split (x ++ blank_line) j g in
    let (k, h, less') = find_headers_end-split x' (y' ++ y) in
    let same : buf ≡ x' ++ (blank_line ++ (y' ++ y)) =
      whole ∙ (ap (λ z. z ++ y) e' ∙ append_assoc x' (blank_line ++ y') y) in
    let first : i ≡ k = cc (f, h, ap find_headers_end same) in
    (
      ap find_headers_end cut ∙ (g ∙ ap some (omega (arith, first, less, less', m, m'))),
      ap length cut ∙ sym measure,
    )
