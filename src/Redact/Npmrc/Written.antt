-- ===== src/Redact/Npmrc/Written.antt =====
-- src/redact.rs, `merge_npmrc`: what becomes of each line of the buffer that was written.
use airgap.Prelude.{
  ◌≡◌, ◌≢◌, refl, sym, ap, ◌∙◌, ◌⊎◌, inl, inr, true, false, ◌&&◌, List, [], ◌∷◌, ◌++◌, Option, none,
  some, arith, Bytes, ok, err, Pointwise, All, Option-cases, subst, nat_eq, list_eq, ==_cases,
}
use airgap.Prelude.Assoc.{Assoc, lookup, lookup-insert, lookup-empty}
use airgap.Std.Utf8.{is_utf8, from_utf8}
use airgap.Std.Text.{split}
use airgap.Redact.{not_utf8, placeholder}
use airgap.Redact.Npmrc.Loops.{LineOut, lines-LineOut, split-push_lines, cut-LineOut, glue-LineOut}
use airgap.Redact.Npmrc.Lines.{Credential, IsPlain, Credential-cases, Pointwise-map}
use airgap.Redact.Npmrc.Merge.{
  add_secret-Credential, add_secret-other, merge_line-other, merge_line-Credential,
}
use airgap.Redact.Npmrc.{
  normalised, push_lines, add_secret, collect_secrets, merge_line, merge_npmrc,
}

-- The line gives no credential with the normalised key `j`.
abbrev pub Omits : Bytes → Bytes → Type 0
Omits j l = ¬ ((k v : Bytes) × Credential l k v × (normalised k ≡ j))

-- Among the lines the last one for the normalised key `j` gives it the value `v`.
abbrev pub Gives : List Bytes → Bytes → Bytes → Type 0
Gives [] j v = ⊥
Gives (l ∷ ls) j v =
    Gives ls j v ⊎ (((k : Bytes) × Credential l k v × (normalised k ≡ j)) × All (Omits j) ls)

Omits-plain : (j l : Bytes) → IsPlain l → Omits j l
Omits-plain j l h t = h (t.0, t.1, t.2)

Credential-unique : {l k v j w : Bytes} → Credential l k v → Credential l j w → (k ≡ j) × (v ≡ w)
Credential-unique c d = let e = sym c.cut ∙ d.cut in (cc, cc)

abbrev Collected : Assoc Bytes Bytes → List Bytes → Bytes → Option Bytes → Type 0
Collected m ls j none = All (Omits j) ls × (lookup m j ≡ none)
Collected m ls j (some w) = Gives ls j w ⊎ (All (Omits j) ls × (lookup m j ≡ some w))

module _ (m : Assoc Bytes Bytes) (l : Bytes) (ls : List Bytes) (j : Bytes) where
  Collected-omit :
      Omits j l
      → lookup (add_secret m l) j ≡ lookup m j
      → (r : Option Bytes) → Collected (add_secret m l) ls j r
      → Collected m (l ∷ ls) j r
  Collected-omit o e none (om, p) = ((o, om), sym e ∙ p)
  Collected-omit o e (some w) (inl g) = inl (inl g)
  Collected-omit o e (some w) (inr (om, p)) = inr ((o, om), sym e ∙ p)

  Collected-give :
      (k v : Bytes)
      → Credential l k v
      → normalised k ≡ j
      → lookup (add_secret m l) j ≡ some v
      → (r : Option Bytes) → Collected (add_secret m l) ls j r
      → Collected m (l ∷ ls) j r
  Collected-give k v c e p none (om, q) = cc (p, q)
  Collected-give k v c e p (some w) (inl g) = inl (inl g)
  Collected-give k v c e p (some w) (inr (om, q)) =
      let same : v ≡ w = cc (p, q) in inl (inr ((k, subst (Credential l k) same c, e), om))

  Collected-cons : (r : Option Bytes) → Collected (add_secret m l) ls j r → Collected m (l ∷ ls) j r
  Collected-cons r h = elim (Credential-cases l) [
    | inl (k, v, c) ↦
        let step =
          ap (λ t. lookup t j) (add_secret-Credential m l c) ∙ lookup-insert m (normalised k) j v in
        elim (==_cases (normalised k) j) [
          | inl (t, e) ↦ Collected-give k v c e (rw t at step) r h
          | inr (t, ne) ↦
              Collected-omit (λ o. ne (ap normalised (Credential-unique c o.2).0 ∙ o.3))
                (rw t at step) r h
        ]
    | inr plain ↦ Collected-omit (Omits-plain j l plain) (rw (add_secret-other m l plain) refl) r h
  ]

Collected-start : (m : Assoc Bytes Bytes) (j : Bytes) → Collected m [] j (lookup m j)
Collected-start m j = elim (Option-cases (lookup m j)) [
  | inl e ↦ rw e (tt, e)
  | inr (w, e) ↦ rw e (inr (tt, e))
]

collect-Collected :
    (ls : List Bytes) (m : Assoc Bytes Bytes) (j : Bytes)
    → Collected m ls j (lookup (collect_secrets m ls) j)
unfolding collect_secrets
collect-Collected [] m j = Collected-start m j
collect-Collected (l ∷ ls) m j = Collected-cons m l ls j _ (collect-Collected ls (add_secret m l) j)

-- What becomes of the written line `l`, given the lines of the original.
abbrev pub Merges : List Bytes → Bytes → Bytes → Type 0
Merges originals l out =
    (IsPlain l × (out ≡ l))
    ⊎ ((k v : Bytes) × Credential l k v × (v ≢ placeholder) × (out ≡ l))
    ⊎ ((k w : Bytes) × Credential l k placeholder
        × Gives originals (normalised k) w
        × (out ≡ k ++ (b'=' ∷ w)))
    ⊎ ((k : Bytes) × Credential l k placeholder × All (Omits (normalised k)) originals × (out ≡ l))

abbrev gathered : List Bytes → Assoc Bytes Bytes
gathered = collect_secrets []

found_out : Bytes → Bytes → Option Bytes → Bytes
found_out l k none = l
found_out l k (some w) = k ++ (b'=' ∷ w)

merge_line-placeholder :
    (ls : List Bytes) (l k : Bytes)
    → Credential l k placeholder
    → (r : Option Bytes) → Collected [] ls (normalised k) r
    → Merges ls l (found_out l k r)
unfolding found_out
merge_line-placeholder ls l k c none (om, e) = inr (inr (inr (k, c, om, refl)))
merge_line-placeholder ls l k c (some w) (inl g) = inr (inr (inl (k, w, c, g, refl)))
merge_line-placeholder ls l k c (some w) (inr (om, e)) = cc (e, lookup-empty (normalised k))

merge_line-Merges : (ls : List Bytes) (l : Bytes) → Merges ls l (merge_line (gathered ls) l)
unfolding found_out
merge_line-Merges ls l = elim (Credential-cases l) [
  | inl (k, v, c) ↦ elim (==_cases v placeholder) [
    | inl (t, e) ↦
        rw (merge_line-Credential (gathered ls) l k v c, t)
          (merge_line-placeholder ls l k (subst (Credential l k) e c) _
            (collect-Collected ls [] (normalised k)))
    | inr (t, ne) ↦
        rw (merge_line-Credential (gathered ls) l k v c, t) (inr (inl (k, v, c, ne, refl)))
  ]
  | inr plain ↦ rw (merge_line-other (gathered ls) l plain) (inl (plain, refl))
]

Gives-LineOut : (ls : List Bytes) (j v : Bytes) → All LineOut ls → Gives ls j v → LineOut v
Gives-LineOut [] j v h g = absurd g
Gives-LineOut (l ∷ ls) j v h (inl g) = Gives-LineOut ls j v h.1 g
Gives-LineOut (l ∷ ls) j v h (inr ((k, c, e), om)) = (cut-LineOut l h.0 c.cut).1

Merges-LineOut :
    (ls : List Bytes) (l out : Bytes) → All LineOut ls → LineOut l → Merges ls l out → LineOut out
Merges-LineOut ls l out h v (inl (p, e)) = rw e v
Merges-LineOut ls l out h v (inr (inl (k, w, c, ne, e))) = rw e v
Merges-LineOut ls l out h v (inr (inr (inl (k, w, c, g, e)))) =
    rw e (glue-LineOut k w (cut-LineOut l v c.cut).0 (Gives-LineOut ls (normalised k) w h g))
Merges-LineOut ls l out h v (inr (inr (inr (k, c, om, e)))) = rw e v

-- Of two valid texts the merge has the written lines in their order. A line that gives no
-- credential, and a credential with a value other than the placeholder, stay as written; a
-- credential with the placeholder gets the value of the last line of the original that gives it
-- one, and stays as written where no line of the original does. The result is valid.
pub merge_npmrc-Merges :
    (original written : Bytes)
    → is_utf8 original ≡ true
    → is_utf8 written ≡ true
    → (merged : Bytes) × (merge_npmrc original written ≡ ok merged)
      × (is_utf8 merged ≡ true)
      × Pointwise (Merges (split b'\n' original)) (split b'\n' written) (split b'\n' merged)
unfolding merge_npmrc from_utf8
merge_npmrc-Merges original written v w =
    let ls = split b'\n' original in
    let f = merge_line (gathered ls) in
    let keeps : (l : Bytes) → LineOut l → LineOut (f l) = λ l good.
      Merges-LineOut ls l (f l) (lines-LineOut original v) good (merge_line-Merges ls l) in
    let (cut, valid) = split-push_lines f keeps written w in
    (
      push_lines f 0 (split b'\n' written),
      rw (v, w) refl,
      valid,
      rw cut (Pointwise-map (Merges ls) f (merge_line-Merges ls) (split b'\n' written)),
    )

-- Where the original or the written buffer is no text, nothing is merged.
pub npmrc_fails_closed :
    (original written : Bytes)
    → (is_utf8 original && is_utf8 written) ≡ false
    → merge_npmrc original written ≡ err not_utf8
unfolding merge_npmrc from_utf8
npmrc_fails_closed original written h = ground arith
