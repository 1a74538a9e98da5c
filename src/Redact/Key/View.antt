-- ===== src/Redact/Key/View.antt =====
-- src/redact.rs, `redact_private_key`: what a view of a key holds.
use airgap.Prelude.{
  ◌≡◌, refl, sym, subst, true, false, List, [], ◌∷◌, ◌++◌, none, some, arith, Bytes, codes, find,
  contains, nat_eq, list_eq, list_beq, list_beq_iff, All, Bool-cases, inl, inr, ◌⊎◌, any,
}
use airgap.Std.Utf8.{is_utf8, from_utf8}
use airgap.Std.Text.{starts_with, ends_with, lines, replace_first}
use airgap.Redact.{placeholder}
use airgap.Redact.Detect.{key_headers, is_key_header}
use airgap.Redact.Key.{is_end_marker, end_marker, redact_key_lines, redact_private_key}

-- The marker made up for a header, where the key has none, is a marker too.
contains-key_headers :
    (P : Bytes → Type 0) → All P key_headers → (b : Bytes) → is_key_header b ≡ true → P b
unfolding is_key_header
contains-key_headers P h b e = go key_headers h e
  where
    go : (ls : List Bytes) → All P ls → contains ls b ≡ true → P b
    go [] h e = cc
    go (l ∷ ls) h e = elim (Bool-cases (list_beq l b)) [
      | inl t ↦ subst P ((list_beq_iff l b).0 t) h.0
      | inr f ↦ go ls h.1 (ground arith)
    ]

abbrev HasEnd : Bytes → Type 0
HasEnd b = is_end_marker (replace_first (codes "BEGIN") (codes "END") b) ≡ true

header_end :
    (b : Bytes)
    → is_key_header b ≡ true
    → is_end_marker (replace_first (codes "BEGIN") (codes "END") b) ≡ true
unfolding is_end_marker replace_first starts_with ends_with
header_end b h = contains-key_headers HasEnd (refl, (refl, (refl, (refl, (refl, tt))))) b h

-- The first line that is an end marker, or no line is one.
find-end_marker :
    (ls : List Bytes)
    → ((l : Bytes) × (find is_end_marker ls ≡ some l)
        × (is_end_marker l ≡ true)
        × (contains ls l ≡ true))
      ⊎ ((find is_end_marker ls ≡ none) × (any is_end_marker ls ≡ false))
find-end_marker [] = inr (refl, refl)
find-end_marker (l ∷ ls) = elim (Bool-cases (is_end_marker l)) [
  | inl t ↦ inl (l, ground arith, t, ground (arith, list_beq_iff l l))
  | inr f ↦ elim (find-end_marker ls) [
    | inl (m, e, t, c) ↦ inl (m, ground arith, t, ground arith)
    | inr (e, a) ↦ inr (ground arith, ground arith)
  ]
]

-- A view of a key has three lines: the header that the key begins with, the placeholder, and an end
-- marker, which is a line of the key or, where no line is one, the header's own.
pub record KeyView (key_lines : List Bytes) (view : Bytes) : Type 0 where
  pub begin : Bytes
  pub rest : List Bytes
  pub end : Bytes
  pub first : key_lines ≡ begin ∷ rest
  pub is_header : is_key_header begin ≡ true
  pub is_marker : is_end_marker end ≡ true
  pub source :
      (contains key_lines end ≡ true)
      ⊎ ((any is_end_marker key_lines ≡ false)
          × (end ≡ replace_first (codes "BEGIN") (codes "END") begin))
  pub shape : view ≡ begin ++ (b'\n' ∷ (placeholder ++ (b'\n' ∷ (end ++ (b'\n' ∷ [])))))

key_lines-KeyView :
    (ls : List Bytes) {view : Bytes} → redact_key_lines ls ≡ some view → KeyView ls view
unfolding redact_key_lines
key_lines-KeyView [] h = cc
key_lines-KeyView (begin ∷ ls) h = elim (Bool-cases (is_key_header begin)) [
  | inr f ↦ ground arith
  | inl t ↦ elim (find-end_marker (begin ∷ ls)) [
    | inl (l, e, m, c) ↦ record {
      begin = begin;
      rest = ls;
      end = l;
      first = refl;
      is_header = t;
      is_marker = m;
      source = inl c;
      shape = unfold end_marker in sym (ground arith);
    }
    | inr (e, a) ↦ record {
      begin = begin;
      rest = ls;
      end = replace_first (codes "BEGIN") (codes "END") begin;
      first = refl;
      is_header = t;
      is_marker = header_end begin t;
      source = inr (a, refl);
      shape = unfold end_marker in sym (ground arith);
    }
  ]
]

-- Where a file has a view as a private key, the file is text and the view holds nothing of it but
-- its first line and at most one end marker.
pub redact_private_key-KeyView :
    (original : Bytes) {view : Bytes}
    → redact_private_key original ≡ some view
    → (is_utf8 original ≡ true) × KeyView (lines original) view
unfolding redact_private_key from_utf8
redact_private_key-KeyView original h = elim (Bool-cases (is_utf8 original)) [
  | inl t ↦ (t, key_lines-KeyView (lines original) (ground arith))
  | inr f ↦ ground arith
]
