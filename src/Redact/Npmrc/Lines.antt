-- ===== src/Redact/Npmrc/Lines.antt =====
-- src/redact.rs, `redact_npmrc`: what its output is, line by line, and what it hides.
use airgap.Prelude.{
  ◌≡◌, refl, sym, ap, ◌∙◌, ◌⊎◌, inl, inr, true, false, List, [], ◌∷◌, ◌++◌, some, arith, Bytes, ok,
  Pointwise, Bool-cases, Option-cases, map,
}
use airgap.Std.Utf8.{is_utf8, from_utf8, utf8_from}
use airgap.Std.Text.{split, split_once, join_pieces}
use airgap.Redact.{placeholder}
use airgap.Redact.Npmrc.Loops.{
  push_lines-join, LineOut, split-push_lines, cut-LineOut, glue-LineOut,
}
use airgap.Redact.Npmrc.{
  is_npmrc_comment, is_npmrc_secret_key, redact_line, push_lines, redact_npmrc,
}

-- `line` gives the credential `key` the value `value`.
pub record Credential (line key value : Bytes) : Type 0 where
  pub is_setting : is_npmrc_comment line ≡ false
  pub cut : split_once b'=' line ≡ some (key, value)
  pub is_secret : is_npmrc_secret_key key ≡ true

-- The line gives no credential.
abbrev pub IsPlain : Bytes → Type 0
IsPlain line = ¬ ((key value : Bytes) × Credential line key value)

-- Every line gives a credential, or gives none.
pub Credential-cases :
    (line : Bytes) → ((key value : Bytes) × Credential line key value) ⊎ IsPlain line
Credential-cases line = elim (Option-cases (split_once b'=' line)) [
  | inl e ↦ inr (λ t. cc (e, t.2.cut))
  | inr ((key, value), e) ↦ elim (Bool-cases (is_npmrc_comment line)) [
    | inl h ↦ inr (λ t. cc (h, t.2.is_setting))
    | inr h ↦ elim (Bool-cases (is_npmrc_secret_key key)) [
      | inl s ↦ inl (key, value, record { is_setting = h; cut = e; is_secret = s })
      | inr s ↦ inr (λ t. cc (e, t.2.cut, s, t.2.is_secret))
    ]
  ]
]

pub redact_line-LineOut : (l : Bytes) → LineOut l → LineOut (redact_line l)
unfolding redact_line
redact_line-LineOut l v = elim (Option-cases (split_once b'=' l)) [
  | inl e ↦ ground arith
  | inr ((key, value), e) ↦
      let (k, w) = cut-LineOut l v e in
      let out = glue-LineOut key placeholder k (refl, unfold utf8_from in refl) in
      ground (arith, out)
]

-- How `redact_npmrc` treats a line: the value of a credential is replaced, all else is kept.
abbrev pub Redacts : Bytes → Bytes → Type 0
Redacts l out =
    ((key value : Bytes) × Credential l key value × (out ≡ key ++ (b'=' ∷ placeholder)))
    ⊎ (IsPlain l × (out ≡ l))

pub redact_line-Credential :
    (l : Bytes) {key value : Bytes}
    → Credential l key value
    → redact_line l ≡ key ++ (b'=' ∷ placeholder)
unfolding redact_line
redact_line-Credential l c = ground arith

pub redact_line-other : (l : Bytes) → IsPlain l → redact_line l ≡ l
unfolding redact_line
redact_line-other l h = elim (Option-cases (split_once b'=' l)) [
  | inl e ↦ ground arith
  | inr ((key, value), e) ↦
      let clash : is_npmrc_comment l ≡ false → is_npmrc_secret_key key ≡ true → ⊥ =
        λ c s. h (key, value, record { is_setting = c; cut = e; is_secret = s }) in
      ground arith
]

redact_line-Redacts : (l : Bytes) → Redacts l (redact_line l)
redact_line-Redacts l = elim (Credential-cases l) [
  | inl (key, value, c) ↦ inl (key, value, c, redact_line-Credential l c)
  | inr plain ↦ inr (plain, redact_line-other l plain)
]

pub Pointwise-map :
    (R : Bytes → Bytes → Type 0) (f : Bytes → Bytes) (each : (l : Bytes) → R l (f l))
    (ls : List Bytes)
    → Pointwise R ls (map f ls)
Pointwise-map R f each [] = tt
Pointwise-map R f each (l ∷ ls) = (each l, Pointwise-map R f each ls)

-- A valid `.npmrc` is redacted line by line, and the view is valid: of a line that gives a
-- credential the view has the key with the placeholder, and every other line as it is.
pub redact_npmrc-Redacts :
    (original : Bytes)
    → is_utf8 original ≡ true
    → (view : Bytes) × (redact_npmrc original ≡ ok view)
      × (is_utf8 view ≡ true)
      × Pointwise Redacts (split b'\n' original) (split b'\n' view)
unfolding redact_npmrc from_utf8
redact_npmrc-Redacts original v =
    let (cut, valid) = split-push_lines redact_line redact_line-LineOut original v in
    (
      push_lines redact_line 0 (split b'\n' original),
      rw v refl,
      valid,
      rw cut (Pointwise-map Redacts redact_line redact_line-Redacts (split b'\n' original)),
    )

-- Two lines differ at most in the value that they give one credential.
abbrev pub SamePublic : Bytes → Bytes → Type 0
SamePublic l m = (l ≡ m) ⊎ ((key v w : Bytes) × Credential l key v × Credential m key w)

redact_line-SamePublic : (l m : Bytes) → SamePublic l m → redact_line l ≡ redact_line m
redact_line-SamePublic l m (inl e) = ap redact_line e
redact_line-SamePublic l m (inr (key, v, w, c, d)) =
    redact_line-Credential l c ∙ sym (redact_line-Credential m d)

map-SamePublic :
    (ls ms : List Bytes) → Pointwise SamePublic ls ms → map redact_line ls ≡ map redact_line ms
map-SamePublic [] [] h = refl
map-SamePublic [] (m ∷ ms) h = absurd h
map-SamePublic (l ∷ ls) [] h = absurd h
map-SamePublic (l ∷ ls) (m ∷ ms) h = cc (redact_line-SamePublic l m h.0, map-SamePublic ls ms h.1)

-- Noninterference: two valid files that differ only in the values of credentials have one view.
pub redact_npmrc_hides :
    (a b : Bytes)
    → is_utf8 a ≡ true
    → is_utf8 b ≡ true
    → Pointwise SamePublic (split b'\n' a) (split b'\n' b)
    → redact_npmrc a ≡ redact_npmrc b
unfolding redact_npmrc from_utf8
redact_npmrc_hides a b va vb h =
    rw
      (
        va,
        vb,
        push_lines-join redact_line (split b'\n' a),
        push_lines-join redact_line (split b'\n' b),
      )
      (ap (λ ls. ok (join_pieces b'\n' ls)) (map-SamePublic _ _ h))
