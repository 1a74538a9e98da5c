-- ===== src/Redact/Env/Values.antt =====
-- src/redact.rs, `format_value`: how a value is written.
use airgap.Prelude.{
  ◌≡◌, ◌≢◌, ◌⊎◌, refl, [], ◌∷◌, ◌++◌, arith, if◌then◌else◌, nat_beq, Bytes, nat_eq, list_eq, inl,
  inr, Bool-cases, true, false,
}
use airgap.Std.Text.{white_len, replace_byte}
use airgap.Redact.Env.{needs_quotes, escaped, format_value}

-- A value that has no white space, no `#` and no quotes.
abbrev pub Bare : Bytes → Type 0
Bare [] = Unit {0}
Bare (c ∷ v) = (white_len (c ∷ v) ≡ 0) × (c ≢ b'#') × (c ≢ 34) × (c ≢ 39) × Bare v

-- Every backslash and every double quote with a backslash before it.
abbrev pub escape_bytes : Bytes → Bytes
escape_bytes [] = []
escape_bytes (c ∷ v) =
    (if nat_beq c b'\\'
      then b'\\' ∷ b'\\' ∷ []
      else if nat_beq c 34
      then b'\\' ∷ 34 ∷ []
      else c ∷ [])
    ++ escape_bytes v

-- The text of a value: as it is where it is bare, otherwise in double quotes and escaped.
abbrev pub Written : Bytes → Bytes → Type 0
Written v text =
    ((v ≢ []) × Bare v × (text ≡ v))
    ⊎ (((v ≡ []) ⊎ ¬ Bare v) × (text ≡ 34 ∷ (escape_bytes v ++ 34 ∷ [])))

escaped-escape_bytes : (v : Bytes) → escaped v ≡ escape_bytes v
unfolding escaped replace_byte
escaped-escape_bytes [] = refl
escaped-escape_bytes (c ∷ v) = ground (arith, escaped-escape_bytes v)

needs_quotes-eq-false : (v : Bytes) → needs_quotes v ≡ false → Bare v
unfolding needs_quotes
needs_quotes-eq-false [] h = tt
needs_quotes-eq-false (c ∷ v) h = (
  ground (arith, h),
  λ e. ground (arith, h, e),
  λ e. ground (arith, h, e),
  λ e. ground (arith, h, e),
  needs_quotes-eq-false v (ground (arith, h)),
)

needs_quotes-eq-true : (v : Bytes) → needs_quotes v ≡ true → ¬ Bare v
unfolding needs_quotes
needs_quotes-eq-true [] h b = absurd (cc h)
needs_quotes-eq-true (c ∷ v) h (white, hash, double, single, rest) =
    elim (Bool-cases (needs_quotes v)) [
      | inl q ↦ needs_quotes-eq-true v q rest
      | inr q ↦ ground (arith, h, white, hash, double, single, q)
    ]

pub format_value-Written : (v : Bytes) → Written v (format_value v)
unfolding format_value
format_value-Written [] = inr (inl refl, rw (escaped-escape_bytes []) refl)
format_value-Written (c ∷ v) = elim (Bool-cases (needs_quotes (c ∷ v))) [
  | inl q ↦
      rw q (inr (inr (needs_quotes-eq-true (c ∷ v) q), rw (escaped-escape_bytes (c ∷ v)) refl))
  | inr q ↦ rw q (inl ((λ e. cc e), needs_quotes-eq-false (c ∷ v) q, refl))
]
