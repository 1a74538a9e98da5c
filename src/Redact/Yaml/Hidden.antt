-- ===== src/Redact/Yaml/Hidden.antt =====
-- src/redact.rs, `redact_headers`: what it reaches, it hides.
use airgap.Prelude.{ℕ, zero, suc, ◌≤◌, ◌≡◌, refl, Bool, true, Bytes, arith, Bool-cases, inl, inr}
use airgap.Redact.{placeholder}
use airgap.Redact.Yaml.{
  Value, other, string, tagged, sequence, mapping, Values, nil, cons, Entries, end, entry,
  YamlCrate, blank_entries, blank, depth, depth_values, depth_entries, is_headers, redact_values,
  redact_entries, redact_to, redact_headers,
}

-- Every value of the mapping is the placeholder.
abbrev pub Blank : Entries → Type 0
Blank end = Unit {0}
Blank (entry k v es) = (v ≡ string placeholder) × Blank es

abbrev pub BlankHeaders : Bool → Value → Type 0
BlankHeaders true (mapping es) = Blank es
BlankHeaders _ _ = Unit {0}

-- Below the value, through sequences and the values of mappings, every mapping that stands under
-- the key `headers` has the placeholder for each of its values.
mutual
  pub Hidden : YamlCrate → Value → Type 0
  Hidden yaml (sequence vs) = HiddenValues yaml vs
  Hidden yaml (mapping es) = HiddenEntries yaml es
  Hidden yaml (other n) = Unit {0}
  Hidden yaml (string s) = Unit {0}
  Hidden yaml (tagged t v) = Unit {0}

  pub HiddenValues : YamlCrate → Values → Type 0
  HiddenValues yaml nil = Unit {0}
  HiddenValues yaml (cons v vs) = Hidden yaml v × HiddenValues yaml vs

  pub HiddenEntries : YamlCrate → Entries → Type 0
  HiddenEntries yaml end = Unit {0}
  HiddenEntries yaml (entry k v es) =
      BlankHeaders (is_headers yaml k) v × Hidden yaml v × HiddenEntries yaml es

redact_to-string : (yaml : YamlCrate) (n : ℕ) (s : Bytes) → redact_to yaml n (string s) ≡ string s
unfolding redact_to
redact_to-string yaml zero s = refl
redact_to-string yaml (suc n) s = refl

redact_entries-Blank :
    (yaml : YamlCrate) (n : ℕ) (es : Entries)
    → Blank (redact_entries yaml (redact_to yaml n) (blank_entries es))
unfolding redact_entries blank_entries
redact_entries-Blank yaml n end = tt
redact_entries-Blank yaml n (entry k v es) =
    (ground (arith, redact_to-string yaml n placeholder), redact_entries-Blank yaml n es)

depth_entries-blank : (es : Entries) → depth_entries (blank_entries es) ≡ 0
unfolding depth depth_entries blank_entries
depth_entries-blank end = refl
depth_entries-blank (entry k v es) = omega (arith, depth_entries-blank es)

depth-blank-le : (v : Value) → depth (blank v) ≤ depth v
unfolding depth blank
depth-blank-le (mapping es) = omega (arith, depth_entries-blank es)
depth-blank-le (other n) = omega arith
depth-blank-le (string s) = omega arith
depth-blank-le (tagged t v) = omega arith
depth-blank-le (sequence vs) = omega arith

blank_headers :
    (yaml : YamlCrate) (n : ℕ) (v : Value)
    → depth v ≤ n
    → BlankHeaders true (redact_to yaml n (blank v))
unfolding redact_to blank depth
blank_headers yaml zero (mapping es) h = absurd (omega arith)
blank_headers yaml (suc n) (mapping es) h = redact_entries-Blank yaml n es
blank_headers yaml zero (other k) h = tt
blank_headers yaml zero (string s) h = tt
blank_headers yaml zero (tagged t v) h = tt
blank_headers yaml zero (sequence vs) h = tt
blank_headers yaml (suc n) (other k) h = tt
blank_headers yaml (suc n) (string s) h = tt
blank_headers yaml (suc n) (tagged t v) h = tt
blank_headers yaml (suc n) (sequence vs) h = tt

module _ (yaml : YamlCrate) (n : ℕ)
    (ih : (v : Value) → depth v ≤ n → Hidden yaml (redact_to yaml n v)) where
  values-Hidden :
      (vs : Values) → depth_values vs ≤ n → HiddenValues yaml (redact_values (redact_to yaml n) vs)
  unfolding Hidden HiddenValues redact_values depth depth_values
  values-Hidden nil h = tt
  values-Hidden (cons v vs) h = (ih v (omega arith), values-Hidden vs (omega arith))

  entries-Hidden :
      (es : Entries)
      → depth_entries es ≤ n
      → HiddenEntries yaml (redact_entries yaml (redact_to yaml n) es)
  unfolding Hidden HiddenEntries redact_entries depth depth_entries
  entries-Hidden end h = tt
  entries-Hidden (entry k v es) h = elim (Bool-cases (is_headers yaml k)) [
    | inl t ↦ rw t (
      blank_headers yaml n v (omega arith),
      ih (blank v) (omega (arith, depth-blank-le v)),
      entries-Hidden es (omega arith),
    )
    | inr f ↦ rw f (tt, ih v (omega arith), entries-Hidden es (omega arith))
  ]

redact_to-Hidden :
    (yaml : YamlCrate) (n : ℕ) (v : Value) → depth v ≤ n → Hidden yaml (redact_to yaml n v)
unfolding Hidden redact_to depth
redact_to-Hidden yaml zero (other k) h = tt
redact_to-Hidden yaml zero (string s) h = tt
redact_to-Hidden yaml zero (tagged t v) h = tt
redact_to-Hidden yaml zero (sequence vs) h = absurd (omega arith)
redact_to-Hidden yaml zero (mapping es) h = absurd (omega arith)
redact_to-Hidden yaml (suc n) (other k) h = tt
redact_to-Hidden yaml (suc n) (string s) h = tt
redact_to-Hidden yaml (suc n) (tagged t v) h = tt
redact_to-Hidden yaml (suc n) (sequence vs) h =
    values-Hidden yaml n (λ v k. redact_to-Hidden yaml n v k) vs (omega arith)
redact_to-Hidden yaml (suc n) (mapping es) h =
    entries-Hidden yaml n (λ v k. redact_to-Hidden yaml n v k) es (omega arith)

-- Whatever the document, once redacted no mapping under a key `headers` that the walk reaches has a
-- value other than the placeholder.
pub redact_headers-Hidden : (yaml : YamlCrate) (v : Value) → Hidden yaml (redact_headers yaml v)
unfolding redact_headers
redact_headers-Hidden yaml v = redact_to-Hidden yaml (depth v) v (omega arith)
