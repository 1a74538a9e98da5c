-- ===== src/Redact/Yaml.antt =====
-- src/redact.rs: `redact_mitm_yaml` and `redact_headers`. Parsing and printing YAML are those of the
-- crate serde_yaml_ng: parameters. Its `Value` has here the variants that the code tells apart;
-- `other` stands for the rest, of which the code makes no difference.
pub mod Hidden
use Prim.Native.Nat.{max}
use airgap.Prelude.{
  ℕ, zero, suc, ◌+◌, Bool, true, false, ◌&&◌, ◌||◌, List, [], ◌∷◌, Option, none, some,
  if◌then◌else◌, leb, nat_beq, Bytes, codes, ◌==◌, nat_eq, list_eq, all, Result, ok, err, ok_or,
  ◌>>=◌,
}
use airgap.Redact.{RedactError, bad_yaml, placeholder}

mutual
  pub data Value : Type 0 where
    other : ℕ → Value
    string : Bytes → Value
    tagged : Bytes → Value → Value
    sequence : Values → Value
    mapping : Entries → Value

  pub data Values : Type 0 where
    nil : Values
    cons : Value → Values → Values

  pub data Entries : Type 0 where
    end : Entries
    entry : Value → Value → Entries → Entries

-- What the handler uses of the crate.
pub record YamlCrate : Type 0 where
  pub from_slice : Bytes → Option Value
  pub to_string : Value → Option Bytes
  pub as_str : Value → Option Bytes

-- `*hv = Value::String(PLACEHOLDER)` for every value of a mapping.
unfoldable pub blank_entries : Entries → Entries
blank_entries end = end
blank_entries (entry name hv es) = entry name (string placeholder) (blank_entries es)

-- The inner part of the `if key.as_str() == Some("headers") && let Value::Mapping(headers) = val`.
unfoldable pub blank : Value → Value
unfolding blank_entries
blank (mapping es) = mapping (blank_entries es)
blank v = v

unfoldable mutual
  pub depth : Value → ℕ
  depth (sequence vs) = suc (depth_values vs)
  depth (mapping es) = suc (depth_entries es)
  depth (other n) = 0
  depth (string s) = 0
  depth (tagged t v) = 0

  pub depth_values : Values → ℕ
  depth_values nil = 0
  depth_values (cons v vs) = max (depth v) (depth_values vs)

  pub depth_entries : Entries → ℕ
  depth_entries end = 0
  depth_entries (entry k v es) = max (depth v) (depth_entries es)

unfoldable pub is_headers : YamlCrate → Value → Bool
is_headers yaml key = elim (yaml.as_str key) [ none ↦ false | some s ↦ s == codes "headers" ]

-- The loops of `redact_headers`; `go` is the recursive call.
unfoldable pub redact_values : (Value → Value) → Values → Values
redact_values go nil = nil
redact_values go (cons v vs) = cons (go v) (redact_values go vs)

unfoldable pub redact_entries : YamlCrate → (Value → Value) → Entries → Entries
unfolding blank is_headers
redact_entries yaml go end = end
redact_entries yaml go (entry key val es) =
    entry key (go (if is_headers yaml key then blank val else val)) (redact_entries yaml go es)

-- The source recurs into a value that it may just have changed, so the recursion is on the depth.
unfoldable pub redact_to : YamlCrate → ℕ → Value → Value
unfolding redact_values redact_entries
redact_to yaml zero v = v
redact_to yaml (suc n) (sequence vs) = sequence (redact_values (redact_to yaml n) vs)
redact_to yaml (suc n) (mapping es) = mapping (redact_entries yaml (redact_to yaml n) es)
redact_to yaml (suc n) v = v

unfoldable pub redact_headers : YamlCrate → Value → Value
unfolding redact_to depth depth_values depth_entries
redact_headers yaml v = redact_to yaml (depth v) v

-- `u8::is_ascii_whitespace`.
abbrev is_ascii_whitespace : ℕ → Bool
is_ascii_whitespace b =
    nat_beq b 0x20 || nat_beq b 0x09 || nat_beq b 0x0a || nat_beq b 0x0c || nat_beq b 0x0d

unfoldable pub redact_mitm_yaml : YamlCrate → Bytes → Result RedactError Bytes
unfolding redact_headers
redact_mitm_yaml yaml original = if all is_ascii_whitespace original then ok [] else do
  value ← ok_or (yaml.from_slice original) bad_yaml
  ok_or (yaml.to_string (redact_headers yaml value)) bad_yaml
