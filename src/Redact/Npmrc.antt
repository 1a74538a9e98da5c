-- ===== src/Redact/Npmrc.antt =====
-- src/redact.rs: `redact_npmrc` and `merge_npmrc`.
mod Loops
pub mod Lines
pub mod Merge
pub mod Written
use airgap.Prelude.{
  ℕ, zero, suc, ◌+◌, Bool, true, false, not, ◌&&◌, ◌||◌, List, [], ◌∷◌, ◌++◌, Option, none, some,
  ltb, if◌then◌else◌, Bytes, codes, ◌==◌, nat_eq, list_eq, Result, ok, err, ok_or, ◌>>=◌,
}
use airgap.Prelude.Assoc.{Assoc, lookup, insert}
use airgap.Std.Utf8.{from_utf8}
use airgap.Std.Text.{
  starts_with, ends_with, split, split_once, trim, trim_start, to_ascii_lowercase,
}
use airgap.Redact.{RedactError, not_utf8, placeholder}

unfoldable pub is_npmrc_comment : Bytes → Bool
is_npmrc_comment line =
    let t = trim_start line in starts_with t (codes "#") || starts_with t (codes ";")

-- `key.trim().to_ascii_lowercase()`.
unfoldable pub normalised : Bytes → Bytes
normalised key = to_ascii_lowercase (trim key)

unfoldable pub is_npmrc_secret_key : Bytes → Bool
unfolding normalised
is_npmrc_secret_key key =
    let k = normalised key in
    ends_with k (codes "_authtoken")
    || ends_with k (codes "_auth")
    || ends_with k (codes "_password")

-- The line that the loop of `redact_npmrc` pushes.
unfoldable pub redact_line : Bytes → Bytes
redact_line line = elim (split_once b'=' line) [
  | none ↦ line
  | some (key, value) ↦
      if not (is_npmrc_comment line) && is_npmrc_secret_key key
      then key ++ (b'=' ∷ placeholder)
      else line
]

-- The loops over `split('\n').enumerate()`: a line feed goes before every line but the first.
unfoldable pub push_lines : (Bytes → Bytes) → ℕ → List Bytes → Bytes
push_lines f i [] = []
push_lines f i (line ∷ lines) =
    (if ltb 0 i then b'\n' ∷ [] else []) ++ (f line ++ push_lines f (suc i) lines)

unfoldable pub redact_npmrc : Bytes → Result RedactError Bytes
unfolding push_lines redact_line
redact_npmrc original = do
  text ← ok_or (from_utf8 original) not_utf8
  ok (push_lines redact_line 0 (split b'\n' text))

-- One round of the loop that maps each secret key of the original to its value.
unfoldable pub add_secret : Assoc Bytes Bytes → Bytes → Assoc Bytes Bytes
add_secret secrets line = if is_npmrc_comment line then secrets else elim (split_once b'=' line) [
  | none ↦ secrets
  | some (key, value) ↦
      if is_npmrc_secret_key key then insert secrets (normalised key) value else secrets
]

unfoldable pub collect_secrets : Assoc Bytes Bytes → List Bytes → Assoc Bytes Bytes
unfolding add_secret
collect_secrets secrets [] = secrets
collect_secrets secrets (line ∷ lines) = collect_secrets (add_secret secrets line) lines

-- The line that the loop of `merge_npmrc` pushes.
unfoldable pub merge_line : Assoc Bytes Bytes → Bytes → Bytes
merge_line secrets line = if is_npmrc_comment line then line else elim (split_once b'=' line) [
  | none ↦ line
  | some (key, value) ↦
      if is_npmrc_secret_key key && value == placeholder
      then elim (lookup secrets (normalised key)) [
        | none ↦ line
        | some orig_value ↦ key ++ (b'=' ∷ orig_value)
      ]
      else line
]

unfoldable pub merge_npmrc : Bytes → Bytes → Result RedactError Bytes
unfolding collect_secrets merge_line push_lines
merge_npmrc original written = do
  orig ← ok_or (from_utf8 original) not_utf8
  writ ← ok_or (from_utf8 written) not_utf8
  let secrets = collect_secrets [] (split b'\n' orig)
  ok (push_lines (merge_line secrets) 0 (split b'\n' writ))
