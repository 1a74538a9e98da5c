-- ===== src/Redact/Env.antt =====
-- src/redact.rs: `redact_env` and `merge_env`. The parser is that of the crate dotenvy: it is a
-- parameter, the sequence of results that its iterator yields over a buffer.
pub mod View
pub mod Values
use mathlib.Core.List.{reverse}
use airgap.Prelude.{
  ◌≡◌, refl, Bool, true, false, ◌||◌, List, [], ◌∷◌, ◌++◌, Option, none, some, if◌then◌else◌,
  nat_beq, Bytes, codes, ◌==◌, nat_eq, list_eq, Result, ok, err, ◌>>=◌,
}
use airgap.Prelude.Assoc.{Assoc, lookup, insert}
use airgap.Std.Text.{white_len, replace_byte}
use airgap.Redact.{RedactError, parse_error, placeholder}

-- The items that `dotenvy::from_read_iter` yields over some bytes; `none` is an item that is an error.
abbrev pub Dotenvy : Type 0
Dotenvy = Bytes → List (Option (Bytes × Bytes))

-- The loop of `parse_env`, which stops at the first error.
unfoldable pub collect_pairs :
    List (Option (Bytes × Bytes)) → Result RedactError (List (Bytes × Bytes))
collect_pairs [] = ok []
collect_pairs (none ∷ items) = err parse_error
collect_pairs (some pair ∷ items) = do pairs ← collect_pairs items; ok (pair ∷ pairs)

unfoldable pub parse_env : Dotenvy → Bytes → Result RedactError (List (Bytes × Bytes))
unfolding collect_pairs
parse_env dotenvy bytes = collect_pairs (dotenvy bytes)

-- `v.contains(|c| c.is_whitespace() || matches!(c, '#' | '"' | '\''))`.
unfoldable pub needs_quotes : Bytes → Bool
needs_quotes [] = false
needs_quotes (c ∷ v) =
    (if nat_beq (white_len (c ∷ v)) 0 then false else true)
    || (nat_beq c b'#' || (nat_beq c 34 || nat_beq c 39))
    || needs_quotes v

unfoldable pub escaped : Bytes → Bytes
escaped v = replace_byte 34 (b'\\' ∷ 34 ∷ []) (replace_byte b'\\' (b'\\' ∷ b'\\' ∷ []) v)

unfoldable pub format_value : Bytes → Bytes
unfolding needs_quotes escaped
format_value v = if v == [] || needs_quotes v then 34 ∷ (escaped v ++ 34 ∷ []) else v

-- The body of the loop of `redact_env`, and the loop.
unfoldable pub env_line : Bytes → Bytes
env_line key = key ++ (codes "=\"" ++ (placeholder ++ codes "\"\n"))

unfoldable pub env_lines : List (Bytes × Bytes) → Bytes
unfolding env_line
env_lines [] = []
env_lines ((key, value) ∷ pairs) = env_line key ++ env_lines pairs

unfoldable pub redact_env : Dotenvy → Bytes → Result RedactError Bytes
unfolding parse_env env_lines
redact_env dotenvy original = do pairs ← parse_env dotenvy original; ok (env_lines pairs)

-- `collect()` into a map: of a key that stands twice the last value stays.
unfoldable pub collect_map : Assoc Bytes Bytes → List (Bytes × Bytes) → Assoc Bytes Bytes
collect_map m [] = m
collect_map m ((key, value) ∷ pairs) = collect_map (insert m key value) pairs

-- The value to write for a pair of the written buffer.
unfoldable pub resolved : Assoc Bytes Bytes → Bytes → Bytes → Bytes
resolved originals key value =
    if value == placeholder
    then elim (lookup originals key) [ none ↦ value | some secret ↦ secret ]
    else value

unfoldable pub merged_lines : Assoc Bytes Bytes → List (Bytes × Bytes) → Bytes
unfolding resolved format_value
merged_lines originals [] = []
merged_lines originals ((key, value) ∷ pairs) =
    key
    ++ (b'='
        ∷ (format_value (resolved originals key value) ++ (b'\n' ∷ merged_lines originals pairs)))

unfoldable pub merge_env : Dotenvy → Bytes → Bytes → Result RedactError Bytes
unfolding parse_env collect_map merged_lines
merge_env dotenvy original written = do
  original_pairs ← parse_env dotenvy original
  written_pairs ← parse_env dotenvy written
  ok (merged_lines (collect_map [] original_pairs) written_pairs)
