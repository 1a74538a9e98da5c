-- ===== src/Redact/Env/View.antt =====
-- src/redact.rs, `redact_env` and `merge_env`: what the view hides, and what is written back.
use airgap.Prelude.{
  ◌≡◌, refl, List, [], ◌∷◌, ◌++◌, Option, none, some, arith, Bytes, nat_eq, list_eq, Result, ok,
  ◌>>=◌, All, Pointwise,
}
use airgap.Prelude.Assoc.{Assoc, lookup}
use airgap.Redact.{RedactError, placeholder}
use airgap.Redact.Env.Values.{Written}
use airgap.Redact.Env.{Dotenvy, collect_pairs, parse_env, env_line, env_lines, redact_env}

-- Two items of the parser show the same key, or are both errors.
abbrev pub SameKey : Option (Bytes × Bytes) → Option (Bytes × Bytes) → Type 0
SameKey none none = Unit
SameKey (some (k, v)) (some (j, w)) = k ≡ j
SameKey _ _ = ⊥

view_of : List (Option (Bytes × Bytes)) → Result RedactError Bytes
view_of items = do pairs ← collect_pairs items; ok (env_lines pairs)

view_of-cons :
    (k v : Bytes) (items : List (Option (Bytes × Bytes)))
    → view_of (some (k, v) ∷ items) ≡ (do rest ← view_of items; ok (env_line k ++ rest))
unfolding view_of collect_pairs env_lines
view_of-cons k v items = ground arith

view_of-SameKey :
    (xs ys : List (Option (Bytes × Bytes))) → Pointwise SameKey xs ys → view_of xs ≡ view_of ys
view_of-SameKey [] [] h = refl
view_of-SameKey [] (y ∷ ys) h = absurd h
view_of-SameKey (x ∷ xs) [] h = absurd h
view_of-SameKey (none ∷ xs) (none ∷ ys) h = unfold view_of collect_pairs in refl
view_of-SameKey (none ∷ xs) (some p ∷ ys) h = absurd h.0
view_of-SameKey (some p ∷ xs) (none ∷ ys) h = absurd h.0
view_of-SameKey (some (k, v) ∷ xs) (some (j, w) ∷ ys) h =
    rw (view_of-cons k v xs, view_of-cons j w ys, view_of-SameKey xs ys h.1, h.0) refl

-- Noninterference: of two files in which the parser finds the same keys, in one order, and errors
-- at the same places, the view is the same, whatever the values.
pub redact_env_hides :
    (dotenvy : Dotenvy) (a b : Bytes)
    → Pointwise SameKey (dotenvy a) (dotenvy b)
    → redact_env dotenvy a ≡ redact_env dotenvy b
unfolding redact_env parse_env
redact_env_hides dotenvy a b h = unfold view_of in view_of-SameKey (dotenvy a) (dotenvy b) h

-- No key stands twice with different values.
abbrev pub AgreesWith : Bytes × Bytes → Bytes × Bytes → Type 0
AgreesWith p q = p.0 ≡ q.0 → p.1 ≡ q.1

abbrev pub KeysAgree : List (Bytes × Bytes) → Type 0
KeysAgree [] = Unit
KeysAgree (p ∷ ps) = All (AgreesWith p) ps × KeysAgree ps

abbrev Known : Assoc Bytes Bytes → Bytes × Bytes → Type 0
Known m p = lookup m p.0 ≡ some p.1

-- A file that holds the pairs, one line each.
abbrev pub EnvFile : List (Bytes × Bytes) → Bytes → Type 0
EnvFile [] out = out ≡ []
EnvFile ((k, v) ∷ ps) out =
    (text : Bytes) × (rest : Bytes) × Written v text
    × EnvFile ps rest
    × (out ≡ k ++ (b'=' ∷ (text ++ (b'\n' ∷ rest))))

abbrev pub marked : Bytes × Bytes → Option (Bytes × Bytes)
marked p = some (p.0, placeholder)

abbrev marked_pair : Bytes × Bytes → Bytes × Bytes
marked_pair p = (p.0, placeholder)
