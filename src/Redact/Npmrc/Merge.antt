-- ===== src/Redact/Npmrc/Merge.antt =====
-- src/redact.rs, `merge_npmrc`: what is written back, and that a view written back unchanged
-- changes nothing.
use airgap.Prelude.{
  ◌≡◌, refl, sym, inl, inr, true, false, List, [], ◌∷◌, ◌++◌, none, some, arith, if◌then◌else◌,
  Bytes, ok, All, Option-cases, map, nat_eq, list_eq, ◌==◌, list_beq_iff,
}
use airgap.Prelude.Assoc.{Assoc, lookup, insert, lookup-insert}
use airgap.Std.Utf8.{is_utf8, from_utf8}
use airgap.Std.Text.{split, split_once}
use airgap.Std.Text.Trim.{trim_start-cut}
use airgap.Std.Text.Pieces.{join-split, split_once-append, split_once-eq-some}
use airgap.Redact.{placeholder}
use airgap.Redact.Npmrc.Loops.{push_lines-join, split-push_lines}
use airgap.Redact.Npmrc.Lines.{
  Credential, IsPlain, Credential-cases, redact_line-Credential, redact_line-other,
  redact_line-LineOut,
}
use airgap.Redact.Npmrc.{
  is_npmrc_comment, is_npmrc_secret_key, normalised, redact_line, push_lines, redact_npmrc,
  add_secret, collect_secrets, merge_line, merge_npmrc,
}

-- Lines that give one credential, up to case and surrounding whitespace of its key, give it one value.
abbrev pub Agrees : Bytes → Bytes → Type 0
Agrees l m =
    (k j v w : Bytes) → Credential l k v → Credential m j w → normalised k ≡ normalised j → v ≡ w

-- No two lines of a file disagree on a credential.
abbrev pub Consistent : List Bytes → Type 0
Consistent [] = Unit
Consistent (l ∷ ls) = All (Agrees l) ls × Consistent ls

pub add_secret-Credential :
    (m : Assoc Bytes Bytes) (l : Bytes) {key value : Bytes}
    → Credential l key value
    → add_secret m l ≡ insert m (normalised key) value
unfolding add_secret
add_secret-Credential m l c = ground arith

pub add_secret-other : (m : Assoc Bytes Bytes) (l : Bytes) → IsPlain l → add_secret m l ≡ m
unfolding add_secret
add_secret-other m l h = elim (Option-cases (split_once b'=' l)) [
  | inl e ↦ ground arith
  | inr ((key, value), e) ↦
      let clash : is_npmrc_comment l ≡ false → is_npmrc_secret_key key ≡ true → ⊥ =
        λ c s. h (key, value, record { is_setting = c; cut = e; is_secret = s }) in
      ground arith
]

-- A value on which the lines to come agree stays in the map.
collect-keeps :
    (ls : List Bytes) (m : Assoc Bytes Bytes) (l k v : Bytes)
    → Credential l k v
    → All (Agrees l) ls
    → lookup m (normalised k) ≡ some v
    → lookup (collect_secrets m ls) (normalised k) ≡ some v
unfolding collect_secrets
collect-keeps [] m l k v c h e = e
collect-keeps (x ∷ ls) m l k v c h e = elim (Credential-cases x) [
  | inl (j, w, d) ↦ collect-keeps ls (add_secret m x) l k v c h.1 (
      rw (add_secret-Credential m x d, lookup-insert m (normalised j) (normalised k) w)
        (ground (arith, list_beq_iff (normalised j) (normalised k), h.0 k j v w c d)))
  | inr plain ↦ collect-keeps ls (add_secret m x) l k v c h.1 (rw (add_secret-other m x plain) e)
]

abbrev Found : Assoc Bytes Bytes → Bytes → Type 0
Found m l = (k v : Bytes) → Credential l k v → lookup m (normalised k) ≡ some v

collect-Found :
    (ls : List Bytes) (m : Assoc Bytes Bytes)
    → Consistent ls
    → All (Found (collect_secrets m ls)) ls
unfolding collect_secrets
collect-Found [] m h = tt
collect-Found (l ∷ ls) m h = (
  λ k v c. collect-keeps ls (add_secret m l) l k v c h.0 (
      rw (add_secret-Credential m l c, lookup-insert m (normalised k) (normalised k) v)
        (ground (arith, list_beq_iff (normalised k) (normalised k)))),
  collect-Found ls (add_secret m l) h.1,
)

-- A line that is a credential's, whatever the value.
Credential-revalue : (l k v w : Bytes) → Credential l k v → Credential (k ++ (b'=' ∷ w)) k w
unfolding is_npmrc_comment
Credential-revalue l k v w c =
    let (whole, lacks) = split_once-eq-some b'=' l c.cut in
    let setting : is_npmrc_comment (k ++ (b'=' ∷ v)) ≡ false = rw whole at c.is_setting in
    record {
      is_setting = ground (arith, setting, trim_start-cut b'#' k w v, trim_start-cut b';' k w v);
      cut = split_once-append b'=' k w lacks;
      is_secret = c.is_secret;
    }

-- What `merge_line` does with a line that was written: a credential that holds the placeholder
-- gets the value that the original has for it, if it has one; every other line is kept.
pub merge_line-other : (m : Assoc Bytes Bytes) (l : Bytes) → IsPlain l → merge_line m l ≡ l
unfolding merge_line
merge_line-other m l h = elim (Option-cases (split_once b'=' l)) [
  | inl e ↦ ground arith
  | inr ((key, value), e) ↦
      let clash : is_npmrc_comment l ≡ false → is_npmrc_secret_key key ≡ true → ⊥ =
        λ c s. h (key, value, record { is_setting = c; cut = e; is_secret = s }) in
      ground arith
]

pub merge_line-Credential :
    (m : Assoc Bytes Bytes) (l k v : Bytes)
    → Credential l k v
    → merge_line m l ≡ (
        if v == placeholder
        then elim (lookup m (normalised k)) [ none ↦ l | some w ↦ k ++ (b'=' ∷ w) ]
        else l)
unfolding merge_line
merge_line-Credential m l k v c = ground arith

merge_line-redact_line :
    (m : Assoc Bytes Bytes) (l : Bytes) → Found m l → merge_line m (redact_line l) ≡ l
merge_line-redact_line m l found = elim (Credential-cases l) [
  | inl (k, v, c) ↦
      let (whole, _) = split_once-eq-some b'=' l c.cut in
      rw
        (
          redact_line-Credential l c,
          merge_line-Credential m _ k placeholder (Credential-revalue l k v placeholder c),
          found k v c,
        )
        (sym whole)
  | inr plain ↦ rw (redact_line-other l plain) (merge_line-other m l plain)
]

map-merge-redact :
    (m : Assoc Bytes Bytes) (ls : List Bytes)
    → All (Found m) ls
    → map (merge_line m) (map redact_line ls) ≡ ls
map-merge-redact m [] h = refl
map-merge-redact m (l ∷ ls) h = cc (merge_line-redact_line m l h.0, map-merge-redact m ls h.1)

-- A view that is written back unchanged restores the file byte for byte, where no two lines
-- disagree on a credential.
pub merge_npmrc-redact_npmrc :
    (original : Bytes)
    → is_utf8 original ≡ true
    → Consistent (split b'\n' original)
    → (view : Bytes) × (redact_npmrc original ≡ ok view) × (merge_npmrc original view ≡ ok original)
unfolding redact_npmrc merge_npmrc from_utf8
merge_npmrc-redact_npmrc original v h =
    let view = push_lines redact_line 0 (split b'\n' original) in
    let m = collect_secrets [] (split b'\n' original) in
    let (cut, valid) = split-push_lines redact_line redact_line-LineOut original v in
    (
      view,
      rw v refl,
      rw
          (
            v,
            valid,
            cut,
            push_lines-join (merge_line m),
            map-merge-redact m (split b'\n' original) (collect-Found (split b'\n' original) [] h),
            join-split b'\n' original,
          )
          refl,
    )
