-- ===== src/Mitm/Proxy/Lines.antt =====
-- src/mitm/proxy.rs: a rewritten head as its lines.
use airgap.Prelude.{
  ◌≡◌, refl, sym, ap, ◌∙◌, Bool, true, false, not, ◌||◌, List, [], ◌∷◌, ◌++◌, map, some, arith,
  if◌then◌else◌, Bytes, codes, ok, inl, inr, ◌==◌, nat_eq, list_eq, contains, retain, append_assoc,
  append-nil, Bool-cases,
}
use airgap.Std.Text.{to_ascii_lowercase}
use airgap.Mitm.Config.{Rule}
use airgap.Mitm.Proxy.{Request, dropped_names, push_header, push_preserved, push_overrides, rebuild}

abbrev pub header_lines : List (Bytes × Bytes) → Bytes
header_lines [] = []
header_lines ((name, value) ∷ hs) =
    (name ++ (codes ": " ++ (value ++ codes "\r\n"))) ++ header_lines hs

abbrev pub request_text : Bytes → Bytes → List (Bytes × Bytes) → Bytes
request_text method path hs =
    (method ++ (b' ' ∷ (path ++ codes " HTTP/1.1\r\n"))) ++ (header_lines hs ++ codes "\r\n")

abbrev pub names_of : List (Bytes × Bytes) → List Bytes
names_of hs = map (λ h. to_ascii_lowercase h.0) hs

abbrev pub is_preserved : List Bytes → Bytes × Bytes → Bool
is_preserved override_names h = not (
    h.0 == []
    || (contains override_names (to_ascii_lowercase h.0)
        || contains dropped_names (to_ascii_lowercase h.0)))

abbrev pub close_header : Bool → List (Bytes × Bytes)
close_header true = []
close_header false = (codes "Connection", codes "close") ∷ []

-- The headers of the rewritten head, in their order.
abbrev pub sent_headers : Request → Rule → List (Bytes × Bytes)
sent_headers req rule =
    retain (is_preserved (names_of rule.headers)) req.headers
    ++ (rule.headers ++ close_header (contains (names_of rule.headers) (codes "connection")))

header_lines-append :
    (hs ks : List (Bytes × Bytes)) → header_lines (hs ++ ks) ≡ header_lines hs ++ header_lines ks
header_lines-append [] ks = refl
header_lines-append ((n, v) ∷ hs) ks =
    let line = n ++ (codes ": " ++ (v ++ codes "\r\n")) in
    ap (◌++◌ line) (header_lines-append hs ks)
    ∙ sym (append_assoc line (header_lines hs) (header_lines ks))

push_preserved-lines :
    (names : List Bytes) (out : Bytes) (hs : List (Bytes × Bytes))
    → push_preserved names out hs ≡ out ++ header_lines (retain (is_preserved names) hs)
unfolding push_preserved push_header
push_preserved-lines names out [] = sym (append-nil out)
push_preserved-lines names out (h ∷ hs) = elim (Bool-cases (is_preserved names h)) [
  | inl keep ↦
      let line = h.0 ++ (codes ": " ++ (h.1 ++ codes "\r\n")) in
      let kept : (h.0 == []
            || (contains names (to_ascii_lowercase h.0)
                || contains dropped_names (to_ascii_lowercase h.0)))
          ≡ false =
        ground arith in
      rw (keep, kept)
        (push_preserved-lines names (out ++ line) hs
          ∙ append_assoc out line (header_lines (retain (is_preserved names) hs)))
  | inr cut ↦
      let kept : (h.0 == []
            || (contains names (to_ascii_lowercase h.0)
                || contains dropped_names (to_ascii_lowercase h.0)))
          ≡ true =
        ground arith in
      rw (cut, kept) (push_preserved-lines names out hs)
]

push_overrides-lines :
    (out : Bytes) (hs : List (Bytes × Bytes)) → push_overrides out hs ≡ out ++ header_lines hs
unfolding push_overrides push_header
push_overrides-lines out [] = sym (append-nil out)
push_overrides-lines out (h ∷ hs) =
    let line = h.0 ++ (codes ": " ++ (h.1 ++ codes "\r\n")) in
    push_overrides-lines (out ++ line) hs ∙ append_assoc out line (header_lines hs)

closed-lines :
    (out : Bytes) (own : Bool)
    → (if own then out else out ++ codes "Connection: close\r\n")
      ≡ out ++ header_lines (close_header own)
closed-lines out true = sym (append-nil out)
closed-lines out false = refl

pub rebuild-text :
    (req : Request) (rule : Rule) (method path : Bytes)
    → req.method ≡ some method
    → req.path ≡ some path
    → rebuild req rule ≡ ok (request_text method path (sent_headers req rule))
unfolding rebuild
rebuild-text req rule method path m p =
    let start = method ++ (b' ' ∷ (path ++ codes " HTTP/1.1\r\n")) in
    let names = names_of rule.headers in
    let kept = retain (is_preserved names) req.headers in
    let own = contains names (codes "connection") in
    let ends = close_header own in
    let out = push_overrides (push_preserved names start req.headers) rule.headers in
    let lines : out ≡ start ++ (header_lines kept ++ header_lines rule.headers) =
      push_overrides-lines (push_preserved names start req.headers) rule.headers
      ∙ (ap (λ x. x ++ header_lines rule.headers) (push_preserved-lines names start req.headers)
          ∙ append_assoc start (header_lines kept) (header_lines rule.headers)) in
    let all_lines : header_lines (sent_headers req rule)
        ≡ header_lines kept ++ (header_lines rule.headers ++ header_lines ends) =
      header_lines-append kept (rule.headers ++ ends)
      ∙ ap (◌++◌ (header_lines kept)) (header_lines-append rule.headers ends) in
    let text : (if own then out else out ++ codes "Connection: close\r\n")
        ≡ start ++ header_lines (sent_headers req rule) =
      closed-lines out own
      ∙ (ap (λ x. x ++ header_lines ends) lines
          ∙ (append_assoc start (header_lines kept ++ header_lines rule.headers) (header_lines ends)
              ∙ ap (◌++◌ start) (
                  append_assoc (header_lines kept) (header_lines rule.headers) (header_lines ends)
                  ∙ sym all_lines))) in
    rw (m, p)
      (ap (λ x. ok (x ++ codes "\r\n")) text
        ∙ ap ok (append_assoc start (header_lines (sent_headers req rule)) (codes "\r\n")))
