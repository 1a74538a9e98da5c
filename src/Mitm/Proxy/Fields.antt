-- ===== src/Mitm/Proxy/Fields.antt =====
-- src/mitm/proxy.rs: the headers of a rewritten head.
use airgap.Prelude.{
  ◌≡◌, refl, ap, ◌∙◌, Bool, true, false, not, ◌||◌, List, [], ◌∷◌, ◌++◌, some, arith, if◌then◌else◌,
  Bytes, codes, ok, inl, inr, ◌⊎◌, ◌==◌, ==_cases, nat_eq, list_eq, contains, retain, append-nil,
  Bool-cases,
}
use airgap.Std.Text.{to_ascii_lowercase, lower_byte}
use airgap.Mitm.Config.{Rule}
use airgap.Mitm.Proxy.{Request, dropped_names, rebuild}
use airgap.Mitm.Proxy.Lines.{
  request_text, names_of, is_preserved, close_header, sent_headers, rebuild-text,
}

-- The values that a head has under a name, in their order.
abbrev pub values : Bytes → List (Bytes × Bytes) → List Bytes
values name [] = []
values name (h ∷ hs) =
    let rest = values name hs in if to_ascii_lowercase h.0 == name then h.1 ∷ rest else rest

-- What a rewritten head is to have under a name.
abbrev pub wanted : Request → Rule → Bytes → List Bytes
wanted req rule name =
    if contains (names_of rule.headers) name
    then values name rule.headers
    else if codes "connection" == name
    then codes "close" ∷ []
    else if codes "keep-alive" == name || name == []
    then []
    else values name req.headers

values-append :
    (name : Bytes) (hs ks : List (Bytes × Bytes))
    → values name (hs ++ ks) ≡ values name hs ++ values name ks
values-append name [] ks = refl
values-append name (h ∷ hs) ks = ground (arith, values-append name hs ks)

values-absent :
    (name : Bytes) (hs : List (Bytes × Bytes))
    → contains (names_of hs) name ≡ false
    → values name hs ≡ []
values-absent name [] h = refl
values-absent name (k ∷ hs) h = ground (arith, values-absent name hs)

values-retain :
    (name : Bytes) (keep : Bytes → Bool) (p : Bytes × Bytes → Bool)
    → ((h : Bytes × Bytes) → p h ≡ keep (to_ascii_lowercase h.0))
    → (hs : List (Bytes × Bytes))
    → values name (retain p hs) ≡ (if keep name then values name hs else [])
values-retain name keep p same [] = ground arith
values-retain name keep p same (h ∷ hs) =
    let ih = values-retain name keep p same hs in
    elim (==_cases (to_ascii_lowercase h.0) name) [
      | inl (t, q) ↦
          let decided : p h ≡ keep name = same h ∙ ap keep q in ground (arith, ih, t, decided)
      | inr (f, q) ↦ ground (arith, ih, f)
    ]

is_preserved-lower :
    (names : List Bytes) (h : Bytes × Bytes)
    → is_preserved names h
      ≡ not (
          to_ascii_lowercase h.0 == []
          || (contains names (to_ascii_lowercase h.0)
              || contains dropped_names (to_ascii_lowercase h.0)))
unfolding to_ascii_lowercase
is_preserved-lower names ([], v) = refl
is_preserved-lower names (c ∷ n, v) = refl

values-close :
    (name : Bytes) (own : Bool)
    → values name (close_header own)
      ≡ (if own then [] else if codes "connection" == name then codes "close" ∷ [] else [])
unfolding to_ascii_lowercase lower_byte
values-close name true = refl
values-close name false = refl

sent_headers-split :
    (req : Request) (rule : Rule) (name : Bytes)
    → values name (sent_headers req rule)
      ≡ (if not
            (name == [] || (contains (names_of rule.headers) name || contains dropped_names name))
          then values name req.headers
          else [])
        ++ (values name rule.headers
            ++ (if contains (names_of rule.headers) (codes "connection")
                then []
                else if codes "connection" == name
                then codes "close" ∷ []
                else []))
sent_headers-split req rule name =
    let names = names_of rule.headers in
    let own = contains names (codes "connection") in
    let kept = retain (is_preserved names) req.headers in
    values-append name kept (rule.headers ++ close_header own)
    ∙ (ap (◌++◌ (values name kept)) (values-append name rule.headers (close_header own))
        ∙ rw
            (
              values-retain name
                  (λ n. not (n == [] || (contains names n || contains dropped_names n)))
                  (is_preserved names) (is_preserved-lower names) req.headers,
              values-close name own,
            )
            refl)

-- The choice of the values, with the tests as Booleans: the name is empty, set by the rule,
-- `connection` or `keep-alive`, and the rule sets `connection`.
chosen :
    (e k c a o : Bool) (kept set close : List Bytes)
    → (c ≡ false) ⊎ (o ≡ k)
    → (k ≡ true) ⊎ (set ≡ [])
    → (if not (e || (k || (c || (a || false)))) then kept else [])
        ++ (set ++ (if o then [] else if c then close else []))
      ≡ (if k then set else if c then close else if a || e then [] else kept)
chosen e k c a o kept set close p q = ground (arith, append-nil set, append-nil kept)

sent_headers-values :
    (req : Request) (rule : Rule) (name : Bytes)
    → values name (sent_headers req rule) ≡ wanted req rule name
sent_headers-values req rule name =
    let names = names_of rule.headers in
    sent_headers-split req rule name
    ∙ chosen (name == []) (contains names name) (codes "connection" == name)
        (codes "keep-alive" == name) (contains names (codes "connection")) (values name req.headers)
        (values name rule.headers) (codes "close" ∷ [])
        (elim (==_cases (codes "connection") name) [
          | inl (t, q) ↦ inr (ap (contains names) q)
          | inr (f, q) ↦ inl f
        ])
        (elim (Bool-cases (contains names name)) [
          | inl set ↦ inl set
          | inr other ↦ inr (values-absent name rule.headers other)
        ])

-- A request with a method and a path, for a host with a rule, is sent as its start line, its headers
-- and a blank line. Under a name that the rule sets, the headers have the rule's values and no other;
-- under `connection` they have `close` alone; under `keep-alive` and the empty name nothing; under
-- every other name, compared without case, they have the request's values in their order.
pub rebuild-values :
    (req : Request) (rule : Rule) (method path name : Bytes)
    → req.method ≡ some method
    → req.path ≡ some path
    → (rebuild req rule ≡ ok (request_text method path (sent_headers req rule)))
      × (values name (sent_headers req rule) ≡ wanted req rule name)
rebuild-values req rule method path name m p =
    (rebuild-text req rule method path m p, sent_headers-values req rule name)
