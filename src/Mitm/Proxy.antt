-- ===== src/Mitm/Proxy.antt =====
-- src/mitm/proxy.rs: the head of the first request of a connection is found and rewritten by the rules.
pub mod Conn
pub mod Ends
pub mod Head
pub mod Forward
pub mod Lines
pub mod Fields
use airgap.Prelude.{
  ℕ, zero, suc, ◌+◌, ◌≡◌, refl, Bool, true, false, not, ◌&&◌, ◌||◌, List, [], ◌∷◌, ◌++◌, map,
  Option, none, some, if◌then◌else◌, ltb, nat_beq, Bytes, codes, Result, ok, err, ◌>>=◌, ok_or,
  ◌==◌, nat_eq, list_eq, contains, find, length, take, drop, ◌*◌, ◌≤◌,
}
use airgap.Std.Text.{starts_with, trim, to_ascii_lowercase, rsplit_once}
use airgap.Std.Utf8.{from_utf8}
use airgap.Mitm.Config.{Config, Rule, matching}

-- What the crate httparse reads of a head, complete or not.
pub record Request : Type 0 where
  pub method : Option Bytes
  pub path : Option Bytes
  pub headers : List (Bytes × Bytes)

pub data ProxyError : Type 0 where
  no_sni closed_early headers_too_large missing_method missing_path : ProxyError
  io_error : ProxyError

unfoldable pub find_headers_end : Bytes → Option ℕ
unfolding starts_with
find_headers_end [] = none
find_headers_end (c ∷ cs) =
    let rest = find_headers_end cs in
    if starts_with (c ∷ cs) (codes "\r\n\r\n")
    then some 4
    else elim rest [ none ↦ none | some p ↦ some (suc p) ]

-- The host that a request is for: lowercased, with its port stripped.
unfoldable pub host_value : Option (Bytes × Bytes) → Bytes
unfolding from_utf8 trim
host_value none = []
host_value (some (name, value)) = elim (from_utf8 value) [ none ↦ [] | some s ↦ trim s ]

unfoldable pub strip_port : Bytes → Option (Bytes × Bytes) → Bytes
strip_port host none = host
strip_port host (some (h, port)) = h

unfoldable pub request_host : Request → Bytes
unfolding host_value strip_port to_ascii_lowercase
request_host req =
    let host = host_value (find (λ h. to_ascii_lowercase h.0 == codes "host") req.headers) in
    to_ascii_lowercase (strip_port host (rsplit_once b':' host))

abbrev pub dropped_names : List Bytes
dropped_names = codes "connection" ∷ codes "keep-alive" ∷ []

-- A header as the loops append it.
unfoldable pub push_header : Bytes → Bytes × Bytes → Bytes
push_header out (name, value) = out ++ (name ++ (codes ": " ++ (value ++ codes "\r\n")))

-- The loop over the headers of the request.
unfoldable pub push_preserved : List Bytes → Bytes → List (Bytes × Bytes) → Bytes
unfolding push_header to_ascii_lowercase
push_preserved override_names out [] = out
push_preserved override_names out (h ∷ hs) =
    let lower = to_ascii_lowercase h.0 in
    let next =
      if h.0 == [] || (contains override_names lower || contains dropped_names lower)
      then out
      else push_header out h in
    push_preserved override_names next hs

-- The loop over the configured headers.
unfoldable pub push_overrides : Bytes → List (Bytes × Bytes) → Bytes
unfolding push_header
push_overrides out [] = out
push_overrides out (h ∷ hs) = push_overrides (push_header out h) hs

-- What a request whose host has a rule is made into.
unfoldable pub rebuild : Request → Rule → Result ProxyError Bytes
unfolding push_preserved push_overrides
rebuild req rule =
    let override_names = map (λ h. to_ascii_lowercase h.0) rule.headers in
    ok_or req.method missing_method >>= λ method. ok_or req.path missing_path >>= λ path.
    let start = method ++ (b' ' ∷ (path ++ codes " HTTP/1.1\r\n")) in
    let out = push_overrides (push_preserved override_names start req.headers) rule.headers in
    let out' =
      if contains override_names (codes "connection")
      then out
      else out ++ codes "Connection: close\r\n" in
    ok (out' ++ codes "\r\n")

-- `parse` is the parser of httparse, with room for 128 headers; it gives nothing where it fails.
module _ (parse : Bytes → Option Request) where
  unfoldable pub rewrite_matched : Bytes → Request → Option Rule → Result ProxyError Bytes
  unfolding rebuild
  rewrite_matched head req none = ok head
  rewrite_matched head req (some rule) = rebuild req rule

  unfoldable pub rewrite_parsed : Bytes → Config → Option Request → Result ProxyError Bytes
  unfolding rewrite_matched request_host
  rewrite_parsed head config none = ok head
  rewrite_parsed head config (some req) =
      rewrite_matched head req (matching config (request_host req))

  unfoldable pub rewrite_head : Bytes → Config → Result ProxyError Bytes
  unfolding rewrite_parsed
  rewrite_head head config = rewrite_parsed head config (parse head)

ends :
    (find_headers_end (codes "GET / HTTP/1.1\r\n\r\nbody") ≡ some 18)
    × (find_headers_end (codes "a\r\n\r") ≡ none)
unfolding find_headers_end
ends = (refl, refl)
