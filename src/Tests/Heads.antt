-- ===== src/Tests/Heads.antt =====
-- src/mitm/proxy.rs and src/mitm/cert.rs: a client that gives its request in two reads, and two names.
use airgap.Prelude.{
  ℕ, ◌+◌, ◌≤◌, ◌≡◌, refl, sym, ap, ◌∙◌, List, [], ◌∷◌, ◌++◌, Option, none, some, arith, Bytes,
  codes, Result, ok, err, length, take, length-take, append-nil,
}
use airgap.Prelude.Assoc.{lookup}
use airgap.Mitm.Cert.{
  Issuer, CertMinter, mint, minted, stored, resolved, resolve, resolve_all, resolve-resolve_all,
}
use airgap.Mitm.Config.{Rule, matching}
use airgap.Mitm.Proxy.{Request, ProxyError, rebuild}
use airgap.Mitm.Proxy.Conn.{Net, NetLaws, read_head, handle_conn}
use airgap.Mitm.Proxy.Head.{HeadOf, read_head-HeadOf}
use airgap.Mitm.Proxy.Forward.{Handled, handle_conn-Handled}
use airgap.Mitm.Proxy.Lines.{request_text, sent_headers}
use airgap.Mitm.Proxy.Fields.{values, wanted, rebuild-values}

-- A client is what it has given and the reads to come.
give_chunk : Bytes × List Bytes → ℕ → Result ProxyError Bytes × (Bytes × List Bytes)
give_chunk (given, []) n = (ok [], (given, []))
give_chunk (given, bs ∷ later) n = (ok (take n bs), (given ++ take n bs, later))

abbrev net : Net
net = record {
  Client = Bytes × List Bytes;
  Upstream = Bytes;
  server_name = λ s. some (codes "example.com");
  read = give_chunk;
  connect = λ name port. ok [];
  write_all = λ u bs. ok (u ++ bs);
  flush = λ u. ok u;
  given = λ s. s.0;
  received = λ u. u;
}

give_chunk-ok :
    (s : Bytes × List Bytes) (n : ℕ) (bs : Bytes)
    → (give_chunk s n).0 ≡ ok bs
    → ((give_chunk s n).1.0 ≡ s.0 ++ bs) × (length bs ≤ n)
unfolding give_chunk
give_chunk-ok (given, []) n bs e =
    let q : [] ≡ bs = cc e in
    (sym (append-nil given) ∙ ap (◌++◌ given) q, omega (arith, ap length q))
give_chunk-ok (given, b ∷ later) n bs e =
    let q : take n b ≡ bs = cc e in (ap (◌++◌ given) q, omega (arith, length-take n b, ap length q))

give_chunk-err :
    (s : Bytes × List Bytes) (n : ℕ) (e : ProxyError)
    → (give_chunk s n).0 ≡ err e
    → ((give_chunk s n).1.0 ≡ s.0) × (e ≡ ProxyError.io_error)
unfolding give_chunk
give_chunk-err (given, []) n e h = cc
give_chunk-err (given, b ∷ later) n e h = cc

net_laws : NetLaws net
net_laws = record {
  read_ok = give_chunk-ok;
  read_err = give_chunk-err;
  connect_ok = λ name port u e. cc e;
  write_ok = λ u v bs e. cc e;
  flush_ok = λ u v e. cc e;
}

abbrev client : Bytes × List Bytes
client = ([], codes "GET / HTTP/1.1\r\n" ∷ codes "Host: a\r\n\r\nbody" ∷ [])

abbrev request : Request
request = record {
  method = some (codes "GET");
  path = some (codes "/");
  headers =
      (codes "Host", codes "a")
      ∷ (codes "X-Key", codes "old")
      ∷ (codes "Connection", codes "keep-alive")
      ∷ [];
}

abbrev rule : Rule
rule = record { host = codes "a"; headers = (codes "x-key", codes "new") ∷ [] }

-- A parser that knows one request.
abbrev parse : Bytes → Option Request
parse head = some request

read_head-HeadOf_example : HeadOf net client (read_head net client)
read_head-HeadOf_example = read_head-HeadOf net net_laws client

handle_conn-Handled_example :
    Handled net parse
      (record { rules = rule ∷ [] })
      client
      (handle_conn net parse client 443 (record { rules = rule ∷ [] }))
handle_conn-Handled_example =
    handle_conn-Handled net net_laws parse client 443 (record { rules = rule ∷ [] })

no_rules : (host : Bytes) → matching (record { rules = [] }) host ≡ none
unfolding matching
no_rules host = refl

rebuild-values_example :
    (rebuild request rule ≡ ok (request_text (codes "GET") (codes "/") (sent_headers request rule)))
    × (values (codes "connection") (sent_headers request rule)
        ≡ wanted request rule (codes "connection"))
rebuild-values_example =
    rebuild-values request rule (codes "GET") (codes "/") (codes "connection") refl refl

-- An authority that numbers what it issues.
abbrev authority : Issuer
authority = record {
  Source = ℕ;
  CertifiedKey = ℕ;
  CertError = Unit {0};
  issue = λ n name. (ok n, n + 1);
}

abbrev minter : CertMinter authority
minter = record { cache = []; source = 7 }

first_issued : (resolve authority minter (some (codes "a"))).0 ≡ some 7
unfolding resolve mint minted stored resolved lookup
first_issued = refl

resolve-resolve_all_example :
    resolve authority
      (resolve_all authority
        (resolve authority minter (some (codes "a"))).1
        (some (codes "b") ∷ none ∷ []))
      (some (codes "a"))
    ≡ (
      some 7,
      resolve_all authority
          (resolve authority minter (some (codes "a"))).1
          (some (codes "b") ∷ none ∷ []),
    )
resolve-resolve_all_example =
    resolve-resolve_all authority minter (codes "a") 7 (some (codes "b") ∷ none ∷ []) first_issued
