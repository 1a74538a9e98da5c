-- ===== src/Mitm/Stack/Service.antt =====
-- src/mitm/stack.rs: the servicing of the connections keeps the handles right and does not panic.
use airgap.Prelude.{
  ℕ, suc, ◌≤◌, ◌≡◌, refl, ap, ◌∙◌, List, [], ◌∷◌, map, Option, none, some, arith, nat_beq_iff,
  if◌then◌else◌, ◌==◌, nat_eq,
}
use airgap.Prelude.Assoc.{Assoc}
use airgap.Prelude.Assoc
use airgap.Mitm.Channels.{Channels}
use airgap.Mitm.Smoltcp.{Smoltcp, SetLaws, Stored, tcp, udp, kind}
use airgap.Mitm.Stack.{NetConn, serve_conn}
use airgap.Mitm.Stack.Loop.{Stack, served, serve_found, serve_stored, serve_handles, service_conns}
use airgap.Mitm.Stack.Handles.{
  count, count-remove, count-insert, held-remove, held-put, Inv, Sound, not_dns, kind-remove,
  kind-put,
}

abbrev pub times : List ℕ → ℕ → ℕ
times [] k = 0
times (h ∷ hs) k = let rest = times hs k in if h == k then suc rest else rest

times-map {ℓ} : {V : Type ℓ} (m : Assoc ℕ V) (k : ℕ) → times (map (λ e. e.0) m) k ≡ count m k
times-map [] k = refl
times-map ((h, v) ∷ m) k = ground (arith, times-map m k)

module _ (c : Channels) (t : Smoltcp) where
  -- The handles in the middle of the loop: those still to serve are of connections.
  abbrev pub Serving : List ℕ → Stack c t → Type 0
  Serving hs s = ((k : ℕ) → times hs k ≤ count s.conns k) × Inv c t s

module _ (c : Channels) (t : Smoltcp) (open_channel : ℕ → c.Sender × c.Receiver)
    (laws : SetLaws t) where
  served-Serving :
      (hs : List ℕ) (s : Stack c t) (h : ℕ) (sock : t.Socket) (r : t.Socket × Option (NetConn c))
      → t.get s.sockets h ≡ some (tcp sock)
      → Serving c t (h ∷ hs) s
      → Serving c t hs (served c t open_channel s h r)
  unfolding served
  served-Serving hs s h sock (sock', none) q (part, (uses, dns)) = (
    λ k. ground (arith, part k, part h, uses h, count-remove s.conns h k, nat_beq_iff h k),
    (
      λ k. ground (
        arith,
        uses k,
        uses h,
        part h,
        held-remove t laws s.sockets h k,
        count-remove s.conns h k,
        nat_beq_iff h k,
        nat_beq_iff h h,
      ),
      kind-remove c t open_channel laws s.sockets h s.dns
            (not_dns c t open_channel laws s.sockets h s.dns sock q dns)
          ∙ dns,
    ),
  )
  served-Serving hs s h sock (sock', some conn) q (part, (uses, dns)) = (
    λ k. ground (arith, part k, part h, uses h, count-insert s.conns h k conn, nat_beq_iff h k),
    (
      λ k. ground (
        arith,
        uses k,
        uses h,
        part h,
        held-put t laws s.sockets h k sock',
        count-insert s.conns h k conn,
        nat_beq_iff h k,
        nat_beq_iff h h,
      ),
      kind-put c t open_channel laws s.sockets h s.dns sock'
            (not_dns c t open_channel laws s.sockets h s.dns sock q dns)
          ∙ dns,
    ),
  )

  serve_found-Serving :
      (hs : List ℕ) (s : Stack c t) (h : ℕ) (sock : t.Socket) (o : Option (NetConn c))
      → t.get s.sockets h ≡ some (tcp sock)
      → Serving c t (h ∷ hs) s
      → Serving c t hs (serve_found c t open_channel s h sock o)
  unfolding serve_found
  serve_found-Serving hs s h sock none q (part, inv) = (λ k. ground (arith, part k), inv)
  serve_found-Serving hs s h sock (some conn) q serving =
      served-Serving hs s h sock (serve_conn c t sock conn) q serving

  serve_stored-Sound :
      (hs : List ℕ) (rest : Stack c t → Option (Stack c t)) (s : Stack c t) (h : ℕ)
      (o : Option (Stored t.Socket t.Udp))
      → t.get s.sockets h ≡ o
      → Serving c t (h ∷ hs) s
      → ((s' : Stack c t) → Serving c t hs s' → Sound c t (rest s'))
      → Sound c t (serve_stored c t open_channel rest s h o)
  unfolding serve_stored
  serve_stored-Sound hs rest s h (some (tcp sock)) q serving ih =
      let o = Assoc.lookup s.conns h in
      ih (serve_found c t open_channel s h sock o) (serve_found-Serving hs s h sock o q serving)
  serve_stored-Sound hs rest s h (some (udp u)) q (part, (uses, dns)) ih =
      absurd (ground (arith, part h, uses h, ap kind q, nat_beq_iff h h))
  serve_stored-Sound hs rest s h none q (part, (uses, dns)) ih =
      absurd (ground (arith, part h, uses h, ap kind q, nat_beq_iff h h))

  serve_handles-Sound :
      (hs : List ℕ) (s : Stack c t)
      → Serving c t hs s
      → Sound c t (serve_handles c t open_channel hs s)
  unfolding serve_handles
  serve_handles-Sound [] s (part, inv) = inv
  serve_handles-Sound (h ∷ hs) s serving =
      serve_stored-Sound hs (λ s'. serve_handles c t open_channel hs s') s h (t.get s.sockets h)
        refl serving (λ s' serving'. serve_handles-Sound hs s' serving')

  pub service_conns-Sound :
      (s : Stack c t) → Inv c t s → Sound c t (service_conns c t open_channel s)
  unfolding service_conns
  service_conns-Sound s inv =
      serve_handles-Sound (map (λ e. e.0) s.conns) s (λ k. omega (arith, times-map s.conns k), inv)
