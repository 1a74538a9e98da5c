-- ===== src/Mitm/Tun/Drain.antt =====
-- src/mitm/tun.rs, `drain`: no packet is lost, and every port that is dialled gets known.
use airgap.Prelude.{
  ℕ, ◌≡◌, refl, sym, ◌∙◌, true, ◌||◌, List, [], ◌∷◌, ◌++◌, Option, none, some, arith, All,
  All-append, Bytes, contains, nat_eq, nat_beq_iff, append_assoc, append-nil,
}
use airgap.Mitm.Tun.{
  Tun, ReadResult, packet, no_more, would_block, interrupted, failed, syn_dest_port, want,
  take_packet, drain,
}

-- The packets that the reads give up to the first that ends the loop.
abbrev pub packets : List ReadResult → List Bytes
packets [] = []
packets (packet [] ∷ reads) = []
packets (packet (b ∷ buf) ∷ reads) = (b ∷ buf) ∷ packets reads
packets (interrupted ∷ reads) = packets reads
packets (no_more ∷ reads) = []
packets (would_block ∷ reads) = []
packets (failed ∷ reads) = []

-- Where a packet opens a connection, its port is in the set.
abbrev pub Dialled : List ℕ → Bytes → Type 0
Dialled wanted buf = (port : ℕ) → syn_dest_port buf ≡ some port → contains wanted port ≡ true

contains-append : (xs ys : List ℕ) (a : ℕ) → contains (xs ++ ys) a ≡ contains xs a || contains ys a
contains-append [] ys a = refl
contains-append (x ∷ xs) ys a = ground (arith, contains-append xs ys a)

want-keeps :
    (o : Option ℕ) (wanted : List ℕ) (a : ℕ)
    → contains wanted a ≡ true
    → contains (want o wanted) a ≡ true
unfolding want
want-keeps none wanted a h = h
want-keeps (some port) wanted a h = ground (arith, contains-append wanted (port ∷ []) a)

want-adds : (port : ℕ) (wanted : List ℕ) → contains (want (some port) wanted) port ≡ true
unfolding want
want-adds port wanted =
    ground (arith, contains-append wanted (port ∷ []) port, nat_beq_iff port port)

All-keeps :
    (o : Option ℕ) (wanted : List ℕ) (bufs : List Bytes)
    → All (Dialled wanted) bufs
    → All (Dialled (want o wanted)) bufs
All-keeps o wanted [] v = tt
All-keeps o wanted (b ∷ bufs) (v, vs) =
    (λ port e. want-keeps o wanted port (v port e), All-keeps o wanted bufs vs)

take_packet-Dialled :
    (tun : Tun) (buf : Bytes)
    → All (Dialled tun.wanted) tun.inbox
    → All (Dialled (take_packet tun buf).wanted) (take_packet tun buf).inbox
unfolding take_packet
take_packet-Dialled tun buf v =
    All-append (Dialled (want (syn_dest_port buf) tun.wanted)) tun.inbox (buf ∷ [])
      (All-keeps (syn_dest_port buf) tun.wanted tun.inbox v)
      (λ port e. rw e (want-adds port tun.wanted), tt)

drain-Dialled :
    (tun : Tun) (reads : List ReadResult)
    → All (Dialled tun.wanted) tun.inbox
    → All (Dialled (drain tun reads).wanted) (drain tun reads).inbox
unfolding drain
drain-Dialled tun [] v = v
drain-Dialled tun (packet [] ∷ reads) v = v
drain-Dialled tun (packet (b ∷ buf) ∷ reads) v =
    drain-Dialled (take_packet tun (b ∷ buf)) reads (take_packet-Dialled tun (b ∷ buf) v)
drain-Dialled tun (interrupted ∷ reads) v = drain-Dialled tun reads v
drain-Dialled tun (no_more ∷ reads) v = v
drain-Dialled tun (would_block ∷ reads) v = v
drain-Dialled tun (failed ∷ reads) v = v

drain-packets :
    (tun : Tun) (reads : List ReadResult) → (drain tun reads).inbox ≡ tun.inbox ++ packets reads
unfolding drain take_packet
drain-packets tun [] = sym (append-nil tun.inbox)
drain-packets tun (packet [] ∷ reads) = sym (append-nil tun.inbox)
drain-packets tun (packet (b ∷ buf) ∷ reads) =
    drain-packets (take_packet tun (b ∷ buf)) reads
    ∙ append_assoc tun.inbox ((b ∷ buf) ∷ []) (packets reads)
drain-packets tun (interrupted ∷ reads) = drain-packets tun reads
drain-packets tun (no_more ∷ reads) = sym (append-nil tun.inbox)
drain-packets tun (would_block ∷ reads) = sym (append-nil tun.inbox)
drain-packets tun (failed ∷ reads) = sym (append-nil tun.inbox)

-- From a device whose queued packets have their ports in the set, a drain queues every packet that
-- it reads, in order, behind those that are queued, and has the port of each packet of the queue
-- that opens a connection in the set.
pub drain_lem :
    (tun : Tun) (reads : List ReadResult)
    → All (Dialled tun.wanted) tun.inbox
    → ((drain tun reads).inbox ≡ tun.inbox ++ packets reads)
      × All (Dialled (drain tun reads).wanted) (drain tun reads).inbox
drain_lem tun reads v = (drain-packets tun reads, drain-Dialled tun reads v)
