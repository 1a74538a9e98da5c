-- ===== src/Mitm/Tun.antt =====
-- src/mitm/tun.rs: the port that a new connection dials, and the reading of the packets.
pub mod Drain
pub mod Syn
use airgap.Prelude.{
  ℕ, ◌*◌, ◌/◌, ◌%◌, not, ◌&&◌, ◌||◌, List, [], ◌∷◌, ◌++◌, Option, none, some, if◌then◌else◌, ltb,
  nat_beq, Bytes, length, drop, contains, nat_eq,
}
use airgap.Mitm.Dns.{byte, u16_from_be_bytes}

abbrev pub ipproto_tcp : ℕ
ipproto_tcp = 6

-- `pkt.get(n..)`.
unfoldable pub tail_from : Bytes → ℕ → Option Bytes
tail_from pkt n = if ltb (length pkt) n then none else some (drop n pkt)

-- The TCP header and what follows it.
unfoldable pub tcp_of : Bytes → Option Bytes
unfolding tail_from byte
tcp_of [] = none
tcp_of (b ∷ pkt) =
    if nat_beq (b / 16) 4
    then (if ltb (length (b ∷ pkt)) 20 || not (nat_beq (byte (b ∷ pkt) 9) ipproto_tcp)
        then none
        else tail_from (b ∷ pkt) (b % 16 * 4))
    else if nat_beq (b / 16) 6
    then (if ltb (length (b ∷ pkt)) 40 || not (nat_beq (byte (b ∷ pkt) 6) ipproto_tcp)
        then none
        else tail_from (b ∷ pkt) 40)
    else none

unfoldable pub dest_port : Bytes → Option ℕ
unfolding byte u16_from_be_bytes
dest_port tcp =
    if ltb (length tcp) 20
    then none
    else if nat_beq (byte tcp 13 / 2 % 2) 1 && nat_beq (byte tcp 13 / 16 % 2) 0
    then some (u16_from_be_bytes (byte tcp 2) (byte tcp 3))
    else none

unfoldable pub syn_dest_port : Bytes → Option ℕ
unfolding tcp_of dest_port
syn_dest_port pkt = elim (tcp_of pkt) [ none ↦ none | some tcp ↦ dest_port tcp ]

-- What one read of the device gives.
pub data ReadResult : Type 0 where
  packet : Bytes → ReadResult
  no_more would_block interrupted failed : ReadResult

-- The device with the set that `drain` is given.
pub record Tun : Type 0 where
  pub inbox : List Bytes
  pub wanted : List ℕ

-- `wanted` is a set: a port stands in it once.
unfoldable pub want : Option ℕ → List ℕ → List ℕ
want none wanted = wanted
want (some port) wanted = if contains wanted port then wanted else wanted ++ (port ∷ [])

unfoldable pub take_packet : Tun → Bytes → Tun
unfolding want syn_dest_port
take_packet tun buf = record {
  inbox = tun.inbox ++ (buf ∷ []);
  wanted = want (syn_dest_port buf) tun.wanted;
}

-- `drain` over the results of its reads, which end with the last that it makes. An empty packet is
-- a read of no bytes.
unfoldable pub drain : Tun → List ReadResult → Tun
unfolding take_packet
drain tun [] = tun
drain tun (packet [] ∷ reads) = tun
drain tun (packet (b ∷ buf) ∷ reads) = drain (take_packet tun (b ∷ buf)) reads
drain tun (interrupted ∷ reads) = drain tun reads
drain tun (no_more ∷ reads) = tun
drain tun (would_block ∷ reads) = tun
drain tun (failed ∷ reads) = tun

-- `receive` of the device.
unfoldable pub receive : Tun → Option (Bytes × Tun)
receive tun = elim tun.inbox [ [] ↦ none | buf ∷ inbox ↦ some (buf, record tun { inbox = inbox }) ]
