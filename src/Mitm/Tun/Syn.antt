-- ===== src/Mitm/Tun/Syn.antt =====
-- src/mitm/tun.rs, `syn_dest_port`: the packets that open a TCP connection, and their ports.
use airgap.Prelude.{
  ℕ, ◌+◌, ◌*◌, ◌/◌, ◌%◌, ◌≤◌, ◌≡◌, refl, sym, ◌∙◌, ◌⊎◌, ◌↔◌, inl, inr, [], ◌∷◌, some, arith, ltb,
  nat_beq, if◌then◌else◌, Bytes, length, drop, Bool-cases, Option-cases,
}
use airgap.Mitm.Dns.{byte, u16_from_be_bytes}
use airgap.Mitm.Tun.{tail_from, tcp_of, dest_port, syn_dest_port}

-- The header of the internet protocol, of either version, is there and says that TCP follows.
abbrev pub CarriesTcp : Bytes → Type 0
CarriesTcp pkt =
    ((byte pkt 0 / 16 ≡ 4) × (20 ≤ length pkt) × (byte pkt 9 ≡ 6))
    ⊎ ((byte pkt 0 / 16 ≡ 6) × (40 ≤ length pkt) × (byte pkt 6 ≡ 6))

abbrev pub header_len : Bytes → ℕ
header_len pkt = if nat_beq (byte pkt 0 / 16) 4 then byte pkt 0 % 16 * 4 else 40

-- A TCP header with SYN and without ACK, for the port.
abbrev pub OpensPort : Bytes → ℕ → Type 0
OpensPort tcp port =
    (20 ≤ length tcp)
    × (byte tcp 13 / 2 % 2 ≡ 1)
    × (byte tcp 13 / 16 % 2 ≡ 0)
    × (port ≡ byte tcp 2 * 256 + byte tcp 3)

dest_port_iff : (tcp : Bytes) (port : ℕ) → (dest_port tcp ≡ some port) ↔ OpensPort tcp port
unfolding dest_port u16_from_be_bytes
dest_port_iff tcp port = ground arith

tcp_of_iff :
    (pkt tcp : Bytes)
    → (tcp_of pkt ≡ some tcp)
      ↔ (CarriesTcp pkt × (header_len pkt ≤ length pkt) × (drop (header_len pkt) pkt ≡ tcp))
unfolding tcp_of tail_from byte
tcp_of_iff [] tcp = ground arith
tcp_of_iff (b ∷ pkt) tcp = elim (Bool-cases (nat_beq (b / 16) 4)) [
  | inl v ↦ elim (Bool-cases (ltb (length (b ∷ pkt)) 20)) [
    | inl l ↦ (λ h. ground arith, λ (c, n, d). ground arith)
    | inr l ↦ (λ h. ground arith, λ (c, n, d). ground arith)
  ]
  | inr v ↦ elim (Bool-cases (nat_beq (b / 16) 6)) [
    | inl u ↦ elim (Bool-cases (ltb (length (b ∷ pkt)) 40)) [
      | inl l ↦ (λ h. ground arith, λ (c, n, d). ground arith)
      | inr l ↦ (λ h. ground arith, λ (c, n, d). ground arith)
    ]
    | inr u ↦ (λ h. ground arith, λ (c, n, d). ground arith)
  ]
]

-- A packet gives a port exactly when it is of the internet protocol of version 4 or 6 with a
-- whole header, says that TCP follows, and has behind its header a whole TCP header with SYN and
-- without ACK; the port is the two bytes of the destination, the first the higher.
pub syn_dest_port_iff :
    (pkt : Bytes) (port : ℕ)
    → (syn_dest_port pkt ≡ some port) ↔ (
        CarriesTcp pkt × (header_len pkt ≤ length pkt) × OpensPort (drop (header_len pkt) pkt) port)
unfolding syn_dest_port
syn_dest_port_iff pkt port = elim (Option-cases (tcp_of pkt)) [
  | inl e ↦ (
    λ h. ground (arith, h, e),
    λ k. ground (arith, e, k, (tcp_of_iff pkt (drop (header_len pkt) pkt)).1),
  )
  | inr (tcp, e) ↦
      let (c, n, d) = (tcp_of_iff pkt tcp).0 e in
      let q : syn_dest_port pkt ≡ dest_port tcp = rw (syn_dest_port, e) refl in
      (
        λ h. (c, n, rw d ((dest_port_iff tcp port).0 (sym q ∙ h))),
        λ k. (q ∙ (dest_port_iff tcp port).1 (rw d at k.2)),
      )
]
