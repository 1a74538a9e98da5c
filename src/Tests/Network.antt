-- ===== src/Tests/Network.antt =====
-- src/mitm/dns.rs and src/mitm/tun.rs: a query for one name, and a device with two packets.
use airgap.Mitm.Tun.{Tun, ReadResult, packet, interrupted, would_block, drain, syn_dest_port}
use airgap.Mitm.Tun.Syn.{CarriesTcp, header_len, OpensPort, syn_dest_port_iff}
use airgap.Mitm.Tun.Drain.{packets, Dialled, drain_lem}
use airgap.Prelude.{
  ◌≤◌, ◌↔◌, length, drop, List, All, ◌≡◌, refl, some, [], ◌∷◌, ◌++◌, Bytes, codes, replicate, arith,
}
use airgap.Mitm.Dns.{build_response}
use airgap.Mitm.Dns.Answers.{question, Answers, build_response-question}

abbrev asked : Bytes
asked = question (codes "a" ∷ codes "com" ∷ []) 0 28 0 1

build_response-question_example :
    (out : Bytes) × (build_response (18 ∷ 52 ∷ 1 ∷ 0 ∷ 0 ∷ 1 ∷ (replicate 6 0 ++ (asked ++ [])))
      ≡ some out)
    × Answers 18 52 1 asked 28 1 out
build_response-question_example =
    build_response-question 18 52 1 0 0 1 (replicate 6 0) (codes "a" ∷ codes "com" ∷ []) 0 28 0 1 []
      refl (omega arith) ((omega arith, omega arith), ((omega arith, omega arith), tt))

abbrev device : Tun
device = record { inbox = []; wanted = [] }

abbrev reads : List ReadResult
reads = packet (69 ∷ []) ∷ interrupted ∷ packet (1 ∷ []) ∷ would_block ∷ []

drain_lem_example :
    ((drain device reads).inbox ≡ [] ++ packets reads)
    × All (Dialled (drain device reads).wanted) (drain device reads).inbox
drain_lem_example = drain_lem device reads tt

-- A SYN to port 443, of version 4.
abbrev syn_packet : Bytes
syn_packet =
    69 ∷ replicate 8 0
    ++ (6 ∷ replicate 10 0 ++ (195 ∷ 80 ∷ 1 ∷ 187 ∷ replicate 9 0 ++ (2 ∷ replicate 6 0)))

syn_dest_port_iff_example : (syn_dest_port syn_packet ≡ some 443) ↔ (
    CarriesTcp syn_packet
    × (header_len syn_packet ≤ length syn_packet)
    × OpensPort (drop (header_len syn_packet) syn_packet) 443)
syn_dest_port_iff_example = syn_dest_port_iff syn_packet 443
