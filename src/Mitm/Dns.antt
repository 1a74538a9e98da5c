-- ===== src/Mitm/Dns.antt =====
-- src/mitm/dns.rs: the answer of the stub name server.
pub mod Answers
use airgap.Prelude.{
  ℕ, zero, suc, ◌+◌, ◌-◌, ◌*◌, ◌/◌, ◌%◌, Bool, true, false, not, List, [], ◌∷◌, ◌++◌, Option, none,
  some, if◌then◌else◌, ltb, nat_beq, Bytes, length, take, drop, get_elem?,
}
use airgap.Mitm.{stack_ip, stack_ip6}

abbrev pub class_in : ℕ
class_in = 1

abbrev pub type_a : ℕ
type_a = 1

abbrev pub type_aaaa : ℕ
type_aaaa = 28

-- `u16::from_be_bytes` and `to_be_bytes`.
unfoldable pub u16_from_be_bytes : ℕ → ℕ → ℕ
u16_from_be_bytes hi lo = hi * 256 + lo

unfoldable pub u16_to_be_bytes : ℕ → Bytes
u16_to_be_bytes n = (n / 256 % 256) ∷ (n % 256) ∷ []

-- An index that the check of the length has covered.
unfoldable pub byte : Bytes → ℕ → ℕ
byte query i = elim (get_elem? query i) [ none ↦ 0 | some b ↦ b ]

-- The walk over the name, with a bound on its rounds: the index behind the name.
unfoldable pub skip_name : ℕ → Bytes → ℕ → Option ℕ
skip_name zero query i = none
skip_name (suc rounds) query i = elim (get_elem? query i) [
  | none ↦ none
  | some len ↦
      let rest = skip_name rounds query (i + (1 + len)) in
      if nat_beq len 0 then some (i + 1) else if not (nat_beq (len / 64 % 4) 0) then none else rest
]

unfoldable pub u16_at : Bytes → ℕ → Option ℕ
unfolding u16_from_be_bytes
u16_at query i = elim (get_elem? query i) [
  | none ↦ none
  | some hi ↦ elim (get_elem? query (i + 1)) [
    | none ↦ none
    | some lo ↦ some (u16_from_be_bytes hi lo)
  ]
]

unfoldable pub rdata_of : ℕ → ℕ → Option Bytes
rdata_of qclass qtype =
    if nat_beq qclass class_in
    then if nat_beq qtype type_a
      then some stack_ip
      else if nat_beq qtype type_aaaa
      then some stack_ip6
      else none
    else none

unfoldable pub answer_count : Option Bytes → ℕ
answer_count none = 0
answer_count (some rdata) = 1

unfoldable pub answer : Option Bytes → ℕ → Bytes
unfolding u16_to_be_bytes
answer none qtype = []
answer (some rdata) qtype =
    (192 ∷ 12 ∷ [])
    ++ u16_to_be_bytes qtype
    ++ u16_to_be_bytes class_in
    ++ (0 ∷ 0 ∷ 0 ∷ 60 ∷ [])
    ++ u16_to_be_bytes (length rdata)
    ++ rdata

unfoldable pub response : Bytes → Bytes → ℕ → Option Bytes → Bytes
unfolding byte u16_to_be_bytes answer_count answer
response query question qtype rdata =
    take 2 query
    ++ ((128 + byte query 2 % 2) ∷ 128 ∷ [])
    ++ u16_to_be_bytes 1
    ++ u16_to_be_bytes (answer_count rdata)
    ++ u16_to_be_bytes 0
    ++ u16_to_be_bytes 0
    ++ question
    ++ answer rdata qtype

unfoldable pub build_response : Bytes → Option Bytes
unfolding skip_name u16_at byte u16_from_be_bytes rdata_of response
build_response query =
    if ltb (length query) 12
    then none
    else if nat_beq (u16_from_be_bytes (byte query 4) (byte query 5)) 0
    then none
    else elim (skip_name (length query) query 12) [
      | none ↦ none
      | some i ↦ elim (u16_at query i) [
        | none ↦ none
        | some qtype ↦ elim (u16_at query (i + 2)) [
          | none ↦ none
          | some qclass ↦
              some
                (response query (take (i + 4 - 12) (drop 12 query)) qtype (rdata_of qclass qtype))
        ]
      ]
    ]
