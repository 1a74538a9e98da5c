-- ===== src/Mitm/Dns/Answers.antt =====
-- src/mitm/dns.rs: what is answered to a query that is well formed.
use airgap.Prelude.{
  ℕ, zero, suc, ◌+◌, ◌-◌, ◌*◌, ◌%◌, ◌≤◌, ◌<◌, ◌≡◌, ◌≢◌, ◌⊎◌, inl, inr, Bool-cases, refl, sym, ap,
  ◌∙◌, false, List, [], ◌∷◌, ◌++◌, Option, none, some, arith, All, Bytes, length, take, drop,
  get_elem?, nat_beq, ltb, length-append, append_assoc, drop-append_self, take-append_self,
}
use airgap.Mitm.Dns.{
  skip_name, u16_at, u16_from_be_bytes, byte, rdata_of, response, build_response, u16_to_be_bytes,
  answer_count, answer,
}

-- A label of a name: not empty, and short enough that its length is no compression pointer.
abbrev pub Label : Bytes → Type 0
Label l = (0 < length l) × (length l < 64)

abbrev pub encode_name : List Bytes → Bytes
encode_name [] = 0 ∷ []
encode_name (l ∷ ls) = length l ∷ (l ++ encode_name ls)

get_elem?-append : (pre rest : Bytes) (x : ℕ) → get_elem? (pre ++ (x ∷ rest)) (length pre) ≡ some x
get_elem?-append [] rest x = refl
get_elem?-append (p ∷ pre) rest x = get_elem?-append pre rest x

skip_name-encode_name :
    (rounds : ℕ) (pre : Bytes) (ls : List Bytes) (rest query : Bytes) (i : ℕ)
    → length ls < rounds
    → All Label ls
    → query ≡ pre ++ (encode_name ls ++ rest)
    → i ≡ length pre
    → skip_name rounds query i ≡ some (i + length (encode_name ls))
unfolding skip_name
skip_name-encode_name zero pre ls rest query i h v e o = absurd (omega arith)
skip_name-encode_name (suc rounds) pre [] rest query i h v e o =
    let here : get_elem? query i ≡ some 0 = rw (e, o) (get_elem?-append pre rest 0) in
    ground (arith, here)
skip_name-encode_name (suc rounds) pre (l ∷ ls) rest query i h (good, v) e o =
    let here : get_elem? query i ≡ some (length l) =
      rw (e, o) (get_elem?-append pre ((l ++ encode_name ls) ++ rest) (length l)) in
    let split_off : query ≡ (pre ++ (length l ∷ l)) ++ (encode_name ls ++ rest) =
      e
      ∙ (ap (λ t. pre ++ (length l ∷ t)) (append_assoc l (encode_name ls) rest)
          ∙ sym (append_assoc pre (length l ∷ l) (encode_name ls ++ rest))) in
    let next : skip_name rounds query (i + (1 + length l))
        ≡ some (i + (1 + length l) + length (encode_name ls)) =
      skip_name-encode_name rounds (pre ++ (length l ∷ l)) ls rest query (i + (1 + length l))
        (omega arith) v split_off (omega (arith, length-append pre (length l ∷ l))) in
    ground (arith, here, next, length-append l (encode_name ls))

-- The question that asks for a name, a type and a class.
abbrev pub question : List Bytes → ℕ → ℕ → ℕ → ℕ → Bytes
question ls t1 t0 c1 c0 = encode_name ls ++ (t1 ∷ t0 ∷ c1 ∷ c0 ∷ [])

length-encode_name : (ls : List Bytes) → length ls < length (encode_name ls)
length-encode_name [] = omega arith
length-encode_name (l ∷ ls) = omega (arith, length-encode_name ls, length-append l (encode_name ls))

u16_at-append :
    (query pre rest : Bytes) (x y i : ℕ)
    → query ≡ pre ++ (x ∷ y ∷ rest)
    → i ≡ length pre
    → u16_at query i ≡ some (u16_from_be_bytes x y)
unfolding u16_at
u16_at-append query pre rest x y i e o =
    let first : get_elem? query i ≡ some x = rw (e, o) (get_elem?-append pre (y ∷ rest) x) in
    let second : get_elem? query (i + 1) ≡ some y =
      let off : i + 1 ≡ length (pre ++ (x ∷ [])) = omega (arith, length-append pre (x ∷ [])) in
      let cut : query ≡ (pre ++ (x ∷ [])) ++ (y ∷ rest) =
        e ∙ sym (append_assoc pre (x ∷ []) (y ∷ rest)) in
      rw (cut, off) (get_elem?-append (pre ++ (x ∷ [])) rest y) in
    ground (arith, first, second)

get_elem?-header : (h xs : Bytes) (i : ℕ) → i < length h → get_elem? (h ++ xs) i ≡ get_elem? h i
get_elem?-header [] xs i lt = absurd (omega arith)
get_elem?-header (x ∷ h) xs zero lt = refl
get_elem?-header (x ∷ h) xs (suc i) lt = get_elem?-header h xs i (omega arith)

byte-header : (h xs : Bytes) (i : ℕ) → i < length h → byte (h ++ xs) i ≡ byte h i
unfolding byte
byte-header h xs i lt = ap (λ o. elim o [ none ↦ 0 | some b ↦ b ]) (get_elem?-header h xs i lt)

take-header : (h xs : Bytes) (n : ℕ) → n ≤ length h → take n (h ++ xs) ≡ take n h
take-header h xs zero le = refl
take-header [] xs (suc n) le = absurd (omega arith)
take-header (x ∷ h) xs (suc n) le = ap (◌∷◌ x) (take-header h xs n (omega arith))

response-header :
    (h xs q : Bytes) (qtype : ℕ) (rdata : Option Bytes)
    → length h ≡ 12
    → response (h ++ xs) q qtype rdata ≡ response h q qtype rdata
unfolding response
response-header h xs q qtype rdata e =
    rw (take-header h xs 2 (omega arith), byte-header h xs 2 (omega arith)) refl

build_response-parts :
    (query : Bytes) (i qtype qclass : ℕ)
    → ltb (length query) 12 ≡ false
    → nat_beq (u16_from_be_bytes (byte query 4) (byte query 5)) 0 ≡ false
    → skip_name (length query) query 12 ≡ some i
    → u16_at query i ≡ some qtype
    → u16_at query (i + 2) ≡ some qclass
    → build_response query
      ≡ some (response query (take (i + 4 - 12) (drop 12 query)) qtype (rdata_of qclass qtype))
unfolding build_response
build_response-parts query i qtype qclass long asks skipped t c =
    rw (long, asks, skipped, t, c) refl

-- What is answered to a query that is well formed.
build_response-response :
    (header : Bytes) (ls : List Bytes) (t1 t0 c1 c0 : ℕ) (rest : Bytes)
    → length header ≡ 12
    → nat_beq (u16_from_be_bytes (byte header 4) (byte header 5)) 0 ≡ false
    → All Label ls
    → build_response (header ++ (question ls t1 t0 c1 c0 ++ rest))
      ≡ some (
          response header
            (question ls t1 t0 c1 c0)
            (u16_from_be_bytes t1 t0)
            (rdata_of (u16_from_be_bytes c1 c0) (u16_from_be_bytes t1 t0)))
build_response-response header ls t1 t0 c1 c0 rest h q v =
    let name = encode_name ls in
    let asked = question ls t1 t0 c1 c0 in
    let query = header ++ (asked ++ rest) in
    let at_name : query ≡ header ++ (name ++ (t1 ∷ t0 ∷ c1 ∷ c0 ∷ rest)) =
      ap (◌++◌ header) (append_assoc name (t1 ∷ t0 ∷ c1 ∷ c0 ∷ []) rest) in
    let at_type : query ≡ (header ++ name) ++ (t1 ∷ t0 ∷ c1 ∷ c0 ∷ rest) =
      at_name ∙ sym (append_assoc header name (t1 ∷ t0 ∷ c1 ∷ c0 ∷ rest)) in
    let at_class : query ≡ ((header ++ name) ++ (t1 ∷ t0 ∷ [])) ++ (c1 ∷ c0 ∷ rest) =
      at_type ∙ sym (append_assoc (header ++ name) (t1 ∷ t0 ∷ []) (c1 ∷ c0 ∷ rest)) in
    let long : length query ≡ 12 + (length name + 4 + length rest) = omega (
      arith,
      length-append header (asked ++ rest),
      length-append asked rest,
      length-append name (t1 ∷ t0 ∷ c1 ∷ c0 ∷ []),
    ) in
    let skipped : skip_name (length query) query 12 ≡ some (12 + length name) =
      skip_name-encode_name (length query) header ls (t1 ∷ t0 ∷ c1 ∷ c0 ∷ rest) query 12
        (omega (arith, length-encode_name ls)) v at_name (sym h) in
    let qtype =
      u16_at-append query (header ++ name) (c1 ∷ c0 ∷ rest) t1 t0 (12 + length name) at_type
        (omega (arith, length-append header name)) in
    let qclass =
      u16_at-append query ((header ++ name) ++ (t1 ∷ t0 ∷ [])) rest c1 c0 (12 + length name + 2)
        at_class
        (omega (arith, length-append header name, length-append (header ++ name) (t1 ∷ t0 ∷ []))) in
    let repeated : take (12 + length name + 4 - 12) (drop 12 query) ≡ asked =
      let count : 12 + length name + 4 - 12 ≡ length asked =
        omega (arith, length-append name (t1 ∷ t0 ∷ c1 ∷ c0 ∷ [])) in
      let behind : drop 12 query ≡ asked ++ rest =
        ap (λ k. drop k query) (sym h) ∙ drop-append_self header (asked ++ rest) in
      rw (count, behind) (take-append_self asked rest) in
    let asks : nat_beq (u16_from_be_bytes (byte query 4) (byte query 5)) 0 ≡ false =
      rw
        (
          byte-header header (asked ++ rest) 4 (omega arith),
          byte-header header (asked ++ rest) 5 (omega arith),
        )
        q in
    let t = u16_from_be_bytes t1 t0 in
    let rdata = rdata_of (u16_from_be_bytes c1 c0) t in
    build_response-parts query (12 + length name) t (u16_from_be_bytes c1 c0) (ground (arith, long))
      asks skipped qtype qclass
    ∙ ap some (
        ap (λ a. response query a t rdata) repeated
        ∙ response-header header (asked ++ rest) asked t rdata h)

-- An answer: the query's identifier, its bit "recursion desired" with the bits of an answer, the
-- counts, the question, and the records.
abbrev pub reply : ℕ → ℕ → ℕ → ℕ → Bytes → Bytes → Bytes
reply h0 h1 h2 count asked records =
    h0 ∷ h1 ∷ (128 + h2 % 2) ∷ 128 ∷ 0 ∷ 1 ∷ 0 ∷ count ∷ 0 ∷ 0 ∷ 0 ∷ 0 ∷ (asked ++ records)

-- The record of the address 10.0.0.1, for a minute, for the name behind the header.
abbrev pub a_record : Bytes
a_record = 192 ∷ 12 ∷ 0 ∷ 1 ∷ 0 ∷ 1 ∷ 0 ∷ 0 ∷ 0 ∷ 60 ∷ 0 ∷ 4 ∷ 10 ∷ 0 ∷ 0 ∷ 1 ∷ []

-- The same of the address fd00::1.
abbrev pub aaaa_record : Bytes
aaaa_record =
    192 ∷ 12 ∷ 0 ∷ 28 ∷ 0 ∷ 1 ∷ 0 ∷ 0 ∷ 0 ∷ 60 ∷ 0 ∷ 16 ∷ 253 ∷ 0 ∷ 0 ∷ 0 ∷ 0 ∷ 0 ∷ 0 ∷ 0 ∷ 0 ∷ 0
    ∷ 0 ∷ 0 ∷ 0 ∷ 0 ∷ 0 ∷ 1 ∷ []

-- What is answered to a question for a type and a class: a record of an address for the two types of
-- address in class 1, which is IN, and none for any other.
abbrev pub Answers : ℕ → ℕ → ℕ → Bytes → ℕ → ℕ → Bytes → Type 0
Answers h0 h1 h2 asked t c out =
    ((c ≡ 1) × (t ≡ 1) × (out ≡ reply h0 h1 h2 1 asked a_record))
    ⊎ (((c ≡ 1) × (t ≡ 28) × (out ≡ reply h0 h1 h2 1 asked aaaa_record))
        ⊎ (((c ≢ 1) ⊎ ((t ≢ 1) × (t ≢ 28))) × (out ≡ reply h0 h1 h2 0 asked [])))

unanswered :
    (h0 h1 h2 : ℕ) (tail asked : Bytes) (t c : ℕ)
    → rdata_of c t ≡ none
    → response (h0 ∷ h1 ∷ h2 ∷ tail) asked t (rdata_of c t) ≡ reply h0 h1 h2 0 asked []
unfolding response byte u16_to_be_bytes answer_count answer
unanswered h0 h1 h2 tail asked t c e = rw e refl

response-Answers :
    (h0 h1 h2 : ℕ) (tail asked : Bytes) (t c : ℕ)
    → Answers h0 h1 h2 asked t c (response (h0 ∷ h1 ∷ h2 ∷ tail) asked t (rdata_of c t))
unfolding response byte u16_to_be_bytes answer_count answer rdata_of
response-Answers h0 h1 h2 tail asked t c = elim (Bool-cases (nat_beq c 1)) [
  | inr n ↦ inr (
      inr (inl (λ e. ground (arith, e, n)), unanswered h0 h1 h2 tail asked t c (ground (arith, n))))
  | inl y ↦ elim (Bool-cases (nat_beq t 1)) [
    | inl a ↦
        let class : c ≡ 1 = ground arith in
        let kind : t ≡ 1 = ground arith in inl (class, kind, rw (class, kind) refl)
    | inr b ↦ elim (Bool-cases (nat_beq t 28)) [
      | inl a ↦
          let class : c ≡ 1 = ground arith in
          let kind : t ≡ 28 = ground arith in inr (inl (class, kind, rw (class, kind) refl))
      | inr d ↦ inr (
          inr (
            inr (λ e. ground (arith, e, b), λ e. ground (arith, e, d)),
            unanswered h0 h1 h2 tail asked t c (ground (arith, y, b, d)),
          ))
    ]
  ]
]

-- A query whose header is of twelve bytes and asks for one name at least, and whose first question
-- has a name of labels, is answered, with that question behind the header of the answer. Where the
-- question is of class IN and asks for an address of version 4 or 6, the answer has one record, which
-- gives 10.0.0.1 or fd00::1; otherwise it has none.
pub build_response-question :
    (h0 h1 h2 h3 h4 h5 : ℕ) (tail : Bytes) (ls : List Bytes) (t1 t0 c1 c0 : ℕ) (rest : Bytes)
    → length tail ≡ 6
    → 0 < h4 * 256 + h5
    → All Label ls
    → (out : Bytes) × (build_response
          (h0 ∷ h1 ∷ h2 ∷ h3 ∷ h4 ∷ h5 ∷ (tail ++ (question ls t1 t0 c1 c0 ++ rest)))
        ≡ some out)
      × Answers h0 h1 h2 (question ls t1 t0 c1 c0) (t1 * 256 + t0) (c1 * 256 + c0) out
build_response-question h0 h1 h2 h3 h4 h5 tail ls t1 t0 c1 c0 rest l q v =
    let header = h0 ∷ h1 ∷ h2 ∷ h3 ∷ h4 ∷ h5 ∷ tail in
    let asked = question ls t1 t0 c1 c0 in
    let t = t1 * 256 + t0 in
    let c = c1 * 256 + c0 in
    (
      response header asked t (rdata_of c t),
      unfold u16_from_be_bytes in
          build_response-response header ls t1 t0 c1 c0 rest (omega (arith, l))
            (unfold byte in ground (arith, q)) v,
      response-Answers h0 h1 h2 (h3 ∷ h4 ∷ h5 ∷ tail) asked t c,
    )
