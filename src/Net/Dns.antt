-- ===== src/Net/Dns.antt =====
-- Names and addresses in kernel/src/net.rs: dotted addresses, the DNS question and its answer.
use hep_os.Prelude.{
  Bool, List, Option, [], get_or, if◌then◌else◌, leb, length, ltb, none, not, reverse, some, suc,
  zero, ℕ, ◌%◌, ◌&&◌, ◌*◌, ◌++◌, ◌+◌, ◌-◌, ◌==◌, ◌||◌, ◌∷◌,
}
use hep_os.HepFs.Bytes.{slice}
use hep_os.Net.{be16, from_be16}

-- s.split(c); `part` is the part under way, reversed.
unfoldable pub split_on : ℕ → List ℕ → List ℕ → List (List ℕ)
split_on c part [] = reverse part ∷ []
split_on c part (b ∷ bs) =
    let next = split_on c [] bs in
    let longer = split_on c (b ∷ part) bs in if b == c then reverse part ∷ next else longer

abbrev is_digit : ℕ → Bool
is_digit b = leb b'0' b && leb b b'9'

-- The digits of a u8, from the value of those before.
unfoldable pub parse_digits : ℕ → List ℕ → Option ℕ
parse_digits value [] = some value
parse_digits value (b ∷ bs) =
    let value' = value * 10 + (b - b'0') in
    let rest = parse_digits value' bs in if is_digit b && leb value' 255 then rest else none

-- str::parse::<u8>: digits, with an optional plus sign before them.
unfoldable pub parse_u8 : List ℕ → Option ℕ
unfolding parse_digits
parse_u8 [] = none
parse_u8 (b ∷ []) = parse_digits 0 (b ∷ [])
parse_u8 (b ∷ (c ∷ cs)) =
    if b == b'+' then parse_digits 0 (c ∷ cs) else parse_digits 0 (b ∷ (c ∷ cs))

unfoldable pub parse_parts : List (List ℕ) → Option (List ℕ)
unfolding parse_u8
parse_parts (p ∷ (q ∷ (r ∷ (t ∷ [])))) = elim (parse_u8 p) [
  | none ↦ none
  | some a ↦ elim (parse_u8 q) [
    | none ↦ none
    | some b ↦ elim (parse_u8 r) [
      | none ↦ none
      | some c ↦ elim (parse_u8 t) [ none ↦ none | some d ↦ some (a ∷ b ∷ c ∷ d ∷ []) ]
    ]
  ]
]
parse_parts other = none

unfoldable pub parse_ip : List ℕ → Option (List ℕ)
unfolding split_on parse_parts
parse_ip s = parse_parts (split_on b'.' [] s)

-- The labels of a hostname, each behind its length; empty ones are left out.
unfoldable pub encode_labels : List (List ℕ) → List ℕ
encode_labels [] = []
encode_labels (l ∷ ls) =
    if length l == 0 then encode_labels ls else (length l % 256 ∷ l) ++ encode_labels ls

unfoldable pub dns_query : ℕ → List ℕ → List ℕ
unfolding split_on encode_labels
dns_query txid hostname =
    be16 txid
    ++ (1
        ∷ 0
        ∷ 0
        ∷ 1
        ∷ 0
        ∷ 0
        ∷ 0
        ∷ 0
        ∷ 0
        ∷ 0
        ∷ (encode_labels (split_on b'.' [] hostname) ++ (0 ∷ 0 ∷ 1 ∷ 0 ∷ 1 ∷ [])))

-- The loop over the question's name; each round goes at least one byte on, so as many rounds as bytes
-- are enough. `none` where the answer ends early.
unfoldable pub skip_question : ℕ → List ℕ → ℕ → Option ℕ
skip_question zero dns pos = none
skip_question (suc k) dns pos =
    let l = get_or dns pos 0 in
    let rest = skip_question k dns (pos + 1 + l) in
    if leb (length dns) pos
    then none
    else if l == 0
    then some (pos + 1)
    else if leb 0xC0 l
    then some (pos + 2)
    else rest

-- while pos < dns.len() && dns[pos] != 0
unfoldable pub skip_labels : ℕ → List ℕ → ℕ → ℕ
skip_labels zero dns pos = pos
skip_labels (suc k) dns pos =
    let l = get_or dns pos 0 in
    let rest = skip_labels k dns (pos + 1 + l) in
    if ltb pos (length dns) && not (l == 0) then rest else pos

-- Behind the name of an answer.
unfoldable pub skip_name : List ℕ → ℕ → ℕ
unfolding skip_labels
skip_name dns pos =
    if leb 0xC0 (get_or dns pos 0) then pos + 2 else skip_labels (length dns) dns pos + 1

-- for _ in 0..ancount
unfoldable pub find_address : ℕ → List ℕ → ℕ → Option (List ℕ)
unfolding skip_name slice
find_address zero dns pos = none
find_address (suc k) dns pos =
    let p = skip_name dns pos in
    let rtype = from_be16 (get_or dns p 0) (get_or dns (p + 1) 0) in
    let rdlen = from_be16 (get_or dns (p + 8) 0) (get_or dns (p + 9) 0) in
    let rest = find_address k dns (p + 10 + rdlen) in
    if ltb (length dns) (pos + 10) || ltb (length dns) (p + 10)
    then none
    else if rtype == 1 && rdlen == 4 && leb (p + 14) (length dns)
    then some (slice (p + 10) 4 dns)
    else rest

unfoldable pub parse_dns_answer : List ℕ → Option (List ℕ)
unfolding skip_question find_address
parse_dns_answer dns =
    let ancount = from_be16 (get_or dns 6 0) (get_or dns 7 0) in
    if ltb (length dns) 12 || ancount == 0 then none else elim (skip_question (length dns) dns 12) [
      | none ↦ none
      | some pos ↦ find_address ancount dns (pos + 4)
    ]
