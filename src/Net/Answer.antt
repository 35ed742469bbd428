-- ===== src/Net/Answer.antt =====
-- The answer of a name server to a question of kernel/src/net.rs.
use hep_os.Prelude.{
  List, [], ap, arith, false, get_or, leb, length, length-append, ltb, refl, some, suc, sym, true,
  zero, ℕ, ◌++◌, ◌+◌, ◌<◌, ◌==◌, ◌||◌, ◌∙◌, ◌∷◌, ◌≡◌, ◌≤◌,
}
use hep_os.Net.Echo.{get_or-drop}
use hep_os.Editor.Zip.{drop-middle}
use hep_os.HepFs.Bytes.{take, drop, slice}
use hep_os.HepFs.Slices.{drop-drop, append_assoc}
use hep_os.Net.{be16, from_be16}
use hep_os.Net.Dns.{
  split_on, encode_labels, skip_question, skip_name, find_address, parse_dns_answer,
}

get_or-front :
    (pre : List ℕ) (b : ℕ) (rest : List ℕ) → get_or (pre ++ (b ∷ rest)) (length pre) 0 ≡ b
get_or-front [] b rest = refl
get_or-front (x ∷ pre) b rest = get_or-front pre b rest

-- Labels that no length byte of which reads as a compressed name.
abbrev pub AreShort : List (List ℕ) → Type 0
AreShort [] = Unit
AreShort (l ∷ ls) = (length l < 0xC0) × AreShort ls

encode_labels-cons :
    (b : ℕ) (bs : List ℕ) (ls : List (List ℕ))
    → suc (length bs) < 0xC0
    → encode_labels ((b ∷ bs) ∷ ls) ≡ suc (length bs) ∷ ((b ∷ bs) ++ encode_labels ls)
unfolding encode_labels
encode_labels-cons b bs ls h = ground arith

-- A label is passed over.
skip_question-label :
    (k : ℕ) (dns : List ℕ) (pos l : ℕ)
    → get_or dns pos 0 ≡ l
    → pos < length dns
    → 0 < l
    → l < 0xC0
    → skip_question (suc k) dns pos ≡ skip_question k dns (pos + 1 + l)
unfolding skip_question
skip_question-label k dns pos l h lt some_left short =
    let a : leb (length dns) pos ≡ false = ground arith in
    let b : (l == 0) ≡ false = ground arith in
    let c : leb 0xC0 l ≡ false = ground arith in rw (a, h, b, c) refl

-- The name in front of the rest is passed over, with its 0.
skip_question-labels :
    (k : ℕ) (pre : List ℕ) (ls : List (List ℕ)) (rest : List ℕ)
    → AreShort ls
    → length (encode_labels ls) < k
    → skip_question k (pre ++ (encode_labels ls ++ (0 ∷ rest))) (length pre)
      ≡ some (length pre + length (encode_labels ls) + 1)
unfolding encode_labels skip_question
skip_question-labels zero pre ls rest short h = absurd (omega arith)
skip_question-labels (suc k) pre [] rest short h =
    ground (arith, get_or-front pre 0 rest, length-append pre (0 ∷ rest))
skip_question-labels (suc k) pre ([] ∷ ls) rest (s, short) h =
    skip_question-labels (suc k) pre ls rest short h
skip_question-labels (suc k) pre ((b ∷ bs) ∷ ls) rest (s, short) h =
    let n = suc (length bs) in
    let label = n ∷ (b ∷ bs) in
    let e = encode_labels-cons b bs ls s in
    let tail = encode_labels ls ++ (0 ∷ rest) in
    let dns = pre ++ (n ∷ ((b ∷ bs) ++ tail)) in
    let whole : pre ++ (encode_labels ((b ∷ bs) ∷ ls) ++ (0 ∷ rest)) ≡ dns =
      ap (λ t. pre ++ (t ++ (0 ∷ rest))) e
      ∙ ap (λ t. pre ++ (n ∷ t)) (append_assoc (b ∷ bs) (encode_labels ls) (0 ∷ rest)) in
    let size : length (encode_labels ((b ∷ bs) ∷ ls)) ≡ 1 + n + length (encode_labels ls) =
      ap length e ∙ omega (arith, length-append (b ∷ bs) (encode_labels ls)) in
    let split : dns ≡ (pre ++ label) ++ tail = sym (append_assoc pre label tail) in
    let next : length pre + 1 + n ≡ length (pre ++ label) =
      omega (arith, length-append pre label) in
    let go = skip_question-labels k (pre ++ label) ls rest short (omega (arith, h, size)) in
    ap (λ t. skip_question (suc k) t (length pre)) whole
    ∙ skip_question-label k dns (length pre) n (get_or-front pre n ((b ∷ bs) ++ tail))
        (omega (arith, length-append pre (n ∷ ((b ∷ bs) ++ tail)))) (omega arith) s
    ∙ (λ i. skip_question k (split i) (next i))
    ∙ go
    ∙ ap some (omega (arith, next, size))

-- The answer of a server: the header with one question and one answer, the question as it was asked,
-- and an A record whose name points to the question's.
abbrev pub dns_response : ℕ → List ℕ → List ℕ → List ℕ → List ℕ
dns_response txid hostname ttl ip =
    be16 txid
    ++ (0x81
        ∷ 0x80
        ∷ 0
        ∷ 1
        ∷ 0
        ∷ 1
        ∷ 0
        ∷ 0
        ∷ 0
        ∷ 0
        ∷ (encode_labels (split_on b'.' [] hostname)
            ++ (0 ∷ 0 ∷ 1 ∷ 0 ∷ 1 ∷ (0xC0 ∷ 0x0C ∷ 0 ∷ 1 ∷ 0 ∷ 1 ∷ (ttl ++ (0 ∷ 4 ∷ ip))))))

abbrev record_bytes : List ℕ → List ℕ → List ℕ
record_bytes ttl ip = 0xC0 ∷ 0x0C ∷ 0 ∷ 1 ∷ 0 ∷ 1 ∷ (ttl ++ (0 ∷ 4 ∷ ip))

get_or-back :
    (front back : List ℕ) (p i : ℕ)
    → p ≡ length front + i
    → get_or (front ++ back) p 0 ≡ get_or back i 0
get_or-back front back p i h =
    ap (λ k. get_or (front ++ back) k 0) h
    ∙ sym (get_or-drop (length front) i (front ++ back))
    ∙ ap (λ l. get_or l i 0) (drop-middle front back)

slice-back :
    (front back : List ℕ) (p i n : ℕ)
    → p ≡ length front + i
    → slice p n (front ++ back) ≡ slice i n back
unfolding slice
slice-back front back p i n h =
    ap (λ k. take n (drop k (front ++ back))) h
    ∙ ap (take n) (sym (drop-drop i (length front) (front ++ back)))
    ∙ ap (λ l. take n (drop i l)) (drop-middle front back)

find_address-record :
    (front : List ℕ) (t1 t2 t3 t4 a b c d : ℕ)
    → find_address 1
        (front ++ record_bytes (t1 ∷ t2 ∷ t3 ∷ t4 ∷ []) (a ∷ b ∷ c ∷ d ∷ []))
        (length front)
      ≡ some (a ∷ b ∷ c ∷ d ∷ [])
unfolding find_address skip_name
find_address-record front t1 t2 t3 t4 a b c d =
    let back = record_bytes (t1 ∷ t2 ∷ t3 ∷ t4 ∷ []) (a ∷ b ∷ c ∷ d ∷ []) in
    let n = length front in
    let dns = front ++ back in
    let size : length dns ≡ n + 16 = omega (arith, length-append front back) in
    let here = get_or-back front back n 0 (omega arith) in
    let name : leb 0xC0 (get_or dns n 0) ≡ true =
      rw here (let t : leb 0xC0 0xC0 ≡ true = refl in t) in
    let room : (ltb (length dns) (n + 10) || ltb (length dns) (n + 2 + 10)) ≡ false =
      ground (arith, size) in
    let fits : leb (n + 2 + 14) (length dns) ≡ true = ground (arith, size) in
    rw
      (
        name,
        room,
        get_or-back front back (n + 2) 2 refl,
        get_or-back front back (n + 2 + 1) 3 (omega arith),
        get_or-back front back (n + 2 + 8) 10 (omega arith),
        get_or-back front back (n + 2 + 9) 11 (omega arith),
        fits,
        slice-back front back (n + 2 + 10) 12 4 (omega arith),
      )
      refl

parse_dns_answer-one :
    (dns : List ℕ) (pos : ℕ)
    → 12 ≤ length dns
    → from_be16 (get_or dns 6 0) (get_or dns 7 0) ≡ 1
    → skip_question (length dns) dns 12 ≡ some pos
    → parse_dns_answer dns ≡ find_address 1 dns (pos + 4)
unfolding parse_dns_answer
parse_dns_answer-one dns pos h one found =
    let a : ltb (length dns) 12 ≡ false = ground arith in
    rw (a, one, found) (ap (λ n. find_address n dns (pos + 4)) one)

-- The answer of a server that gives one A record for the name that was asked gives the address in it,
-- where the labels of the name are shorter than 192 bytes.
pub parse_dns_answer-dns_response :
    (txid : ℕ) (hostname : List ℕ) (t1 t2 t3 t4 a b c d : ℕ)
    → AreShort (split_on b'.' [] hostname)
    → parse_dns_answer (dns_response txid hostname (t1 ∷ t2 ∷ t3 ∷ t4 ∷ []) (a ∷ b ∷ c ∷ d ∷ []))
      ≡ some (a ∷ b ∷ c ∷ d ∷ [])
parse_dns_answer-dns_response txid hostname t1 t2 t3 t4 a b c d short =
    let ip = a ∷ b ∷ c ∷ d ∷ [] in
    let back = record_bytes (t1 ∷ t2 ∷ t3 ∷ t4 ∷ []) ip in
    let labels = split_on b'.' [] hostname in
    let enc = encode_labels labels in
    let asked : List ℕ = 0 ∷ 0 ∷ 1 ∷ 0 ∷ 1 ∷ [] in
    let head : List ℕ = be16 txid ++ (0x81 ∷ 0x80 ∷ 0 ∷ 1 ∷ 0 ∷ 1 ∷ 0 ∷ 0 ∷ 0 ∷ 0 ∷ []) in
    let dns = head ++ (enc ++ (asked ++ back)) in
    let size = length-append enc (asked ++ back) in
    let found =
      skip_question-labels (length dns) head labels (0 ∷ 1 ∷ 0 ∷ 1 ∷ back) short
        (omega (arith, size)) in
    let whole : dns ≡ (head ++ (enc ++ asked)) ++ back =
      ap (λ t. head ++ t) (sym (append_assoc enc asked back))
      ∙ sym (append_assoc head (enc ++ asked) back) in
    let start : 12 + length enc + 1 + 4 ≡ length (head ++ (enc ++ asked)) =
      omega (arith, length-append enc asked) in
    parse_dns_answer-one dns (12 + length enc + 1) (omega arith) refl found
    ∙ (λ i. find_address 1 (whole i) (start i))
    ∙ find_address-record (head ++ (enc ++ asked)) t1 t2 t3 t4 a b c d
