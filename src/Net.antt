-- ===== src/Net.antt =====
-- kernel/src/net.rs: the internet checksum, and the IP, UDP and TCP packets that the kernel builds
-- and parses.
mod Segments
mod Checksum
mod Frames
mod Tests
mod Answer
mod Stream
mod Process
mod Poll
mod Dns
mod Jobs
mod Echo
use hep_os.Prelude.{
  List, Option, [], get_or, if◌then◌else◌, length, ltb, none, some, suc, zero, ℕ, ◌%◌, ◌*◌, ◌++◌,
  ◌+◌, ◌-◌, ◌/◌, ◌==◌, ◌^◌, ◌∷◌,
}
use hep_os.HepFs.Bytes.{drop, splice}

-- to_be_bytes of a u16 and a u32, and from_be_bytes.
abbrev pub be16 : ℕ → List ℕ
be16 v = v / 256 % 256 ∷ v % 256 ∷ []

abbrev pub be32 : ℕ → List ℕ
be32 v = v / 2 ^ 24 % 256 ∷ v / 2 ^ 16 % 256 ∷ v / 256 % 256 ∷ v % 256 ∷ []

abbrev pub from_be16 : ℕ → ℕ → ℕ
from_be16 a b = a * 256 + b

abbrev pub from_be32 : ℕ → ℕ → ℕ → ℕ → ℕ
from_be32 a b c d = ((a * 256 + b) * 256 + c) * 256 + d

-- The loop over pairs of bytes, and the odd byte left; `sum` is a u32.
unfoldable pub sum_words : List ℕ → ℕ → ℕ
sum_words [] sum = sum
sum_words (a ∷ []) sum = (sum + a * 256) % 2 ^ 32
sum_words (a ∷ b ∷ rest) sum = sum_words rest ((sum + from_be16 a b) % 2 ^ 32)

-- while sum >> 16 != 0; two rounds are enough for a u32.
unfoldable pub fold_carry : ℕ → ℕ → ℕ
fold_carry zero sum = sum
fold_carry (suc k) sum =
    let rest = fold_carry k (sum % 2 ^ 16 + sum / 2 ^ 16) in if sum / 2 ^ 16 == 0 then sum else rest

unfoldable pub ip_checksum : List ℕ → ℕ
unfolding sum_words fold_carry
ip_checksum bytes = 2 ^ 16 - 1 - fold_carry 2 (sum_words bytes 0) % 2 ^ 16

abbrev pub my_ip : List ℕ
my_ip = 10 ∷ 0 ∷ 2 ∷ 15 ∷ []

-- The packet that `ip_send` hands to `eth_send`.
unfoldable pub ip_packet : List ℕ → ℕ → List ℕ → List ℕ
unfolding ip_checksum splice
ip_packet dst_ip proto payload =
    let total = 20 + length payload in
    let header =
      0x45 ∷ 0 ∷ be16 total ++ (0 ∷ 1 ∷ 0x40 ∷ 0 ∷ 64 ∷ proto ∷ 0 ∷ 0 ∷ my_ip ++ dst_ip) in
    splice 10 (be16 (ip_checksum header)) header ++ payload

-- For a payload below 65528 bytes; with more the source panics.
unfoldable pub udp_segment : ℕ → ℕ → List ℕ → List ℕ
udp_segment src_port dst_port payload =
    let len = (8 + length payload) % 2 ^ 16 in
    be16 src_port ++ (be16 dst_port ++ (be16 len ++ (0 ∷ 0 ∷ payload)))

unfoldable pub tcp_checksum : List ℕ → List ℕ → List ℕ → ℕ
unfolding ip_checksum
tcp_checksum src_ip dst_ip tcp_seg =
    ip_checksum (src_ip ++ (dst_ip ++ (0 ∷ 6 ∷ be16 (length tcp_seg % 2 ^ 16) ++ tcp_seg)))

-- The segment that `tcp_send_seg` hands to `ip_send`.
unfoldable pub tcp_segment : List ℕ → ℕ → ℕ → ℕ → ℕ → ℕ → List ℕ → List ℕ
unfolding tcp_checksum splice
tcp_segment dst_ip src_port dst_port seq ack flags payload =
    let seg =
      be16 src_port
      ++ (be16 dst_port
          ++ (be32 seq
              ++ (be32 ack ++ (0x50 ∷ flags ∷ be16 65535 ++ (0 ∷ 0 ∷ 0 ∷ 0 ∷ payload))))) in
    splice 16 (be16 (tcp_checksum my_ip dst_ip seg)) seg

unfoldable pub tcp_parse : List ℕ → Option (ℕ × ℕ × ℕ × ℕ × List ℕ)
tcp_parse bytes =
    let at : ℕ → ℕ = λ i. get_or bytes i 0 in
    let doff = at 12 / 16 * 4 in
    if ltb (length bytes) 20
    then none
    else if ltb (length bytes) doff
    then none
    else some (
      from_be16 (at 0) (at 1),
      from_be16 (at 2) (at 3),
      from_be32 (at 4) (at 5) (at 6) (at 7),
      at 13,
      drop doff bytes,
    )
