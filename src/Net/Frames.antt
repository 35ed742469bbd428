-- ===== src/Net/Frames.antt =====
-- Ethernet, ARP, ICMP and IP of kernel/src/net.rs: what an incoming frame makes the kernel send. A
-- function that can panic is `none` then.
use hep_os.Prelude.{
  Bool, List, Option, [], get_or, if◌then◌else◌, leb, length, ltb, none, not, replicate, set, some,
  ℕ, ◌%◌, ◌&&◌, ◌*◌, ◌++◌, ◌+◌, ◌==◌, ◌^◌, ◌∷◌,
}
use hep_os.HepFs.Bytes.{drop, slice, splice}
use hep_os.HepFs.Dir.{same_bytes}
use hep_os.Net.{be16, from_be16, ip_checksum, my_ip, ip_packet}

-- The frames handed to the network card, oldest first; `mac` is what my_mac returns, `has_nic` whether
-- there is a card, and PING_SEQ, PING_REPLY and NEXT_SRC_PORT are the statics of these names.
pub record NetState : Type 0 where
  pub mac : List ℕ
  pub has_nic : Bool
  pub sent : List (List ℕ)
  pub ping_seq : ℕ
  pub ping_reply : Option ℕ
  pub next_port : ℕ

unfoldable pub eth_frame : List ℕ → List ℕ → ℕ → List ℕ → List ℕ
eth_frame dst_mac src_mac etype payload = dst_mac ++ (src_mac ++ (be16 etype ++ payload))

unfoldable pub eth_send : List ℕ → ℕ → List ℕ → NetState → NetState
unfolding eth_frame
eth_send dst_mac etype payload s =
    if s.has_nic
    then record s { sent = s.sent ++ (eth_frame dst_mac s.mac etype payload ∷ []) }
    else s

abbrev pub broadcast : List ℕ
broadcast = replicate 6 0xFF

-- An ARP packet for Ethernet and IPv4, by its operation, its sender and its target.
unfoldable pub arp_packet : ℕ → List ℕ → List ℕ → List ℕ → List ℕ → List ℕ
arp_packet op sender_mac sender_ip target_mac target_ip =
    0 ∷ 1 ∷ 8 ∷ 0 ∷ 6 ∷ 4 ∷ 0 ∷ op ∷ (sender_mac ++ (sender_ip ++ (target_mac ++ target_ip)))

unfoldable pub arp_announce : NetState → NetState
unfolding eth_send arp_packet
arp_announce s = eth_send broadcast 0x0806 (arp_packet 1 s.mac my_ip broadcast my_ip) s

unfoldable pub arp_request : List ℕ → NetState → NetState
unfolding eth_send arp_packet
arp_request ip s = eth_send broadcast 0x0806 (arp_packet 1 s.mac my_ip (replicate 6 0) ip) s

unfoldable pub handle_arp : List ℕ → NetState → NetState
unfolding eth_send arp_packet slice
handle_arp bytes s =
    let op = from_be16 (get_or bytes 6 0) (get_or bytes 7 0) in
    if ltb (length bytes) 28
    then s
    else if op == 1 && same_bytes (slice 24 4 bytes) my_ip
    then eth_send (slice 8 6 bytes) 0x0806
        (arp_packet 2 s.mac my_ip (slice 8 6 bytes) (slice 14 4 bytes)) s
    else s

unfoldable pub ip_send : List ℕ → List ℕ → ℕ → List ℕ → NetState → NetState
unfolding eth_send ip_packet
ip_send dst_ip dst_mac proto payload = eth_send dst_mac 0x0800 (ip_packet dst_ip proto payload)

-- An ICMP message with its checksum put in.
unfoldable pub with_checksum : List ℕ → List ℕ
unfolding ip_checksum splice
with_checksum icmp = splice 2 (be16 (ip_checksum icmp)) icmp

-- "HepOS!  "
abbrev pub ping_text : List ℕ
ping_text = 72 ∷ 101 ∷ 112 ∷ 79 ∷ 83 ∷ 33 ∷ 32 ∷ 32 ∷ []

abbrev pub echo_request : ℕ → List ℕ
echo_request seq = 8 ∷ 0 ∷ 0 ∷ 0 ∷ 0 ∷ 1 ∷ be16 seq ++ ping_text

-- The sequence number sent, and the state.
unfoldable pub ping_send : List ℕ → List ℕ → NetState → ℕ × NetState
unfolding ip_send with_checksum
ping_send dst_ip dst_mac s =
    let seq = s.ping_seq in
    let s' = record s { ping_seq = (seq + 1) % 2 ^ 16 } in
    (seq, ip_send dst_ip dst_mac 1 (with_checksum (echo_request seq)) s')

-- The reply to an echo request: type 0, and the checksum anew. The source indexes bytes 2 and 3 of
-- the message, of which there may be fewer.
unfoldable pub echo_reply : List ℕ → Option (List ℕ)
unfolding with_checksum
echo_reply icmp =
    if ltb (length icmp) 4 then none else some (with_checksum (set (set (set icmp 0 0) 2 0) 3 0))

unfoldable pub handle_icmp : List ℕ → List ℕ → List ℕ → NetState → Option NetState
unfolding echo_reply ip_send
handle_icmp src_ip src_mac [] s = some s
handle_icmp src_ip src_mac (kind ∷ rest) s =
    let icmp = kind ∷ rest in
    if kind == 8
    then elim (echo_reply icmp) [ none ↦ none | some rep ↦ some (ip_send src_ip src_mac 1 rep s) ]
    else if kind == 0 && leb 8 (length icmp)
    then some (record s { ping_reply = some (from_be16 (get_or icmp 6 0) (get_or icmp 7 0)) })
    else some s

-- The length of the IP header, by its first byte.
abbrev pub header_len : List ℕ → ℕ
header_len packet = get_or packet 0 0 % 16 * 4

-- UDP is not dispatched (handle_udp does nothing).
unfoldable pub handle_ip : List ℕ → List ℕ → NetState → Option NetState
unfolding handle_icmp slice
handle_ip eth_src packet s =
    if ltb (length packet) 20
    then some s
    else if not (same_bytes (slice 16 4 packet) my_ip)
    then some s
    else if ltb (length packet) (header_len packet)
    then some s
    else if get_or packet 9 0 == 1
    then handle_icmp (slice 12 4 packet) eth_src (drop (header_len packet) packet) s
    else some s

unfoldable pub handle_frame : List ℕ → NetState → Option NetState
unfolding handle_arp slice
handle_frame frame s =
    let etype = from_be16 (get_or frame 12 0) (get_or frame 13 0) in
    if ltb (length frame) 14
    then some s
    else if etype == 0x0806
    then some (handle_arp (drop 14 frame) s)
    else if etype == 0x0800
    then handle_ip (slice 6 6 frame) (drop 14 frame) s
    else some s
