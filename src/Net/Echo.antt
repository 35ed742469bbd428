-- ===== src/Net/Echo.antt =====
-- Which frames make the kernel panic, and the answer to a ping (kernel/src/net.rs).
use hep_os.Prelude.{
  Bool, List, Option, [], ap, arith, false, get_or, leb, length, ltb, none, refl, set, some, suc,
  true, zero, ℕ, ◌%◌, ◌&&◌, ◌*◌, ◌+◌, ◌/◌, ◌<◌, ◌==◌, ◌^◌, ◌∙◌, ◌∷◌, ◌≡◌,
}
use hep_os.HepFs.Bytes.{take, drop, slice, splice}
use hep_os.HepFs.Slices.{length-drop, drop-drop}
use hep_os.HepFs.Dir.{same_bytes}
use hep_os.Net.{from_be16, my_ip}
use hep_os.Net.Frames.{
  NetState, ip_send, with_checksum, echo_request, echo_reply, handle_icmp, header_len, handle_ip,
  handle_frame,
}

abbrev pub is_panic : {A : Type 0} → Option A → Bool
is_panic none = true
is_panic (some a) = false

pub get_or-drop : (n i : ℕ) (xs : List ℕ) → get_or (drop n xs) i 0 ≡ get_or xs (n + i) 0
get_or-drop zero i xs = ap (λ k. get_or xs k 0) {x = i} {y = 0 + i} (omega arith)
get_or-drop (suc n) i [] = refl
get_or-drop (suc n) i (x ∷ xs) =
    get_or-drop n i xs
    ∙ ap (λ k. get_or (x ∷ xs) k 0) {x = suc (n + i)} {y = suc n + i} (omega arith)

slice-drop : (n off len : ℕ) (xs : List ℕ) → slice off len (drop n xs) ≡ slice (n + off) len xs
unfolding slice
slice-drop n off len xs = ap (take len) (drop-drop off n xs)

-- An echo request of fewer than four bytes for MY_IP: the type is the byte behind the two headers.
unfoldable pub is_short_echo : List ℕ → Bool
unfolding slice
is_short_echo frame =
    let start = 14 + get_or frame 14 0 % 16 * 4 in
    leb 34 (length frame)
    && from_be16 (get_or frame 12 0) (get_or frame 13 0) == 0x0800
    && same_bytes (slice 30 4 frame) my_ip
    && get_or frame 23 0 == 1
    && ltb start (length frame)
    && get_or frame start 0 == 8
    && ltb (length frame) (start + 4)

handle_icmp-is_panic :
    (src_ip src_mac icmp : List ℕ) (s : NetState)
    → is_panic (handle_icmp src_ip src_mac icmp s)
      ≡ (ltb 0 (length icmp) && get_or icmp 0 0 == 8 && ltb (length icmp) 4)
unfolding handle_icmp echo_reply
handle_icmp-is_panic src_ip src_mac [] s = refl
handle_icmp-is_panic src_ip src_mac (kind ∷ rest) s = ground arith

handle_ip-is_panic :
    (eth_src packet : List ℕ) (s : NetState)
    → is_panic (handle_ip eth_src packet s) ≡ (
        leb 20 (length packet)
        && same_bytes (slice 16 4 packet) my_ip
        && get_or packet 9 0 == 1
        && ltb (header_len packet) (length packet)
        && get_or packet (header_len packet) 0 == 8
        && ltb (length packet) (header_len packet + 4))
unfolding handle_ip
handle_ip-is_panic eth_src packet s = ground (
  arith,
  handle_icmp-is_panic (slice 12 4 packet) eth_src (drop (header_len packet) packet) s,
  length-drop (header_len packet) packet,
  get_or-drop (header_len packet) 0 packet,
)

-- The tests of `is_short_echo` on the packet in the frame.
is_short_packet : List ℕ → Bool
is_short_packet frame =
    let start = 14 + get_or frame 14 0 % 16 * 4 in
    leb 34 (length frame)
    && same_bytes (slice 30 4 frame) my_ip
    && get_or frame 23 0 == 1
    && ltb start (length frame)
    && get_or frame start 0 == 8
    && ltb (length frame) (start + 4)

handle_ip-frame :
    (eth_src frame : List ℕ) (s : NetState)
    → is_panic (handle_ip eth_src (drop 14 frame) s) ≡ is_short_packet frame
unfolding is_short_packet
handle_ip-frame eth_src frame s =
    let packet = drop 14 frame in
    let n = length-drop 14 frame in
    let h = get_or frame 14 0 % 16 * 4 in
    let first : header_len packet ≡ h = ap (λ k. k % 16 * 4) (get_or-drop 14 0 frame) in
    let a : leb 20 (length packet) ≡ leb 34 (length frame) = ground (arith, n) in
    let b = ap (λ k. same_bytes k my_ip) (slice-drop 14 16 4 frame) in
    let c = ap (λ k. k == 1) (get_or-drop 14 9 frame) in
    let d : ltb (header_len packet) (length packet) ≡ ltb (14 + h) (length frame) =
      rw first (ground (arith, n)) in
    let e : (get_or packet (header_len packet) 0 == 8) ≡ (get_or frame (14 + h) 0 == 8) =
      rw first (ap (λ k. k == 8) (get_or-drop 14 h frame)) in
    let f : ltb (length packet) (header_len packet + 4) ≡ ltb (length frame) (14 + h + 4) =
      rw first (ground (arith, n)) in
    handle_ip-is_panic eth_src packet s ∙ (λ i. a i && b i && c i && d i && e i && f i)

-- A frame makes the kernel panic exactly when it is an echo request for MY_IP of fewer than four
-- bytes.
pub handle_frame-is_panic :
    (frame : List ℕ) (s : NetState) → is_panic (handle_frame frame s) ≡ is_short_echo frame
unfolding handle_frame is_short_echo is_short_packet
handle_frame-is_panic frame s = ground (arith, handle_ip-frame (slice 6 6 frame) frame s)

-- For a sequence number below 2 ^ 16, handle_icmp answers the echo request of `ping_send` with one ICMP
-- packet to the sender, and on the message of that packet, handle_icmp of the sender sends nothing and
-- sets PING_REPLY to that number.
pub handle_icmp-echo_reply :
    (seq : ℕ) (own_ip own_mac far_ip far_mac : List ℕ) (own far : NetState)
    → seq < 2 ^ 16
    → (rep : List ℕ) × (handle_icmp own_ip own_mac (with_checksum (echo_request seq)) far
        ≡ some (ip_send own_ip own_mac 1 rep far))
      × (handle_icmp far_ip far_mac rep own ≡ some (record own { ping_reply = some seq }))
unfolding echo_reply with_checksum splice handle_icmp
handle_icmp-echo_reply seq own_ip own_mac far_ip far_mac own far h =
    let back : from_be16 (seq / 256 % 256) (seq % 256) ≡ seq = omega arith in
    let sent = with_checksum (echo_request seq) in
    (
      with_checksum (set (set (set sent 0 0) 2 0) 3 0),
      refl,
      ap (λ n. some (record own { ping_reply = some n })) back,
    )
