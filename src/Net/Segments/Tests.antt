-- ===== src/Net/Segments/Tests.antt =====
-- A segment of kernel/src/net.rs with two bytes of data, and the checksum of a well-known header.
use hep_os.Prelude.{[], arith, refl, some, ◌%◌, ◌-◌, ◌<◌, ◌^◌, ◌∷◌, ◌≡◌}
use hep_os.Net.Segments.{tcp_parse-tcp_segment}
use hep_os.Net.Checksum.{fold_carry_lem}
use hep_os.Net.{fold_carry, ip_checksum, tcp_segment, tcp_parse}

tcp_parse-tcp_segment_example :
    tcp_parse (tcp_segment (93 ∷ 184 ∷ 216 ∷ 34 ∷ []) 49152 80 1000 0 2 (b'h' ∷ b'i' ∷ []))
    ≡ some (49152, 80, 1000, 2, b'h' ∷ b'i' ∷ [])
tcp_parse-tcp_segment_example =
    tcp_parse-tcp_segment (93 ∷ 184 ∷ 216 ∷ 34 ∷ []) 49152 80 1000 0 2 (b'h' ∷ b'i' ∷ [])
      (omega arith) (omega arith) (omega arith)

header_checksum :
    ip_checksum (
      0x45 ∷ 0 ∷ 0 ∷ 0x73 ∷ 0 ∷ 0 ∷ 0x40 ∷ 0 ∷ 0x40 ∷ 0x11 ∷ 0 ∷ 0 ∷ 0xC0 ∷ 0xA8 ∷ 0 ∷ 1 ∷ 0xC0
      ∷ 0xA8 ∷ 0 ∷ 0xC7 ∷ [])
    ≡ 0xB861
unfolding ip_checksum
header_checksum = refl

fold_carry_lem_example :
    (fold_carry 2 0x2_479C < 2 ^ 16)
    × (fold_carry 2 0x2_479C % (2 ^ 16 - 1) ≡ 0x2_479C % (2 ^ 16 - 1))
fold_carry_lem_example = fold_carry_lem 0x2_479C (omega arith)
