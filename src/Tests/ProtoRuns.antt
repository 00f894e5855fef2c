-- ===== src/Tests/ProtoRuns.antt =====
-- Runs of src/lib/proto.c.
use hairgap.Code.{success, err_bad_pkt}
use hairgap.Proto.{
  begin, end, keepalive, unknown, Header, Pkt, header_len, read_header, pkt_parse, pkt_type,
  header_bytes, zero_header, header_begin, header_end, header_keepalive,
}
use hairgap.Proto.Layout.{InRange}
use hairgap.Proto.Parse.{pkt_parse-header_bytes, pkt_parse_cases}
use hairgap.Prelude.{
  to_be, from_be, ℕ, ◌+◌, ◌≤◌, ◌<◌, ◌≡◌, refl, ◌↔◌, ◌⊎◌, List, [], ◌∷◌, ◌++◌, arith,
}

abbrev hdr : Header
hdr = record { chunk_num = 258; chunk_size = 3; data_id = 0; data_size = 2 }

hdr-InRange : InRange hdr
hdr-InRange = omega arith

abbrev junk : Pkt
junk = record { hdr = zero_header; payload = [] }

abbrev raw : List ℕ
raw =
    0 ∷ 0 ∷ 0 ∷ 0 ∷ 0 ∷ 0 ∷ 1 ∷ 2 ∷ 0 ∷ 0 ∷ 0 ∷ 0 ∷ 0 ∷ 0 ∷ 0 ∷ 3 ∷ 0 ∷ 0 ∷ 0 ∷ 0 ∷ 0 ∷ 0 ∷ 0 ∷ 2
    ∷ 9 ∷ 8 ∷ []

bytes_in_network_order : header_bytes hdr ++ (9 ∷ 8 ∷ []) ≡ raw
unfolding header_bytes to_be
bytes_in_network_order = refl

control_types :
    (pkt_type (header_bytes header_begin) 24 ≡ begin)
    × (pkt_type (header_bytes header_end) 24 ≡ end)
    × (pkt_type (header_bytes header_keepalive) 24 ≡ keepalive)
    × (pkt_type (header_bytes header_keepalive) 23 ≡ unknown)
unfolding header_bytes to_be from_be pkt_type header_begin header_end header_keepalive
control_types = (refl, refl, refl, refl)

pkt_parse-header_bytes_example :
    pkt_parse junk (header_bytes hdr ++ (9 ∷ 8 ∷ 7 ∷ [])) 26
    ≡ (record { hdr = hdr; payload = 9 ∷ 8 ∷ 7 ∷ [] }, success)
pkt_parse-header_bytes_example =
    pkt_parse-header_bytes junk hdr (9 ∷ 8 ∷ 7 ∷ []) 26 hdr-InRange (omega arith)

pkt_parse_cases_example :
    (((pkt_parse junk raw 25).1 ≡ success)
      ↔ ((header_len ≤ 25) × ((read_header raw).data_size + header_len ≤ 25)))
    × (((pkt_parse junk raw 25).1 ≡ err_bad_pkt)
        ↔ ((25 < header_len) ⊎ (25 < (read_header raw).data_size + header_len)))
pkt_parse_cases_example = pkt_parse_cases junk raw 25 (omega arith) (omega arith)
