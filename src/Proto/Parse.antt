-- ===== src/Proto/Parse.antt =====
-- `hgap_pkt_parse` and `hgap_pkt_type` of src/lib/proto.c against the bytes that are sent.
use hairgap.Code.{success, err_bad_pkt}
use hairgap.Proto.{
  unknown, begin, end, keepalive, data_pkt, Header, Pkt, header_len, no_more_chunk, begin_beacon,
  keep_alive, first_reserved, field, read_header, pkt_parse, pkt_type, header_bytes,
}
use hairgap.Proto.Layout.{InRange, read_header-header_bytes, length-header_bytes}
use hairgap.Prelude.{
  ltb, tests, Bool-cases, length, take, drop, All, length-take, length-drop, drop-append, All-take,
  All-drop, take-append-drop_at, to_be, IsByte, to_be-from_be, from_be-lt, ℕ, ◌+◌, ◌^◌, ◌≤◌, ◌<◌,
  ◌≡◌, refl, ap, ◌↔◌, ◌⊎◌, inl, inr, List, ◌++◌, append_assoc, arith,
}

-- A header written in front of a payload parses back to that header and that payload, whenever the
-- size that was received covers the announced payload. Its fields are in range.
pub pkt_parse-header_bytes :
    (junk : Pkt) (h : Header) (payload : List ℕ) (size : ℕ)
    → InRange h
    → h.data_size + header_len ≤ size
    → pkt_parse junk (header_bytes h ++ payload) size
      ≡ (record { hdr = h; payload = payload }, success)
unfolding pkt_parse
pkt_parse-header_bytes junk h payload size r fits = ground (
  arith,
  read_header-header_bytes h payload r,
  drop-append header_len (header_bytes h) payload (length-header_bytes h),
)

-- A field read from memory that holds bytes fits its integer.
field-lt :
    (raw : List ℕ) (off n : ℕ) → All IsByte raw → off + n ≤ length raw → field raw off n < 256 ^ n
field-lt raw off n bytes h =
    from_be-lt n (take n (drop off raw))
      (omega (arith, length-take n (drop off raw), length-drop off raw))
      (All-take IsByte n (drop off raw) (All-drop IsByte off raw bytes))

-- What arrives from the network is parsed to fields in range.
pub read_header-InRange :
    (raw : List ℕ) → All IsByte raw → header_len ≤ length raw → InRange (read_header raw)
read_header-InRange raw bytes h = record {
  num = field-lt raw 0 8 bytes (omega arith);
  size = field-lt raw 8 8 bytes (omega arith);
  id = field-lt raw 16 4 bytes (omega arith);
  payload = field-lt raw 20 4 bytes (omega arith);
}

-- For a buffer of bytes that holds the `size` bytes received, `hgap_pkt_parse` succeeds exactly when
-- there is a whole header and the payload that it announces, and returns HGAP_ERR_BAD_PKT exactly
-- when one of them is missing.
pub pkt_parse_cases :
    (junk : Pkt) (raw : List ℕ) (size : ℕ)
    → All IsByte raw
    → size ≤ length raw
    → (((pkt_parse junk raw size).1 ≡ success)
        ↔ ((header_len ≤ size) × ((read_header raw).data_size + header_len ≤ size)))
      × (((pkt_parse junk raw size).1 ≡ err_bad_pkt)
          ↔ ((size < header_len) ⊎ (size < (read_header raw).data_size + header_len)))
unfolding pkt_parse
pkt_parse_cases junk raw size bytes held = elim (Bool-cases (ltb size header_len)) [
  | inl short ↦ ground arith
  | inr whole ↦ ground (arith, (read_header-InRange raw bytes (omega (tests, whole))).payload)
]

-- A received header is classified by its chunk number alone: each control number by its own type,
-- the numbers below HGAP_FIRST_RESERVED as data, and the other reserved numbers as unknown.
pub pkt_type-header_bytes :
    (h : Header) (payload : List ℕ) (size : ℕ)
    → InRange h
    → header_len ≤ size
    → ((pkt_type (header_bytes h ++ payload) size ≡ data_pkt) ↔ (h.chunk_num < first_reserved))
      × ((pkt_type (header_bytes h ++ payload) size ≡ begin) ↔ (h.chunk_num ≡ begin_beacon))
      × ((pkt_type (header_bytes h ++ payload) size ≡ end) ↔ (h.chunk_num ≡ no_more_chunk))
      × ((pkt_type (header_bytes h ++ payload) size ≡ keepalive) ↔ (h.chunk_num ≡ keep_alive))
      × ((pkt_type (header_bytes h ++ payload) size ≡ unknown)
          ↔ ((first_reserved ≤ h.chunk_num) × (h.chunk_num < keep_alive)))
unfolding pkt_type
pkt_type-header_bytes h payload size r e =
    rw (ap (λ (k : Header). k.chunk_num) (read_header-header_bytes h payload r))
      (ground arith, ground arith, ground arith, ground arith, ground arith)

field-bytes :
    (raw : List ℕ) (off n : ℕ)
    → All IsByte raw
    → off + n ≤ length raw
    → to_be n (field raw off n) ≡ take n (drop off raw)
field-bytes raw off n bytes h =
    to_be-from_be n (take n (drop off raw))
      (omega (arith, length-take n (drop off raw), length-drop off raw))
      (All-take IsByte n (drop off raw) (All-drop IsByte off raw bytes))

-- Writing back the header that was read from memory that holds bytes, and enough of them for a
-- header, restores the memory: no bit of a packet is lost by parsing.
pub header_bytes-read_header :
    (raw : List ℕ)
    → All IsByte raw
    → header_len ≤ length raw
    → header_bytes (read_header raw) ++ drop header_len raw ≡ raw
unfolding header_bytes
header_bytes-read_header raw bytes h =
    rw
      (
        field-bytes raw 0 8 bytes (omega arith),
        field-bytes raw 8 8 bytes (omega arith),
        field-bytes raw 16 4 bytes (omega arith),
        field-bytes raw 20 4 bytes (omega arith),
      )
      (simp (
        append_assoc,
        take-append-drop_at 20 4 24 raw refl,
        take-append-drop_at 16 4 20 raw refl,
        take-append-drop_at 8 8 16 raw refl,
        take-append-drop_at 0 8 8 raw refl,
      ))
