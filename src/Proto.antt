-- ===== src/Proto.antt =====
-- The packet format of src/lib/proto.h and src/lib/proto.c. A buffer is the list of its bytes; a
-- pointer into it is what is left of the list from there on.
pub mod Layout
pub mod Parse
use hairgap.Code.{Code, success, err_bad_pkt}
use hairgap.Prelude.{
  ltb, leb, ◌==◌, if◌then◌else◌, take, drop, store, Outcome, to_be, from_be, ℕ, ◌+◌, ◌*◌, List,
  ◌++◌, u64,
}

abbrev pub port : ℕ
port = 11011

abbrev pub no_more_chunk : ℕ
no_more_chunk = 0xffffffffffffffff

abbrev pub begin_beacon : ℕ
begin_beacon = 0xfffffffffffffffe

abbrev pub keep_alive : ℕ
keep_alive = 0xfffffffffffffffd

abbrev pub first_reserved : ℕ
first_reserved = 0xfffffffffffffff0

-- `sizeof(struct hgap_header)`
abbrev pub header_len : ℕ
header_len = 24

abbrev pub control_len : ℕ
control_len = 0

abbrev pub salve_len : ℕ
salve_len = 32

abbrev pub min_buf : ℕ
min_buf = header_len + control_len

abbrev pub max_pkt_size : ℕ
max_pkt_size = 1500

abbrev pub max_n_pkt : ℕ
max_n_pkt = 64000

abbrev pub max_chunk_size : ℕ
max_chunk_size = max_pkt_size * max_n_pkt

-- `enum hgap_pkt_t`
pub data PktType : Type 0 where
  unknown begin end keepalive data_pkt : PktType

-- `struct hgap_header`
pub record Header : Type 0 where
  pub chunk_num : ℕ
  pub chunk_size : ℕ
  pub data_id : ℕ
  pub data_size : ℕ

-- `struct hgap_pkt`: `payload` is the memory from the `data` pointer on.
pub record Pkt : Type 0 where
  pub hdr : Header
  pub payload : List ℕ

-- `be64toh` and `be32toh` of the header's fields, each `n` bytes at its offset.
abbrev pub field : List ℕ → ℕ → ℕ → ℕ
field raw off n = from_be (take n (drop off raw))

abbrev pub read_header : List ℕ → Header
read_header raw = record {
  chunk_num = field raw 0 8;
  chunk_size = field raw 8 8;
  data_id = field raw 16 4;
  data_size = field raw 20 4;
}

-- `hgap_pkt_parse`: the packet that `pkt` points to before the call and after it, and the result.
unfoldable pub pkt_parse : Pkt → List ℕ → ℕ → Pkt × Code
pkt_parse pkt raw size =
    if ltb size header_len
    then (pkt, err_bad_pkt)
    else (let parsed : Pkt = record { hdr = read_header raw; payload = drop header_len raw } in
        if ltb size (u64 (parsed.hdr.data_size + header_len))
        then (parsed, err_bad_pkt)
        else (parsed, success))

-- `hgap_pkt_type`
unfoldable pub pkt_type : List ℕ → ℕ → PktType
pkt_type raw len =
    if ltb len header_len
    then unknown
    else (let type = field raw 0 8 in
        if type == begin_beacon
        then begin
        else (if type == no_more_chunk
            then end
            else (if type == keep_alive
                then keepalive
                else (if leb first_reserved type then unknown else data_pkt))))

-- The four stores of `hgap_write_header`, in the order of the fields.
unfoldable pub header_bytes : Header → List ℕ
header_bytes h =
    to_be 8 h.chunk_num ++ (to_be 8 h.chunk_size ++ (to_be 4 h.data_id ++ to_be 4 h.data_size))

-- `hgap_write_header`
unfoldable pub write_header : Header → List ℕ → Outcome (List ℕ)
write_header h buf = store buf 0 (header_bytes h)

-- `memset(hdr, 0, sizeof *hdr)`
abbrev pub zero_header : Header
zero_header = record { chunk_num = 0; chunk_size = 0; data_id = 0; data_size = 0 }

-- `hgap_header_begin`
unfoldable pub header_begin : Header
header_begin = record zero_header { chunk_num = begin_beacon }

-- `hgap_header_end`
unfoldable pub header_end : Header
header_end = record zero_header { chunk_num = no_more_chunk }

-- `hgap_header_keepalive`
unfoldable pub header_keepalive : Header
header_keepalive = record zero_header { chunk_num = keep_alive }
