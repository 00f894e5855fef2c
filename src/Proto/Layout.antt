-- ===== src/Proto/Layout.antt =====
-- Where `hgap_write_header` puts the fields, and that the parser reads them there.
use hairgap.Proto.{Header, header_len, field, read_header, header_bytes, write_header}
use hairgap.Prelude.{
  length, drop, length-append, take-append, drop-append, store_lem, load, load_lem, ap, ◌∙◌, ret,
  to_be, length-to_be, from_be-to_be, ℕ, ◌^◌, ◌≤◌, ◌<◌, ◌≡◌, refl, List, [], ◌++◌, append_assoc,
  arith,
}

-- The fields fit the integers that hold them.
pub record InRange (h : Header) : Type 0 where
  pub num : h.chunk_num < 2 ^ 64
  pub size : h.chunk_size < 2 ^ 64
  pub id : h.data_id < 2 ^ 32
  pub payload : h.data_size < 2 ^ 32

pub length-header_bytes : (h : Header) → length (header_bytes h) ≡ header_len
unfolding header_bytes
length-header_bytes h = omega (
  arith,
  length-append (to_be 8 h.chunk_num)
      (to_be 8 h.chunk_size ++ (to_be 4 h.data_id ++ to_be 4 h.data_size)),
  length-append (to_be 8 h.chunk_size) (to_be 4 h.data_id ++ to_be 4 h.data_size),
  length-append (to_be 4 h.data_id) (to_be 4 h.data_size),
  length-to_be 8 h.chunk_num,
  length-to_be 8 h.chunk_size,
  length-to_be 4 h.data_id,
  length-to_be 4 h.data_size,
)

-- A header in front is what its first bytes are.
pub load-header_bytes :
    (h : Header) (rest : List ℕ) → load (header_bytes h ++ rest) 0 header_len ≡ ret (header_bytes h)
load-header_bytes h rest =
    load_lem (header_bytes h ++ rest) 0 header_len
      (omega (arith, length-append (header_bytes h) rest, length-header_bytes h))
    ∙ ap ret (take-append header_len (header_bytes h) rest (length-header_bytes h))

-- A field of `n` bytes that stands behind `pre` reads back.
field_lem :
    (pre rest : List ℕ) (off n v : ℕ)
    → length pre ≡ off
    → v < 256 ^ n
    → field (pre ++ (to_be n v ++ rest)) off n ≡ v
field_lem pre rest off n v e h =
    rw
      (drop-append off pre (to_be n v ++ rest) e, take-append n (to_be n v) rest (length-to_be n v))
      (from_be-to_be n v h)

module _ (h : Header) (rest : List ℕ) (r : InRange h) where
  abbrev f1 : List ℕ
  f1 = to_be 8 h.chunk_num

  abbrev f2 : List ℕ
  f2 = to_be 8 h.chunk_size

  abbrev f3 : List ℕ
  f3 = to_be 4 h.data_id

  abbrev f4 : List ℕ
  f4 = to_be 4 h.data_size

  field-chunk_num : field (header_bytes h ++ rest) 0 8 ≡ h.chunk_num
  unfolding header_bytes
  field-chunk_num =
      rw (append_assoc f1) (field_lem [] ((f2 ++ (f3 ++ f4)) ++ rest) 0 8 h.chunk_num refl r.num)

  field-chunk_size : field (header_bytes h ++ rest) 8 8 ≡ h.chunk_size
  unfolding header_bytes
  field-chunk_size =
      simp append_assoc
        (field_lem f1 (f3 ++ (f4 ++ rest)) 8 8 h.chunk_size (length-to_be 8 _) r.size)

  field-data_id : field (header_bytes h ++ rest) 16 4 ≡ h.data_id
  unfolding header_bytes
  field-data_id = simp append_assoc (
      simp append_assoc at (
        field_lem (f1 ++ f2) (f4 ++ rest) 16 4 h.data_id
          (omega
            (arith, length-append f1 f2, length-to_be 8 h.chunk_num, length-to_be 8 h.chunk_size))
          r.id))

  field-data_size : field (header_bytes h ++ rest) 20 4 ≡ h.data_size
  unfolding header_bytes
  field-data_size = simp append_assoc (
      simp append_assoc at (
        field_lem (f1 ++ (f2 ++ f3)) rest 20 4 h.data_size
          (omega (
            arith,
            length-append f1 (f2 ++ f3),
            length-append f2 f3,
            length-to_be 8 h.chunk_num,
            length-to_be 8 h.chunk_size,
            length-to_be 4 h.data_id,
          ))
          r.payload))

  -- The parser reads back every field of a header that was written, whatever follows it.
  pub read_header-header_bytes : read_header (header_bytes h ++ rest) ≡ h
  read_header-header_bytes = cc (field-chunk_num, field-chunk_size, field-data_id, field-data_size)

-- `hgap_write_header` writes the 24 bytes of the header and keeps what stands behind them.
pub write_header_lem :
    (h : Header) (buf : List ℕ)
    → header_len ≤ length buf
    → write_header h buf ≡ ret (header_bytes h ++ drop header_len buf)
unfolding write_header
write_header_lem h buf e =
    rw (store_lem buf 0 (header_bytes h) (omega (arith, length-header_bytes h))) (
      ap (λ (k : ℕ). ret (header_bytes h ++ drop k buf)) {y = header_len}
        (omega (arith, length-header_bytes h)))
