-- ===== src/Encoding/Encode.antt =====
-- The encoder of src/lib/encoding.c: chunks, the packets that they emit, and the control packets.
use hairgap.Wirehair.{Wirehair, Floating}
use hairgap.Code.{Code, success, err_wirehair_error, err_buffer_too_small}
use hairgap.Proto.{Header, header_len, min_buf, write_header, header_begin, header_end}
use hairgap.Encoding.{Chunk, payload_size, is_small, memory}
use hairgap.Prelude.{
  ltb, ◌==◌, if◌then◌else◌, length, replicate, ◌>>=◌, load, store, Outcome, ret, exited, ℕ, ◌+◌,
  not, none, some, List, u32, u64,
}

-- `struct hgap_encoder`
pub record Encoder : Type 0 where
  pub pkt_size : ℕ
  pub next_chunk_num : ℕ

-- `hgap_encoder_new`
abbrev pub encoder_new : ℕ → Encoder
encoder_new size = record { pkt_size = size; next_chunk_num = 0 }

-- MIN of src/lib/common.h
abbrev pub min_size : ℕ → ℕ → ℕ
min_size a b = if ltb a b then a else b

-- What `hgap_enc_chunk_emit` leaves behind: the chunk, the packet buffer, `*size`, and its result.
pub record Emitted (S D : Type 0) : Type 0 where
  pub chunk : Chunk S
  pub pkt : List ℕ
  pub size : ℕ
  pub redund : D

-- What the control packets leave behind: the packet buffer, `*size`, and the result.
pub record Control : Type 0 where
  pub pkt : List ℕ
  pub size : ℕ
  pub code : Code

module _ (w : Wirehair) where
  open w use {State, encode, write}

  -- The fields that `hgap_enc_chunk_init` sets before it encodes.
  abbrev pub fresh_chunk : Encoder → Chunk State → List ℕ → Chunk State
  fresh_chunk enc chunk to_enc = record chunk {
    num = enc.next_chunk_num;
    len = length to_enc;
    pkt_size = min_size enc.pkt_size (u64 (length to_enc + header_len));
    next_pkt_id = 0;
    content = some to_enc;
  }

  -- `hgap_enc_chunk_init`. `to_enc` is the `size` bytes of the buffer.
  unfoldable pub chunk_init : Encoder → Chunk State → List ℕ → Encoder × Chunk State × Code
  chunk_init enc chunk to_enc =
      let enc' : Encoder = record enc { next_chunk_num = u64 (enc.next_chunk_num + 1) } in
      let c = fresh_chunk enc chunk to_enc in
      if is_small c then (enc', c, success) else elim (encode c.wh_state to_enc (payload_size c)) [
        | none ↦ (enc', record c { wh_state = none }, err_wirehair_error)
        | some s ↦ (enc', record c { wh_state = some s }, success)
      ]

  module _ (f : Floating) where
    open f use {Double, of_size, divide, minus_one}

    -- The end of `hgap_enc_chunk_emit`: the header, `*size` and the redundancy, for packet `id`.
    unfoldable pub finish : Chunk State → ℕ → ℕ → List ℕ → Outcome (Emitted State Double)
    finish c id payload pkt = do
      let hdr : Header = record {
        chunk_num = c.num;
        chunk_size = c.len;
        data_id = u32 id;
        data_size = u32 payload;
      }
      pkt' ← write_header hdr pkt
      let total = u64 (c.total_gen + payload)
      ret (record {
        chunk = record c { total_gen = total };
        pkt = pkt';
        size = c.pkt_size;
        redund = divide (of_size total) (of_size c.len);
      })

    -- The payload of a small chunk: the buffer is zeroed and the data copied. A NULL `data` has no
    -- bytes to copy from.
    unfoldable pub small_payload : Chunk State → List ℕ → Outcome (List ℕ)
    small_payload c pkt = if not (u64 (c.len + header_len) == c.pkt_size) then exited else (do
      zeroed ← store pkt 0 (replicate c.pkt_size 0)
      bytes ← load (memory c.content) 0 c.len
      store zeroed header_len bytes)

    -- `hgap_enc_chunk_emit`, into the buffer `pkt` whose `*size` is `size`.
    unfoldable pub chunk_emit : Chunk State → List ℕ → ℕ → Outcome (Emitted State Double)
    unfolding finish small_payload
    chunk_emit chunk pkt size =
        let id = chunk.next_pkt_id in
        let c : Chunk State = record chunk { next_pkt_id = u64 (id + 1) } in
        if is_small c
        then (small_payload c pkt >>= λ pkt'. finish c id c.len pkt')
        else elim (write c.wh_state (u32 id)) [
          | none ↦ ret (record { chunk = c; pkt = pkt; size = size; redund = minus_one })
          | some block ↦ store pkt header_len block >>= λ pkt'. finish c id (payload_size c) pkt'
        ]

-- A control packet: the header alone.
unfoldable pub control : Header → List ℕ → ℕ → Outcome Control
control hdr pkt size =
    if ltb size min_buf
    then ret (record { pkt = pkt; size = size; code = err_buffer_too_small })
    else (write_header hdr pkt >>= λ pkt'.
        ret (record { pkt = pkt'; size = header_len; code = success }))

-- `hgap_encoder_handwave`
unfoldable pub handwave : List ℕ → ℕ → Outcome Control
unfolding control
handwave pkt size = control header_begin pkt size

-- `hgap_encoder_teardown`
unfoldable pub teardown : List ℕ → ℕ → Outcome Control
unfolding control
teardown pkt size = control header_end pkt size
