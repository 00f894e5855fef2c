-- ===== src/Encoding/Decode.antt =====
-- The decoder of src/lib/encoding.c: it eats raw packets and emits chunks.
use hairgap.Wirehair.{Wirehair}
use hairgap.Code.{
  Code, to_int, success, eot, err_wirehair_error, err_buffer_too_small, err_incomplete_chunk,
  err_bad_chunk,
}
use hairgap.Proto.{
  PktType, unknown, begin, end, keepalive, data_pkt, Pkt, header_len, max_pkt_size, max_chunk_size,
  pkt_parse, pkt_type,
}
use hairgap.Encoding.{Chunk, payload_size, is_small, purge, chunk_new}
use hairgap.Prelude.{
  ltb, leb, ◌==◌, if◌then◌else◌, to_ssize, neg, is_pos, ℤ, pos, negsuc, ◌>>=◌, load, store, Outcome,
  ret, exited, ℕ, ◌+◌, Bool, true, false, not, none, some, List, u64,
}

-- `enum hgap_decoder_state`, and its order.
pub data Phase : Type 0 where
  t_new t_started t_data t_stopped : Phase

abbrev pub phase_num : Phase → ℕ
phase_num t_new = 0
phase_num t_started = 1
phase_num t_data = 2
phase_num t_stopped = 3

-- `struct hgap_decoder`
pub record Decoder (S : Type 0) : Type 0 where
  pub pkt_size : ℕ
  pub chunk : Chunk S
  pub chunk_complete : Bool
  pub chunk_emitted : Bool
  pub phase : Phase

-- `hgap_decoder_new`
abbrev pub decoder_new : {S : Type 0} → Decoder S
decoder_new = record {
  pkt_size = max_pkt_size;
  chunk = record chunk_new { num = 0xffffffffffffffff };
  chunk_complete = true;
  chunk_emitted = true;
  phase = t_new;
}

-- The new phase and the result of `hgap_decoder_update_state`, by the type of the packet.
abbrev pub update_phase : PktType → Phase → Phase × Bool
update_phase begin p = (if phase_num p == phase_num t_new then t_started else p, false)
update_phase data_pkt p = (if phase_num p == phase_num t_started then t_data else p, true)
update_phase end p = (if leb (phase_num t_started) (phase_num p) then t_stopped else p, false)
update_phase unknown p = (p, false)
update_phase keepalive p = (p, false)

-- `hgap_decoder_update_state`
unfoldable pub update_state : {S : Type 0} → Decoder S → List ℕ → ℕ → Decoder S × Bool
update_state dec raw size =
    let (p, handle) = update_phase (pkt_type raw size) dec.phase in
    (record dec { phase = p }, handle)

module _ (w : Wirehair) where
  open w use {State, decode, read, reconstruct}

  -- The fields that `hgap_dec_chunk_init` sets before it makes a wirehair decoder.
  abbrev pub first_packet : Chunk State → Pkt → Chunk State
  first_packet chunk pkt = record chunk {
    num = pkt.hdr.chunk_num;
    len = pkt.hdr.chunk_size;
    pkt_size = u64 (pkt.hdr.data_size + header_len);
    next_pkt_id = pkt.hdr.data_id;
    content = none;
  }

  -- `hgap_dec_chunk_init`
  unfoldable pub dec_chunk_init : Chunk State → Pkt → Chunk State × Code
  dec_chunk_init chunk pkt =
      let c = first_packet chunk pkt in
      if is_small c then (c, success) else elim (decode c.wh_state c.len (payload_size c)) [
        | none ↦ (record c { wh_state = none }, err_wirehair_error)
        | some s ↦ (record c { wh_state = some s }, success)
      ]

  -- `hgap_dec_chunk_read` behind its first test. Wirehair reads a block of the chunk's payload size.
  unfoldable pub absorb : Chunk State → Pkt → Outcome (Chunk State × ℤ)
  absorb chunk pkt =
      let id = pkt.hdr.data_id in
      let c : Chunk State = record chunk { next_pkt_id = u64 (id + 1) } in
      if is_small c
      then (load pkt.payload 0 c.len >>= λ bytes.
          ret (record c { content = some bytes }, to_ssize c.len))
      else elim c.wh_state [
        | none ↦ ret (c, negsuc 0)
        | some s ↦ load pkt.payload 0 (payload_size c) >>= λ block.
            let (s', ready) = read s id block in
            ret (record c { wh_state = some s' }, if ready then to_ssize c.len else pos 0)
      ]

  -- `hgap_dec_chunk_read`
  unfoldable pub dec_chunk_read : Chunk State → Pkt → Outcome (Chunk State × ℤ)
  unfolding absorb
  dec_chunk_read chunk pkt = elim chunk.content [
    | some bytes ↦ ret (chunk, to_ssize chunk.len)
    | none ↦ absorb chunk pkt
  ]

  -- The end of `hgap_decoder_read`: the packet goes into the current chunk.
  unfoldable pub incorporate : Decoder State → Pkt → Outcome (Decoder State × ℤ)
  unfolding dec_chunk_read
  incorporate dec pkt = do
    (c, ready) ← dec_chunk_read dec.chunk pkt
    ret (
      record dec { chunk = c; chunk_complete = if is_pos ready then true else dec.chunk_complete },
      ready,
    )

  -- `hgap_decoder_read` from the test of the chunk number on.
  unfoldable pub handle_data : Decoder State → Pkt → Outcome (Decoder State × ℤ)
  unfolding incorporate dec_chunk_init
  handle_data dec pkt =
      if not (pkt.hdr.chunk_num == dec.chunk.num)
      then (if not dec.chunk_complete
          then ret (dec, neg (to_int err_incomplete_chunk))
          else (if ltb max_chunk_size pkt.hdr.chunk_size
              then ret (dec, neg (to_int err_bad_chunk))
              else incorporate
                  (record dec {
                    chunk = (dec_chunk_init (purge dec.chunk) pkt).0;
                    chunk_complete = false;
                    chunk_emitted = false;
                  })
                  pkt))
      else (if dec.chunk_complete
          then ret (dec, if dec.chunk_emitted then pos 0 else to_ssize dec.chunk.len)
          else incorporate dec pkt)

  -- `hgap_decoder_read`. The result of `hgap_pkt_parse` is not looked at; `junk` is what the
  -- uninitialised `pkt` holds before the call.
  unfoldable pub decoder_read : Pkt → Decoder State → List ℕ → ℕ → Outcome (Decoder State × ℤ)
  unfolding handle_data update_state
  decoder_read junk dec raw len =
      let pkt = (pkt_parse junk raw len).0 in
      let (dec', handle) = update_state dec raw len in
      if ltb (phase_num dec'.phase) (phase_num t_data)
      then ret (dec', pos 0)
      else (if phase_num dec'.phase == phase_num t_stopped
          then ret (dec', neg (to_int eot))
          else (if not handle then ret (dec', pos 0) else handle_data dec' pkt))

  -- The data that `hgap_decoder_emit` writes to `out`.
  emit_data : Decoder State → List ℕ → Outcome (List ℕ × Code)
  emit_data dec out =
      if is_small dec.chunk
      then elim dec.chunk.content [
        | none ↦ exited
        | some bytes ↦ do
          front ← load bytes 0 dec.chunk.len
          out' ← store out 0 front
          ret (out', success)
      ]
      else elim (reconstruct dec.chunk.wh_state) [
        | none ↦ ret (out, err_wirehair_error)
        | some message ↦ store out 0 message >>= λ out'. ret (out', success)
      ]

  -- `chunk_emitted` is set only behind a successful emission.
  mark_emitted : Decoder State → List ℕ × Code → Decoder State × List ℕ × Code
  mark_emitted dec (out, success) = (record dec { chunk_emitted = true }, out, success)
  mark_emitted dec (out, code) = (dec, out, code)

  -- `hgap_decoder_emit`: the decoder, the buffer `out_buf` of `len` bytes, and the result.
  unfoldable pub decoder_emit : Decoder State → List ℕ → ℕ → Outcome (Decoder State × List ℕ × Code)
  unfolding emit_data mark_emitted
  decoder_emit dec out len =
      if not dec.chunk_complete
      then ret (dec, out, err_incomplete_chunk)
      else (if ltb len dec.chunk.len
          then ret (dec, out, err_buffer_too_small)
          else emit_data dec out >>= λ r. ret (mark_emitted dec r))
