-- ===== src/Encoding.antt =====
-- The structures of src/lib/encoding.c, and the helpers that the encoder and the decoder share.
pub mod Encode
pub mod Decode
pub mod Packet
pub mod Reading
pub mod Delivery
pub mod Emission
pub mod Written
pub mod Emit
pub mod Safe
pub mod Absorbing
pub mod Safety
pub mod Signals
use hairgap.Proto.{header_len}
use hairgap.Prelude.{leb, ℕ, Bool, Option, none, some, List, [], sub64}

-- `struct hgap_enc_chunk`. `S` is what a `wirehair_state` points to; `content` is the `data` pointer,
-- and NULL is `none`.
pub record Chunk (S : Type 0) : Type 0 where
  pub num : ℕ
  pub len : ℕ
  pub pkt_size : ℕ
  pub next_pkt_id : ℕ
  pub wh_state : Option S
  pub content : Option (List ℕ)
  pub total_gen : ℕ

module _ {S : Type 0} where
  -- `hgap_enc_chunk_pkt_payload_size`
  abbrev pub payload_size : Chunk S → ℕ
  payload_size c = sub64 c.pkt_size header_len

  -- `hgap_enc_chunk_is_small`
  abbrev pub is_small : Chunk S → Bool
  is_small c = leb c.len (payload_size c)

  -- `hgap_enc_chunk_purge`
  abbrev pub purge : Chunk S → Chunk S
  purge c = record c { content = none }

-- `hgap_enc_chunk_new`
abbrev pub chunk_new : {S : Type 0} → Chunk S
chunk_new = record {
  num = 0;
  len = 0;
  pkt_size = 0;
  next_pkt_id = 0;
  wh_state = none;
  content = none;
  total_gen = 0;
}

-- The memory behind a pointer; behind NULL there is none.
abbrev pub memory : Option (List ℕ) → List ℕ
memory none = []
memory (some bytes) = bytes
