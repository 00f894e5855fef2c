-- ===== src/Encoding/Safe.antt =====
-- What the decoder relies on between two packets, whatever the network sends, and what a call of
-- `hgap_decoder_read` leaves.
use hairgap.Wirehair.{Wirehair}
use hairgap.Proto.{header_len, max_chunk_size}
use hairgap.Encoding.{is_small}
use hairgap.Encoding.Decode.{Phase, Decoder, decoder_new}
use hairgap.Prelude.{
  length, is_pos, ℤ, pos, Outcome, ret, ℕ, ◌^◌, ◌≤◌, ◌<◌, ◌≡◌, refl, ◌≢◌, ◌⊎◌, inr, true, false,
  none, some, List, arith,
}

module _ (w : Wirehair) where
  open w use {State, decode, read, reconstruct}

  -- What the decoder relies on between two packets, when packets arrive in buffers of `mtu` bytes: the
  -- packets of the current chunk fit such a buffer, the copy of a small chunk has its length, and a
  -- complete small chunk that was not emitted has its copy. The number of a new decoder is no
  -- packet's.
  pub record IsSafe (mtu : ℕ) (dec : Decoder State) : Type 0 where
    pub bound : mtu < 2 ^ 32
    pub size :
        (header_len ≤ dec.chunk.pkt_size) × (dec.chunk.pkt_size ≤ mtu)
        ⊎ (dec.chunk.num ≡ 0xffffffffffffffff)
          × (dec.chunk_complete ≡ true)
          × (dec.chunk_emitted ≡ true)
    pub len : dec.chunk.len ≤ max_chunk_size
    pub copy : (bytes : List ℕ) → dec.chunk.content ≡ some bytes → length bytes ≡ dec.chunk.len
    pub fresh : dec.chunk_complete ≡ false → dec.chunk_emitted ≡ false
    pub held :
        dec.chunk_complete ≡ true
        → dec.chunk_emitted ≡ false
        → is_small dec.chunk ≡ true
        → dec.chunk.content ≢ none

  -- What a call leaves: a safe decoder, and a result that is a size to be emitted, none yet, or an
  -- error.
  pub record Reads (mtu : ℕ) (outcome : Outcome (Decoder State × ℤ)) : Type 0 where
    pub dec : Decoder State
    pub result : ℤ
    pub returns : outcome ≡ ret (dec, result)
    pub safe : IsSafe mtu dec
    pub emittable :
        is_pos result ≡ true
        → (result ≡ pos dec.chunk.len) × (dec.chunk_complete ≡ true) × (dec.chunk_emitted ≡ false)

  pub new-IsSafe : (mtu : ℕ) → mtu < 2 ^ 32 → IsSafe mtu decoder_new
  new-IsSafe mtu h = record {
    bound = h;
    size = inr (refl, refl, refl);
    len = omega arith;
    copy = λ b h. cc;
    fresh = λ h. cc;
    held = λ _ h. cc;
  }

  pub phase-IsSafe :
      {mtu : ℕ} {dec : Decoder State} (p : Phase)
      → IsSafe mtu dec
      → IsSafe mtu (record dec { phase = p })
  phase-IsSafe p s = record {
    bound = s.bound;
    size = s.size;
    len = s.len;
    copy = s.copy;
    fresh = s.fresh;
    held = s.held;
  }
