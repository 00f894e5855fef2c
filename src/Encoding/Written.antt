-- ===== src/Encoding/Written.antt =====
-- What `hgap_enc_chunk_emit` leaves behind, and when it is a packet of the chunk.
use hairgap.Wirehair.{Wirehair, Floating}
use hairgap.Proto.{Header, header_len, header_bytes}
use hairgap.Proto.Layout.{length-header_bytes}
use hairgap.Encoding.{Chunk}
use hairgap.Encoding.Encode.{Emitted}
use hairgap.Encoding.Packet.{Piece, Parcel, header_of}
use hairgap.Encoding.Delivery.{IsPieceOf}
use hairgap.Encoding.Emission.{IsEncoded}
use hairgap.Prelude.{
  length, take, length-append, length-take, take-append, take-append_add, take-take_of_le, take_all,
  ℕ, ◌+◌, ◌≤◌, ◌<◌, ◌≡◌, refl, sym, ap, ◌∙◌, none, some, List, ◌++◌, arith, u32, u64,
}

module _ (w : Wirehair) (f : Floating) where
  open w use {State, encode, write}
  open f use {Double, of_size, divide, minus_one}

  abbrev pub piece_of : Chunk State → List ℕ → List ℕ → Piece
  piece_of chunk body stale = record { id = u32 chunk.next_pkt_id; body = body; stale = stale }

  -- `r` is what is left behind when `chunk` has put a packet of `c` into the buffer: the header and
  -- a body, which make a packet of the chunk whatever stands behind them in the receiver's memory,
  -- and the redundancy counted with this packet.
  pub record Wrote (c : Parcel) (chunk : Chunk State) (r : Emitted State Double) : Type 0 where
    pub size : r.size ≡ c.pay + header_len
    pub body : List ℕ
    pub bytes : take r.size r.pkt ≡ header_bytes (header_of c (u32 chunk.next_pkt_id)) ++ body
    pub piece : (stale : List ℕ) → IsPieceOf w chunk.wh_state c (piece_of chunk body stale)
    pub total : r.chunk.total_gen ≡ u64 (chunk.total_gen + c.pay)
    pub redund : r.redund ≡ divide (of_size r.chunk.total_gen) (of_size (length c.message))

  -- `r` is what is left behind when wirehair could not write the block.
  pub record Failed (c : Parcel) (chunk : Chunk State) (pkt : List ℕ) (r : Emitted State Double)
      : Type 0 where
    pub big : c.pay < length c.message
    pub write_lem : write chunk.wh_state (u32 chunk.next_pkt_id) ≡ none
    pub redund : r.redund ≡ minus_one
    pub same : r.pkt ≡ pkt

  module _ {c : Parcel} {chunk : Chunk State} (v : IsEncoded w c chunk) where
    abbrev id : ℕ
    id = chunk.next_pkt_id

    abbrev counted : Chunk State
    counted = record chunk { next_pkt_id = u64 (id + 1) }

    abbrev hdr : Header
    hdr = header_of c (u32 id)

    abbrev pub written : List ℕ → Emitted State Double
    written tail = record {
      chunk = record counted { total_gen = u64 (chunk.total_gen + c.pay) };
      pkt = header_bytes hdr ++ tail;
      size = chunk.pkt_size;
      redund = divide (of_size (u64 (chunk.total_gen + c.pay))) (of_size chunk.len);
    }

    -- What was written is a packet, once the payload behind the header is one.
    pub written-Wrote :
        (tail : List ℕ)
        → ((stale : List ℕ) → IsPieceOf w chunk.wh_state c (piece_of chunk (take c.pay tail) stale))
        → Wrote c chunk (written tail)
    written-Wrote tail piece = record {
      size = v.size;
      body = take c.pay tail;
      bytes =
          take-append_add header_len c.pay chunk.pkt_size (header_bytes hdr) tail
            (length-header_bytes hdr) (omega (arith, v.size));
      piece = piece;
      total = refl;
      redund = ap (λ n. divide (of_size (u64 (chunk.total_gen + c.pay))) (of_size n)) v.len;
    }

    pub small-IsPieceOf :
        (rest stale : List ℕ)
        → length c.message ≤ c.pay
        → IsPieceOf w chunk.wh_state c (piece_of chunk (take c.pay (c.message ++ rest)) stale)
    small-IsPieceOf rest stale small =
        let whole : take c.pay (c.message ++ rest) ≡ c.message =
          take-append c.pay c.message rest (sym (v.small small)) in
        record {
          id_fits = omega arith;
          body_size = ap length whole ∙ sym (v.small small);
          small = λ _.
              ap (take (length c.message)) whole
              ∙ take_all (length c.message) c.message (omega arith);
          large = λ h. absurd (omega arith);
        }

    pub large-IsPieceOf :
        (block rest stale : List ℕ)
        → c.pay < length c.message
        → write chunk.wh_state (u32 id) ≡ some block
        → length block ≤ c.pay
        → c.pay ≤ length block + length rest
        → IsPieceOf w chunk.wh_state c (piece_of chunk (take c.pay (block ++ rest)) stale)
    large-IsPieceOf block rest stale big e fits full =
        let sized : length (take c.pay (block ++ rest)) ≡ c.pay =
          omega (arith, length-take c.pay (block ++ rest), length-append block rest) in
        record {
          id_fits = omega arith;
          body_size = sized;
          small = λ h. absurd (omega arith);
          large = λ h. record {
            written = block;
            write_lem = e;
            fits = fits;
            whole = sized;
            front =
                take-take_of_le (length block) c.pay (block ++ rest) fits
                ∙ take-append (length block) block rest refl;
          };
        }
