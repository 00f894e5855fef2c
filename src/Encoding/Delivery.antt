-- ===== src/Encoding/Delivery.antt =====
-- How the decoder takes in the packets of one chunk and gives its bytes back.
use hairgap.Wirehair.{Wirehair, Block, IsBlockOf}
use hairgap.Code.{success}
use hairgap.Proto.{Pkt, header_len, max_chunk_size}
use hairgap.Encoding.{Chunk, payload_size, is_small, purge}
use hairgap.Encoding.Decode.{
  t_data, Decoder, first_packet, dec_chunk_init, handle_data, decoder_emit,
}
use hairgap.Encoding.Packet.{Piece, Parcel, header_of, IsParcel}
use hairgap.Prelude.{
  length, take, length-append, take-append, take-append_of_le, pos, negsuc, load, load_lem,
  store_all, load_all, ret, ℕ, ◌+◌, ◌^◌, ◌≤◌, ◌<◌, ◌≡◌, refl, ap, ◌∙◌, ◌≢◌, ◌⊎◌, inl, inr, true,
  false, Option, none, some, List, ◌++◌, arith, u64, sub64,
}

-- The packet that the parser makes of a piece.
abbrev pub pkt_of : Parcel → Piece → Pkt
pkt_of c p = record { hdr = header_of c p.id; payload = p.body ++ p.stale }

abbrev pub block_of : Piece → Block
block_of p = record { id = p.id; bytes = p.body }

pub payload_lem : {c : Parcel} → IsParcel c → sub64 (u64 (c.pay + header_len)) header_len ≡ c.pay
payload_lem v = omega (arith, v.pay_fits)

module _ (w : Wirehair) where
  open w use {State, decode, read, reconstruct}

  -- What a packet of a chunk carries: all of a small chunk, or a block of the encoder `enc`.
  pub record IsPieceOf (enc : Option State) (c : Parcel) (p : Piece) : Type 0 where
    pub id_fits : p.id < 2 ^ 32
    pub body_size : length p.body ≡ c.pay
    pub small : length c.message ≤ c.pay → take (length c.message) p.body ≡ c.message
    pub large : c.pay < length c.message → IsBlockOf w enc c.pay (block_of p)

  -- The decoder is between chunks, and the next one is `c`.
  pub record IsReady (c : Parcel) (dec : Decoder State) : Type 0 where
    pub complete : dec.chunk_complete ≡ true
    pub other : dec.chunk.num ≢ c.num

  -- The decoder has met `c` and its wirehair decoder is in the state `d`.
  pub record IsCollecting (c : Parcel) (d : State) (dec : Decoder State) : Type 0 where
    pub phase : dec.phase ≡ t_data
    pub num : dec.chunk.num ≡ c.num
    pub len : dec.chunk.len ≡ length c.message
    pub payload : payload_size dec.chunk ≡ c.pay
    pub empty : dec.chunk.content ≡ none
    pub state : dec.chunk.wh_state ≡ some d
    pub incomplete : dec.chunk_complete ≡ false

  -- The decoder can give back the bytes of `c`.
  pub record IsHolding (c : Parcel) (dec : Decoder State) : Type 0 where
    pub phase : dec.phase ≡ t_data
    pub num : dec.chunk.num ≡ c.num
    pub len : dec.chunk.len ≡ length c.message
    pub complete : dec.chunk_complete ≡ true
    pub source :
        ((is_small dec.chunk ≡ true) × (dec.chunk.content ≡ some c.message))
        ⊎ ((is_small dec.chunk ≡ false) × (reconstruct dec.chunk.wh_state ≡ some c.message))

  module _ {enc : Option State} {c : Parcel} (v : IsParcel c)
      (bounded : length c.message ≤ max_chunk_size) where
    load_small :
        (p : Piece)
        → IsPieceOf enc c p
        → length c.message ≤ c.pay
        → load (p.body ++ p.stale) 0 (length c.message) ≡ ret c.message
    load_small p i fit =
        load_lem (p.body ++ p.stale) 0 (length c.message)
          (omega (arith, length-append p.body p.stale, i.body_size))
        ∙ ap ret (
            take-append_of_le (length c.message) p.body p.stale (omega (arith, i.body_size))
            ∙ i.small fit)

    load_block : (p : Piece) → IsPieceOf enc c p → load (p.body ++ p.stale) 0 c.pay ≡ ret p.body
    load_block p i =
        load_lem (p.body ++ p.stale) 0 c.pay
          (omega (arith, length-append p.body p.stale, i.body_size))
        ∙ ap ret (take-append c.pay p.body p.stale i.body_size)

    -- A small chunk is complete with its first packet.
    pub small_first :
        {dec : Decoder State} {p : Piece}
        → IsReady c dec
        → IsPieceOf enc c p
        → dec.phase ≡ t_data
        → 0 < length c.message
        → length c.message ≤ c.pay
        → (dec' : Decoder State) × (handle_data w dec (pkt_of c p)
            ≡ ret (dec', pos (length c.message)))
          × IsHolding c dec'
    unfolding handle_data
    small_first {dec} {p} r i ph ne fit =
        let c1 : Chunk State = record (first_packet w (purge dec.chunk) (pkt_of c p)) {
          next_pkt_id = u64 (p.id + 1);
          content = some c.message;
        } in
        (
          record dec { chunk = c1; chunk_complete = true; chunk_emitted = false },
          ground (arith, payload_lem v, load_small p i fit, v.pay_fits, r.complete, r.other),
          ground (arith, payload_lem v),
        )

    -- A large chunk begins with its first packet, as if it had been collecting already.
    pub large_first :
        {dec : Decoder State} {p : Piece} {d : State}
        → IsReady c dec
        → IsPieceOf enc c p
        → dec.phase ≡ t_data
        → c.pay < length c.message
        → decode dec.chunk.wh_state (length c.message) c.pay ≡ some d
        → (dec' : Decoder State) × (handle_data w dec (pkt_of c p)
            ≡ handle_data w dec' (pkt_of c p))
          × IsCollecting c d dec'
    unfolding handle_data dec_chunk_init
    large_first {dec} {p} {d} r i ph big e =
        let c1 : Chunk State = record (first_packet w (purge dec.chunk) (pkt_of c p)) {
          wh_state = some d;
        } in
        (
          record dec { chunk = c1; chunk_complete = false; chunk_emitted = false },
          ground (arith, payload_lem v, r.complete, r.other, e),
          ground (arith, payload_lem v),
        )

    -- A packet that leaves the wirehair decoder unready only moves its state.
    pub collect :
        {dec : Decoder State} {p : Piece} {d d' : State}
        → IsCollecting c d dec
        → IsPieceOf enc c p
        → c.pay < length c.message
        → read d p.id p.body ≡ (d', false)
        → (dec' : Decoder State) × (handle_data w dec (pkt_of c p) ≡ ret (dec', pos 0))
          × IsCollecting c d' dec'
    unfolding handle_data
    collect {dec} {p} {d} {d'} k i big e =
        let c1 : Chunk State = record dec.chunk {
          next_pkt_id = u64 (p.id + 1);
          wh_state = some d';
        } in
        (record dec { chunk = c1 }, ground (arith, load_block p i, e), ground arith)

    -- The packet that makes it ready completes the chunk.
    pub complete :
        {dec : Decoder State} {p : Piece} {d d' : State}
        → IsCollecting c d dec
        → IsPieceOf enc c p
        → c.pay < length c.message
        → read d p.id p.body ≡ (d', true)
        → reconstruct (some d') ≡ some c.message
        → (dec' : Decoder State) × (handle_data w dec (pkt_of c p)
            ≡ ret (dec', pos (length c.message)))
          × IsHolding c dec'
    unfolding handle_data
    complete {dec} {p} {d} {d'} k i big e rec =
        let c1 : Chunk State = record dec.chunk {
          next_pkt_id = u64 (p.id + 1);
          wh_state = some d';
        } in
        (
          record dec { chunk = c1; chunk_complete = true },
          ground (arith, load_block p i, e),
          ground arith,
        )

  -- Where wirehair refuses to make a decoder, the packet is answered with the value that also
  -- stands for the end of the transfer.
  pub large_refused :
      {c : Parcel} {dec : Decoder State} (p : Piece)
      → IsParcel c
      → length c.message ≤ max_chunk_size
      → IsReady c dec
      → c.pay < length c.message
      → decode dec.chunk.wh_state (length c.message) c.pay ≡ none
      → (dec' : Decoder State) × (handle_data w dec (pkt_of c p) ≡ ret (dec', negsuc 0))
  unfolding handle_data
  large_refused {c} {dec} p v bounded r big e =
      let c1 : Chunk State = record (first_packet w (purge dec.chunk) (pkt_of c p)) {
        wh_state = none;
        next_pkt_id = u64 (p.id + 1);
      } in
      (
        record dec { chunk = c1; chunk_complete = false; chunk_emitted = false },
        ground (arith, payload_lem v, r.complete, r.other, e),
      )

  -- A complete chunk is written to a buffer of its size, and marked as emitted.
  pub decoder_emit-IsHolding :
      {c : Parcel} {dec : Decoder State} (out : List ℕ)
      → IsHolding c dec
      → length out ≡ length c.message
      → decoder_emit w dec out (length c.message)
        ≡ ret (record dec { chunk_emitted = true }, c.message, success)
  unfolding decoder_emit
  decoder_emit-IsHolding {c} {dec} out k e = elim k.source [
    | inl (small, held) ↦
        ground (arith, load_all c.message (length c.message) refl, store_all out c.message)
    | inr (large, rec) ↦ ground (arith, store_all out c.message)
  ]

  -- Further packets of a chunk that was emitted are passed over.
  pub passed_over :
      {c : Parcel} {dec : Decoder State} (p : Piece)
      → IsHolding c dec
      → dec.chunk_emitted ≡ true
      → handle_data w dec (pkt_of c p) ≡ ret (dec, pos 0)
  unfolding handle_data
  passed_over {dec} p k e = ground arith

  pub emitted-IsHolding :
      {c : Parcel} {dec : Decoder State}
      → IsHolding c dec
      → IsHolding c (record dec { chunk_emitted = true })
  emitted-IsHolding k = record {
    phase = k.phase;
    num = k.num;
    len = k.len;
    complete = k.complete;
    source = k.source;
  }
