-- ===== src/Encoding/Reading.antt =====
-- What `hgap_decoder_read` does with a data packet, a control packet and anything else.
use hairgap.Wirehair.{Wirehair}
use hairgap.Code.{to_int, eot}
use hairgap.Proto.{Pkt, pkt_type, end, data_pkt, begin}
use hairgap.Proto.Parse.{pkt_parse-header_bytes, pkt_type-header_bytes}
use hairgap.Encoding.Decode.{
  Phase, t_new, t_stopped, t_started, t_data, Decoder, handle_data, decoder_read,
}
use hairgap.Encoding.Packet.{Piece, Parcel, header_of, wire, wire_size, IsParcel, header_of-InRange}
use hairgap.Prelude.{neg, pos, ret, ℕ, ◌^◌, ◌<◌, ◌≡◌, ◌≢◌, ◌⊎◌, List, ◌++◌, arith}

-- The transfer is under way.
abbrev pub Running : Phase → Type 0
Running p = (p ≡ t_started) ⊎ (p ≡ t_data)

module _ (w : Wirehair) (junk : Pkt) where
  open w use {State}

  -- While a transfer is under way, a data packet goes to the current chunk, and the decoder is in
  -- its data phase.
  pub decoder_read-wire :
      (dec : Decoder State) (c : Parcel) (p : Piece)
      → IsParcel c
      → p.id < 2 ^ 32
      → Running dec.phase
      → decoder_read w junk dec (wire c p) (wire_size c)
        ≡ handle_data w
            (record dec { phase = t_data })
            (record { hdr = header_of c p.id; payload = p.body ++ p.stale })
  unfolding decoder_read wire
  decoder_read-wire dec c p v h r =
      let i = header_of-InRange v h in
      ground (
        arith,
        pkt_parse-header_bytes junk (header_of c p.id) (p.body ++ p.stale) (wire_size c) i,
        pkt_type-header_bytes (header_of c p.id) (p.body ++ p.stale) (wire_size c) i,
        v.unreserved,
      )

  -- While a transfer is under way, a packet that is neither data nor the end changes nothing.
  pub decoder_read-noise :
      (dec : Decoder State) (raw : List ℕ) (size : ℕ)
      → Running dec.phase
      → pkt_type raw size ≢ data_pkt
      → pkt_type raw size ≢ end
      → decoder_read w junk dec raw size ≡ ret (dec, pos 0)
  unfolding decoder_read
  decoder_read-noise dec raw size r nd ne = ground arith

  -- The end of the transfer is reported, whatever the current chunk lacks.
  pub decoder_read-end :
      (dec : Decoder State) (raw : List ℕ) (size : ℕ)
      → Running dec.phase
      → pkt_type raw size ≡ end
      → decoder_read w junk dec raw size ≡ ret (record dec { phase = t_stopped }, neg (to_int eot))
  unfolding decoder_read
  decoder_read-end dec raw size r e = ground arith

  -- The beacon starts the transfer of a new decoder.
  pub decoder_read-begin :
      (dec : Decoder State) (raw : List ℕ) (size : ℕ)
      → dec.phase ≡ t_new
      → pkt_type raw size ≡ begin
      → decoder_read w junk dec raw size ≡ ret (record dec { phase = t_started }, pos 0)
  unfolding decoder_read
  decoder_read-begin dec raw size e t = ground arith
