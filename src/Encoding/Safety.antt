-- ===== src/Encoding/Safety.antt =====
-- The memory that `hgap_decoder_read` and `hgap_decoder_emit` touch, whatever the network sends.
use hairgap.Wirehair.{Wirehair}
use hairgap.Code.{success}
use hairgap.Proto.{
  Pkt, header_len, max_chunk_size, first_reserved, read_header, pkt_parse, pkt_type, PktType,
  data_pkt,
}
use hairgap.Proto.Parse.{pkt_parse_cases, read_header-InRange}
use hairgap.Encoding.Reading.{Running}
use hairgap.Encoding.Decode.{
  Phase, t_started, t_data, t_stopped, phase_num, Decoder, update_phase, dec_chunk_init,
  dec_chunk_read, handle_data, decoder_read,
}
use hairgap.Prelude.{
  ◌==◌, if◌then◌else◌, length, drop, All, length-drop, is_pos, ℤ, pos, negsuc, load_fault, ret,
  fault, IsByte, ℕ, ◌+◌, ◌≤◌, ◌<◌, ◌≡◌, refl, ◌≢◌, ◌⊎◌, inl, inr, true, false, List, arith,
}
use hairgap.Encoding.Safe.{IsSafe, Reads, phase-IsSafe}
use hairgap.Encoding.Absorbing.{Reads-by, answers, handle_data-Reads}

module _ (w : Wirehair) where
  open w use {State, decode, read, reconstruct}

  module _ (junk : Pkt) (dec : Decoder State) (raw : List ℕ) (size : ℕ)
      (ok : (pkt_parse junk raw size).1 ≡ success) where
    abbrev parsed : Pkt
    parsed = record { hdr = read_header raw; payload = drop header_len raw }

    data-unreserved : pkt_type raw size ≡ data_pkt → (read_header raw).chunk_num < first_reserved
    unfolding pkt_type
    data-unreserved e = ground arith

    -- A call hands a data packet over, or only moves the phase.
    read_cases :
        (t : PktType) (p : Phase)
        → pkt_type raw size ≡ t
        → dec.phase ≡ p
        → ((decoder_read w junk dec raw size ≡ handle_data w (record dec { phase = t_data }) parsed)
            × (t ≡ data_pkt))
          ⊎ ((p' : Phase) × (z : ℤ) × (decoder_read w junk dec raw size
                ≡ ret (record dec { phase = p' }, z))
              × (is_pos z ≡ false))
    unfolding decoder_read pkt_parse
    read_cases data_pkt t_started et ep = inl (ground arith, refl)
    read_cases data_pkt t_data et ep = inl (ground arith, refl)
    read_cases t p et ep = inr (
      (update_phase t p).0,
      if phase_num (update_phase t p).0 == phase_num t_stopped then negsuc 0 else pos 0,
      ground arith,
      ground arith,
    )

  -- Whatever bytes arrive in a buffer of `mtu` bytes, as long as `hgap_pkt_parse` accepts them,
  -- `hgap_decoder_read` returns without leaving its memory, keeps the invariant that a new decoder
  -- has, and announces a size only when a chunk of that size is complete and was not emitted.
  pub decoder_read-Reads :
      {mtu : ℕ} (junk : Pkt) {dec : Decoder State} (raw : List ℕ) (size : ℕ)
      → IsSafe w mtu dec
      → All IsByte raw
      → length raw ≡ mtu
      → size ≤ mtu
      → (pkt_parse junk raw size).1 ≡ success
      → Reads w mtu (decoder_read w junk dec raw size)
  decoder_read-Reads {mtu} junk {dec} raw size s bytes held le ok =
      let (whole, fits) = (pkt_parse_cases junk raw size bytes (omega arith)).0.0 ok in
      let room : length (drop header_len raw) + header_len ≡ mtu =
        omega (arith, length-drop header_len raw) in
      elim (read_cases junk dec raw size ok (pkt_type raw size) dec.phase refl refl) [
        | inl (e, t) ↦ Reads-by w (parsed junk dec raw size ok) room e (
            handle_data-Reads w (parsed junk dec raw size ok) room (phase-IsSafe w t_data s)
              (data-unreserved junk dec raw size ok t) (omega arith))
        | inr (p', z, e, np) ↦
            Reads-by w (parsed junk dec raw size ok) room e (
              answers w (parsed junk dec raw size ok) room z (phase-IsSafe w p' s)
                (λ h. cc (np, h)))
      ]

  -- The decoder does not look at the result of `hgap_pkt_parse`: a data packet of a new chunk whose
  -- header announces a small chunk that goes past the end of the buffer makes a running decoder that
  -- is between two chunks copy from outside the buffer.
  pub short_packet_faults :
      (junk : Pkt) (dec : Decoder State) (raw : List ℕ) (size : ℕ)
      → All IsByte raw
      → header_len ≤ size
      → size ≤ length raw
      → Running dec.phase
      → dec.chunk_complete ≡ true
      → pkt_type raw size ≡ data_pkt
      → (read_header raw).chunk_num ≢ dec.chunk.num
      → (read_header raw).chunk_size ≤ max_chunk_size
      → (read_header raw).chunk_size ≤ (read_header raw).data_size
      → length raw < (read_header raw).chunk_size + header_len
      → decoder_read w junk dec raw size ≡ fault
  unfolding decoder_read pkt_parse dec_chunk_read dec_chunk_init
  short_packet_faults junk dec raw size bytes whole held run complete typed new ok small past =
      ground (
        arith,
        (read_header-InRange raw bytes (omega arith)).payload,
        load_fault (drop header_len raw) 0 (read_header raw).chunk_size
            (omega (arith, length-drop header_len raw)),
      )
