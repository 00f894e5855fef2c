-- ===== src/Pipeline/Transport.antt =====
-- What goes in at one end comes out at the other.
use hairgap.Wirehair.{Wirehair, Floating, Recovers}
use hairgap.Code.{to_int, success}
use hairgap.Proto.{
  Pkt, begin, end, header_len, first_reserved, max_chunk_size, pkt_type, header_bytes, header_begin,
  header_end,
}
use hairgap.Proto.Layout.{length-header_bytes}
use hairgap.Proto.Parse.{pkt_type-header_bytes}
use hairgap.Encoding.{Chunk}
use hairgap.Encoding.Encode.{encoder_new}
use hairgap.Encoding.Decode.{decoder_new}
use hairgap.Receive.Decloop.{Thread, loop}
use hairgap.Receive.Events.{arrival}
use hairgap.Receive.Writer.{write_loop}
use hairgap.Receive.Output.{whole, write_loop-whole}
use hairgap.Receive.Transfer.{all_turns, messages, transfer_delivered}
use hairgap.Receive.Hollow.{transfer_hollow}
use hairgap.Send.Reader.{Source, Reader, read_loop}
use hairgap.Send.Cutting.{IsCut, IsStdio, granted, read_loop_whole}
use hairgap.Send.Preparing.{encode_loop}
use hairgap.Send.Numbering.{CanEncode, offered, encode_loop_whole}
use hairgap.Send.Loop.{Sending, send_loop}
use hairgap.Send.Groups.{CanSend, supplied}
use hairgap.Send.Sending.{send_loop_whole}
use hairgap.Pipeline.Arrivals.{Arrival}
use hairgap.Pipeline.Flight.{
  nothing, hollow, all_arrivals, AllArrive, Deliveries, arrived-Deliveries,
}
use hairgap.Prelude.{
  concat, length, All, ret, ℕ, ◌^◌, ◌≤◌, ◌<◌, ◌≡◌, refl, sym, ap, ◌∙◌, subst, true, false, some,
  List, [], ◌∷◌, ◌++◌, append_assoc, arith,
}

pub begin_type : (stale : List ℕ) → pkt_type (header_bytes header_begin ++ stale) header_len ≡ begin
unfolding header_begin
begin_type stale =
    (pkt_type-header_bytes header_begin stale header_len (omega arith) (omega arith)).1.1 refl

pub end_type : (stale : List ℕ) → pkt_type (header_bytes header_end ++ stale) header_len ≡ end
unfolding header_end
end_type stale =
    (pkt_type-header_bytes header_end stale header_len (omega arith) (omega arith)).2.1 refl

-- The chunks that the encoder thread makes of the reader's.
abbrev pub prepared : (w : Wirehair) → ℕ → List (List ℕ) → List (Chunk w.State)
prepared w pkt_size ms = (encode_loop w (encoder_new pkt_size) [] (offered ms)).chunks

-- What is relied on, and the configuration, of a sender that can do its work.
pub record CanTransmit (w : Wirehair) (f : Floating) (fuel pkt_size : ℕ) (redund : f.Double)
    (ms : List (List ℕ)) : Type 0 where
  pub holds_header : header_len < pkt_size
  pub size_fits : pkt_size < 2 ^ 32
  pub numbered : length ms ≤ first_reserved
  pub sized : All (λ m. length m ≤ max_chunk_size) ms
  pub encodes : All (CanEncode w pkt_size) ms
  pub sends : All (CanSend w f fuel pkt_size redund) ms

-- The receiver, on all deliveries and what comes behind them.
module _ (w : Wirehair) (law : Recovers w) (junk : Pkt) (malloc : ℕ → List ℕ)
    (alloc : (n : ℕ) → length (malloc n) ≡ n) where
  received :
      (ms : List (List ℕ)) (arrivals : List (List Arrival)) (beacon final : List ℕ)
      (beacon_size final_size : ℕ)
      → pkt_type beacon beacon_size ≡ begin
      → pkt_type final final_size ≡ end
      → Deliveries w 0xffffffffffffffff ms arrivals
      → (t : Thread w.State) × (loop w junk malloc decoder_new [] (
            arrival beacon beacon_size ∷ (all_arrivals arrivals ++ (arrival final final_size ∷ [])))
          ≡ ret t)
        × (t.ended ≡ some (to_int success, false))
        × (write_loop [] (whole t.output)
            ≡ record { out = concat ms; ended = some (to_int success) })
  received ms arrivals beacon final bs fs hb hf d =
      let stop = arrival final fs ∷ [] in
      let ds = d.deliveries in
      let all : all_turns ds ++ (d.rest ++ stop) ≡ all_arrivals arrivals ++ stop =
        sym (append_assoc (all_turns ds) d.rest stop) ∙ ap (λ ts. ts ++ stop) d.same_turns in
      let written = λ (out : List (List ℕ)) (e : out ≡ messages ds).
        ap (λ xs. write_loop [] (whole xs)) e
        ∙ write_loop-whole [] (messages ds)
        ∙ ap (λ b. record { out = b; ended = some (to_int success) }) d.same_bytes in
      elim d.tail [
        | nothing none_left ↦
            let (t, run, out, ended) =
              transfer_delivered w junk malloc law alloc ds beacon final bs fs hb hf d.renumbered
                d.genuine in
            (
              t,
              ap (λ ts. loop w junk malloc decoder_new [] (arrival beacon bs ∷ ts))
                    (sym all ∙ ap (λ r. all_turns ds ++ (r ++ stop)) none_left)
                  ∙ run,
              ended,
              written t.output out,
            )
        | hollow c enc es same other v empty genuine ↦
            let (t, run, out, ended) =
              transfer_hollow w junk malloc law alloc ds c enc es beacon final bs fs hb hf
                d.renumbered other d.genuine v empty genuine in
            (
              t,
              ap (λ ts. loop w junk malloc decoder_new [] (arrival beacon bs ∷ ts))
                    (sym all ∙ ap (λ r. all_turns ds ++ (r ++ stop)) same)
                  ∙ run,
              ended,
              written t.output out,
            )
      ]

-- The sender, and the deliveries that enough arrivals of its packets make.
module _ (w : Wirehair) (f : Floating) (law : Recovers w) (fuel pkt_size : ℕ) (redund : f.Double)
    (ms : List (List ℕ)) (can : CanTransmit w f fuel pkt_size redund ms) (output : Sending)
    (transmitted : send_loop w f fuel pkt_size redund
        (record { opened = true; heard = true })
        (supplied (prepared w pkt_size ms))
      ≡ ret (some output)) where
  record Sent (arrivals : List (List Arrival)) : Type 0 where
    announced : output.announced ≡ some (header_bytes header_begin)
    closed : output.closed ≡ some (header_bytes header_end)
    landed : Deliveries w 0xffffffffffffffff ms arrivals

  sent_of :
      (size : ℕ) (arrivals : List (List Arrival))
      → 0 < size
      → IsCut size ms
      → AllArrive w (encoder_new pkt_size) ms output.groups arrivals
      → Sent arrivals
  sent_of size arrivals pos cut got =
      let enc = encoder_new pkt_size in
      let (enc', cs, made, encoded) =
        encode_loop_whole w enc ms can.holds_header can.size_fits can.encodes in
      let same : prepared w pkt_size ms ≡ cs = ap (λ r. r.chunks) made in
      let (gs, sent, groups) =
        send_loop_whole w f law fuel redund enc ms (prepared w pkt_size ms) can.holds_header
          (rw same encoded) can.sends in
      let out : output.groups ≡ gs = cc (sent, transmitted) in
      record {
        announced = cc (sent, transmitted);
        closed = cc (sent, transmitted);
        landed =
            arrived-Deliveries w size pos 0xffffffffffffffff enc ms gs arrivals (omega arith)
              (omega (arith, can.numbered)) can.holds_header can.size_fits cut can.sized groups
              (subst (λ g. AllArrive w enc ms g arrivals) out got);
      }

  module _ (junk : Pkt) (malloc : ℕ → List ℕ) (alloc : (n : ℕ) → length (malloc n) ≡ n) where
    -- The chunks that were sent are put together again.
    pub carried :
        (size : ℕ) (arrivals : List (List Arrival)) (first last before after : List ℕ)
        → 0 < size
        → IsCut size ms
        → output.announced ≡ some first
        → output.closed ≡ some last
        → AllArrive w (encoder_new pkt_size) ms output.groups arrivals
        → (t : Thread w.State) × (loop w junk malloc decoder_new [] (
              arrival (first ++ before) (length first)
              ∷ (all_arrivals arrivals ++ (arrival (last ++ after) (length last) ∷ [])))
            ≡ ret t)
          × (t.ended ≡ some (to_int success, false))
          × (write_loop [] (whole t.output)
              ≡ record { out = concat ms; ended = some (to_int success) })
    carried size arrivals first last before after pos cut announced closed got =
        let sent = sent_of size arrivals pos cut got in
        let first_is : first ≡ header_bytes header_begin = cc (announced, sent.announced) in
        let last_is : last ≡ header_bytes header_end = cc (closed, sent.closed) in
        received w law junk malloc alloc ms arrivals (first ++ before) (last ++ after)
          (length first) (length last)
          (rw (first_is, length-header_bytes header_begin) (begin_type before))
          (rw (last_is, length-header_bytes header_end) (end_type after)) sent.landed

-- The bytes that the reader thread reads from an input without errors, cut into chunks of the buffer's
-- size, encoded, and sent by the sending thread, are the bytes that the writer thread writes: whatever
-- packets are lost, repeated or come in another order within a chunk, and whatever other packets come
-- between, as long as the first one and the last one arrive, and enough of each chunk before the next.
-- No chunk is larger than HGAP_MAX_CHUNK_SIZE, wirehair encodes and writes what it is given and recovers
-- what it encoded, the redundancy is reached, stdio behaves as documented, and the writes succeed. The
-- input may be empty, and it may end with a whole chunk.
transported :
    (w : Wirehair) (f : Floating)
    → Recovers w
    → (junk : Pkt) (malloc : ℕ → List ℕ) → ((n : ℕ) → length (malloc n) ≡ n)
    → (src : Source) (rest : src.State → List ℕ) → IsStdio src rest
    → ((s : src.State) → src.failed s ≡ false)
    → (s : src.State) (rounds size : ℕ) → 0 < size
    → size < 2 ^ 64
    → length (rest s) < rounds
    → (input : Reader src.State) → read_loop src size s [] (granted rounds) ≡ some (ret input)
    → (fuel pkt_size : ℕ) (redund : f.Double) → CanTransmit w f fuel pkt_size redund input.chunks
    → (output : Sending)
    → send_loop w f fuel pkt_size redund
        (record { opened = true; heard = true })
        (supplied (prepared w pkt_size input.chunks))
      ≡ ret (some output)
    → (arrivals : List (List Arrival)) (first last before after : List ℕ)
    → output.announced ≡ some first
    → output.closed ≡ some last
    → AllArrive w (encoder_new pkt_size) input.chunks output.groups arrivals
    → (t : Thread w.State) × (loop w junk malloc decoder_new [] (
          arrival (first ++ before) (length first)
          ∷ (all_arrivals arrivals ++ (arrival (last ++ after) (length last) ∷ [])))
        ≡ ret t)
      × (t.ended ≡ some (to_int success, false))
      × (write_loop [] (whole t.output) ≡ record { out = rest s; ended = some (to_int success) })
transported w f law junk malloc alloc src rest io sound s rounds size lo hi enough input read fuel
      pkt_size redund can output transmitted arrivals first last before after announced closed got =
    let (s', chunks, eq, all, cut) = read_loop_whole src rest io sound size lo hi rounds s enough in
    let same : input.chunks ≡ chunks = cc (eq, read) in
    let (t, run, ended, written) =
      carried w f law fuel pkt_size redund input.chunks can output transmitted junk malloc alloc
        size arrivals first last before after lo (subst (IsCut size) (sym same) cut) announced
        closed got in
    (
      t,
      run,
      ended,
      written ∙ ap (λ b. record { out = b; ended = some (to_int success) }) (ap concat same ∙ all),
    )
