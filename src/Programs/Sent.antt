-- ===== src/Programs/Sent.antt =====
-- What the threads of `hgap_send` do, once they end: they cut, encode and send the whole input.
use hairgap.Wirehair.{Wirehair, Floating, Recovers}
use hairgap.Code.{to_int, success}
use hairgap.Config.{Config, check_config_sender}
use hairgap.Config.Accepts.{check_config_sender_accepts}
use hairgap.Proto.{first_reserved, max_chunk_size, header_bytes, header_begin, header_end}
use hairgap.Encoding.Encode.{encoder_new}
use hairgap.Send.Reader.{Source, Reader, read_loop, read_result}
use hairgap.Send.Cutting.{IsCut, IsCut-All, IsCut-length, IsStdio, granted, read_loop_whole}
use hairgap.Send.Preparing.{Preparation, encode_result}
use hairgap.Send.Numbering.{CanEncode, encode_loop_whole}
use hairgap.Send.Loop.{Sending, send_loop}
use hairgap.Send.Groups.{CanSend, supplied}
use hairgap.Send.Sending.{send_loop_whole}
use hairgap.Pipeline.Transport.{CanTransmit, prepared}
use hairgap.Session.{Returned, buf_size, hgap_send}
use hairgap.Session.Sizes.{buf_size_bounds}
use hairgap.Send.Groups.{AreSent}
use hairgap.Programs.Sender.{
  SendRun, send_returned, running, send_run, Serves, send_size, send_run_lem, hgap_send_success,
}
use hairgap.Prelude.{
  concat, length, ret, ℕ, ◌≤◌, ◌<◌, ◌≡◌, refl, ap, ◌∙◌, Bool, true, false, some, List, [], arith,
}

-- A run of the threads of `hgap_send` that sent all of the input, as each thread's theorem says it.
pub record IsSent (w : Wirehair) (f : Floating) {Addr : Type 0} (c : Config Addr f.Double)
    (fuel : ℕ) (src : Source) (s : src.State) (rounds : ℕ) (r : SendRun src.State w.State)
    : Type 0 where
  pub read : read_loop src (buf_size c) s [] (granted rounds) ≡ some (ret r.input)
  pub sent :
      send_loop w f fuel c.pkt_size c.redund
        (record { opened = true; heard = true })
        (supplied (prepared w c.pkt_size r.input.chunks))
      ≡ ret (some r.output)
  pub can : CanTransmit w f fuel c.pkt_size c.redund r.input.chunks
  pub groups : AreSent w (encoder_new c.pkt_size) r.input.chunks r.output.groups
  pub announced : r.output.announced ≡ some (header_bytes header_begin)
  pub closed : r.output.closed ≡ some (header_bytes header_end)
  pub encode_ended : r.prep.ended ≡ some (to_int success)
  pub send_ended : r.output.ended ≡ some (to_int success)

module _ (w : Wirehair) (f : Floating) {Addr : Type 0} (resolves : Addr → Bool) where
  open w use {State}
  open f use {Double}

  module _ (c : Config Addr Double) (ok : check_config_sender resolves f c ≡ success) (fuel : ℕ)
      (serves : Serves w f resolves c fuel) where
    -- A cut of an input into buffers of the sender can be transmitted.
    cut-CanTransmit :
        (ms : List (List ℕ))
        → IsCut (buf_size c) ms
        → length (concat ms) < first_reserved
        → CanTransmit w f fuel c.pkt_size c.redund ms
    cut-CanTransmit ms cut few =
        let (_, pos, small) = buf_size_bounds resolves f c ok in
        let can = (check_config_sender_accepts resolves f c).0 ok in
        record {
          holds_header = can.header_fits;
          size_fits = omega (arith, can.mtu);
          numbered = omega (arith, IsCut-length (buf_size c) ms pos cut, few);
          sized =
              IsCut-All (λ m. length m ≤ max_chunk_size) (buf_size c) ms cut
                (λ m h. omega (arith, h, small));
          encodes = IsCut-All (CanEncode w c.pkt_size) (buf_size c) ms cut (λ m h. (serves m h).0);
          sends =
              IsCut-All (CanSend w f fuel c.pkt_size c.redund) (buf_size c) ms cut
                (λ m h. (serves m h).1);
        }

    -- The encoder thread and `send_loop` behind a reader thread that has ended.
    pub read-IsSent :
        Recovers w
        → (src : Source) (s : src.State) (rounds : ℕ) (s' : src.State) (chunks : List (List ℕ))
          (retval : ℕ)
        → read_loop src (buf_size c) s [] (granted rounds)
          ≡ some (ret (record { source = s'; chunks = chunks; ended = some retval }))
        → IsCut (buf_size c) chunks
        → length (concat chunks) < first_reserved
        → (r : SendRun src.State State) × (send_run w f resolves src c fuel rounds s ≡ ret (some r))
          × (r.input ≡ record { source = s'; chunks = chunks; ended = some retval })
          × IsSent w f c fuel src s rounds r
    read-IsSent law src s rounds s' chunks retval read cut few =
        let can = cut-CanTransmit chunks cut few in
        let (enc', cs, made, encoded) =
          encode_loop_whole w (encoder_new c.pkt_size) chunks can.holds_header can.size_fits
            can.encodes in
        let (gs, sent, groups) =
          send_loop_whole w f law fuel c.redund (encoder_new c.pkt_size) chunks cs can.holds_header
            encoded can.sends in
        let prep : Preparation State = record {
          enc = enc';
          chunks = cs;
          ended = some (to_int success);
        } in
        let input : Reader src.State = record {
          source = s';
          chunks = chunks;
          ended = some retval;
        } in
        let output : Sending = record {
          announced = some (header_bytes header_begin);
          groups = gs;
          closed = some (header_bytes header_end);
          ended = some (to_int success);
        } in
        let supply : send_loop w f fuel c.pkt_size c.redund (record { opened = true; heard = true })
              (supplied (prepared w c.pkt_size chunks))
            ≡ ret (some output) =
          rw (ap (λ (p : Preparation State). p.chunks) made) sent in
        (
          record { input = input; prep = prep; output = output },
          send_run_lem w f resolves src c fuel rounds s input prep output refl
              (rw (send_size w f resolves c ok) read) made supply,
          refl,
          record {
            read = read;
            sent = supply;
            can = can;
            groups = groups;
            announced = refl;
            closed = refl;
            encode_ended = refl;
            send_ended = refl;
          },
        )

    module _ (law : Recovers w) (src : Source) (rest : src.State → List ℕ) (io : IsStdio src rest)
        (sound : (s : src.State) → src.failed s ≡ false) (s : src.State) (rounds : ℕ)
        (enough : length (rest s) < rounds) (few : length (rest s) < first_reserved) where
      send_run-IsSent :
          (r : SendRun src.State State) × (send_run w f resolves src c fuel rounds s ≡ ret (some r))
          × (concat r.input.chunks ≡ rest s)
          × (r.input.ended ≡ some (to_int success))
          × IsSent w f c fuel src s rounds r
      send_run-IsSent =
          let (sized, pos, small) = buf_size_bounds resolves f c ok in
          let (s', chunks, read, all, cut) =
            read_loop_whole src rest io sound (buf_size c) pos (omega (arith, small)) rounds s
              enough in
          let (r, run, input, v) =
            read-IsSent law src s rounds s' chunks (to_int success) read cut
              (omega (arith, ap length all, few)) in
          (
            r,
            run,
            ap (λ (i : Reader src.State). concat i.chunks) input ∙ all,
            ap (λ (i : Reader src.State). i.ended) input,
            v,
          )

  -- On channels that accept everything, a network that hears the first salve and a configuration
  -- that the sender accepts, where wirehair recovers what it encoded and every chunk that fits the
  -- buffer is encoded and sent within the fuel, on an input without errors that behaves as stdio
  -- documents and has fewer bytes than there are chunk numbers, with a round for each byte and one
  -- more: the threads of `hgap_send` end, the reader's chunks are the whole input, and `hgap_send`
  -- returns success.
  pub hgap_send_whole :
      (c : Config Addr Double)
      → check_config_sender resolves f c ≡ success
      → (fuel : ℕ) → Serves w f resolves c fuel
      → Recovers w
      → (src : Source) (rest : src.State → List ℕ) → IsStdio src rest
      → ((s : src.State) → src.failed s ≡ false)
      → (s : src.State) (rounds : ℕ) → length (rest s) < rounds
      → length (rest s) < first_reserved
      → (r : SendRun src.State State) × (send_run w f resolves src c fuel rounds s ≡ ret (some r))
        × (concat r.input.chunks ≡ rest s)
        × ((t : Returned) × (send_returned r ≡ some t)
            × (hgap_send resolves f c (running t) ≡ ret (to_int success)))
  unfolding read_result encode_result
  hgap_send_whole c ok fuel serves law src rest io sound s rounds enough few =
      let (r, run, all, ended, v) =
        send_run-IsSent c ok fuel serves law src rest io sound s rounds enough few in
      let all_zero : Returned = record {
        own = to_int success;
        joined = to_int success;
        joined_last = to_int success;
      } in
      (
        r,
        run,
        all,
        (
          all_zero,
          rw (ended, v.encode_ended, v.send_ended) refl,
          hgap_send_success w f resolves c ok all_zero refl refl refl,
        ),
      )
