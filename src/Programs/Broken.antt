-- ===== src/Programs/Broken.antt =====
-- `hgap_send` on an input that may fail, and what the receiver makes of it.
use hairgap.Wirehair.{Wirehair, Floating, Recovers}
use hairgap.Code.{to_int, success, err_file_read, select_error}
use hairgap.Config.{Config, check_config_sender, check_config_receiver}
use hairgap.Proto.{
  Pkt, begin, end, first_reserved, pkt_type, header_bytes, header_begin, header_end,
}
use hairgap.Proto.Layout.{length-header_bytes}
use hairgap.Encoding.Encode.{encoder_new}
use hairgap.Send.Reader.{Source, Reader, read_result}
use hairgap.Send.Preparing.{encode_result}
use hairgap.Send.Cutting.{IsCut, IsStdio}
use hairgap.Send.Failing.{read_loop-stops}
use hairgap.Pipeline.Arrivals.{Arrival, copy}
use hairgap.Pipeline.Flight.{AllArrive}
use hairgap.Pipeline.Onward.{landed, onward, onward_goes_on, OtherFits, onward-Fits}
use hairgap.Pipeline.Transport.{carried, begin_type, end_type}
use hairgap.Receive.Forwarding.{intake, intakes}
use hairgap.Receive.Network.{Intake}
use hairgap.Session.{Returned, conduct, mtu, buf_size, hgap_send}
use hairgap.Session.Sizes.{buf_size_bounds}
use hairgap.Socket.{inaddr_none}
use hairgap.Programs.Sender.{SendRun, send_returned, running, send_run, Serves, hgap_send_success}
use hairgap.Programs.Sent.{IsSent, read-IsSent}
use hairgap.Programs.Received.{Received}
use hairgap.Programs.Landed.{received_of}
use hairgap.Prelude.{
  concat, All, ◌≤◌, length, length-append, ret, ℕ, ◌<◌, ◌≡◌, ◌≢◌, ◌⊎◌, inl, inr, refl, sym, ap, ◌∙◌,
  subst, Bool, some, List, [], ◌∷◌, ◌++◌, arith,
}

module _ (w : Wirehair) (f : Floating) {Addr : Type 0} (resolves : Addr → Bool)
    (c : Config Addr f.Double) (ok : check_config_sender resolves f c ≡ success) where
  open w use {State}

  -- The error of the reader thread is the result.
  hgap_send_failed :
      hgap_send resolves f c (
        running (record {
          own = to_int success;
          joined = to_int err_file_read;
          joined_last = to_int success;
        }))
      ≡ ret (to_int err_file_read)
  unfolding hgap_send conduct select_error
  hgap_send_failed = rw (ok, hgap_send) refl

  module _ (fuel : ℕ) (serves : Serves w f resolves c fuel) (law : Recovers w) (src : Source)
      (rest : src.State → List ℕ) (io : IsStdio src rest) (s : src.State) (rounds : ℕ)
      (enough : length (rest s) < rounds) (few : length (rest s) < first_reserved) where
    -- A run of the threads, how far it read, and why it stopped there.
    stopped :
        (r : SendRun src.State State) × (tail : List ℕ) × (retval : ℕ) × (send_run w f resolves src
            c fuel rounds s
          ≡ ret (some r))
        × (concat r.input.chunks ++ tail ≡ rest s)
        × IsCut (buf_size c) r.input.chunks
        × (r.input.ended ≡ some retval)
        × (((retval ≡ to_int success) × (tail ≡ [])) ⊎ (retval ≡ to_int err_file_read))
        × IsSent w f c fuel src s rounds r
    stopped =
        let (sized, pos, small) = buf_size_bounds resolves f c ok in
        let (s', out, tail, retval, read, all, cut, why) =
          read_loop-stops src rest io (buf_size c) pos (omega (arith, small)) rounds s [] enough in
        let (r, run, input, v) =
          read-IsSent w f resolves c ok fuel serves law src s rounds s' out retval read cut
            (omega (arith, ap length all, length-append (concat out) tail, few)) in
        let same : r.input.chunks ≡ out = ap (λ (i : Reader src.State). i.chunks) input in
        (
          r,
          tail,
          retval,
          run,
          ap (λ ms. concat ms ++ tail) same ∙ all,
          subst (IsCut (buf_size c)) (sym same) cut,
          ap (λ (i : Reader src.State). i.ended) input,
          why,
          v,
        )

  -- On channels that accept everything, a network that hears the first salve and a configuration
  -- that the sender accepts, where wirehair recovers what it encoded and every chunk that fits the
  -- buffer is encoded and sent within the fuel, on an input that behaves as stdio documents, errors
  -- included, and has fewer bytes than there are chunk numbers, with a round for each byte and one
  -- more: the threads of `hgap_send` end, and the reader's chunks are a front of the input; the
  -- packet that ends the transfer is sent in any case; and `hgap_send` returns success, with the
  -- whole input read, or HGAP_ERR_FILE_READ.
  pub hgap_send_stops :
      (fuel : ℕ)
      → Serves w f resolves c fuel
      → Recovers w
      → (src : Source) (rest : src.State → List ℕ) → IsStdio src rest
      → (s : src.State) (rounds : ℕ) → length (rest s) < rounds
      → length (rest s) < first_reserved
      → (r : SendRun src.State State) × (tail : List ℕ) × (t : Returned) × (send_run w f resolves
            src c fuel rounds s
          ≡ ret (some r))
        × (concat r.input.chunks ++ tail ≡ rest s)
        × (r.output.closed ≡ some (header_bytes header_end))
        × (send_returned r ≡ some t)
        × (((hgap_send resolves f c (running t) ≡ ret (to_int success)) × (tail ≡ []))
            ⊎ (hgap_send resolves f c (running t) ≡ ret (to_int err_file_read)))
  unfolding read_result encode_result
  hgap_send_stops fuel serves law src rest io s rounds enough few =
      let (r, tail, retval, run, all, _, ended, why, v) =
        stopped fuel serves law src rest io s rounds enough few in
      let t : Returned = record {
        own = to_int success;
        joined = retval;
        joined_last = to_int success;
      } in
      (
        r,
        tail,
        t,
        run,
        all,
        v.closed,
        rw (ended, v.encode_ended, v.send_ended) refl,
        elim why [
          | inl (good, whole) ↦ inl (hgap_send_success w f resolves c ok t refl good refl, whole)
          | inr bad ↦ inr (rw bad hgap_send_failed)
        ],
      )

-- On channels that accept everything and an output that takes every chunk whole, where wirehair
-- recovers what it encoded and malloc gives as many bytes as asked for: where `hgap_send`, on a
-- configuration that it accepts and for which every chunk that fits the buffer is encoded and
-- sent within the fuel, and on an input that behaves as stdio documents, errors included, and has
-- fewer bytes than there are chunk numbers, has run with all its threads, with a round for each
-- byte and one more, and of its packets the first one, enough of each chunk in whatever order and
-- number before the next, and the last one arrive, with whatever other packets between that are
-- not data and do not end a transfer, and anything behind: the threads of `hgap_receive`, on a
-- configuration that it accepts, whose packet size is not below the sender's nor below any other
-- packet that arrives, and a socket that can be used, end, what they wrote is the chunks of the
-- reader thread, and `hgap_receive` returns success, whether the input failed or not.
pub hgap_transported_front :
    (w : Wirehair) (f : Floating)
    → Recovers w
    → (junk : Pkt) (malloc : ℕ → List ℕ) → ((n : ℕ) → length (malloc n) ≡ n)
    → {Addr : Type 0} (resolves : Addr → Bool) (c : Config Addr f.Double)
    → check_config_sender resolves f c ≡ success
    → (fuel : ℕ) → Serves w f resolves c fuel
    → (src : Source) (rest : src.State → List ℕ) → IsStdio src rest
    → (s : src.State) (rounds : ℕ) → length (rest s) < rounds
    → length (rest s) < first_reserved
    → (r : SendRun src.State w.State) → send_run w f resolves src c fuel rounds s ≡ ret (some r)
    → (arrivals : List (List Arrival)) (first last before after : List ℕ)
    → r.output.announced ≡ some first
    → r.output.closed ≡ some last
    → AllArrive w (encoder_new c.pkt_size) r.input.chunks r.output.groups arrivals
    → {Addr' D : Type 0} (resolves' : Addr' → Bool) (c' : Config Addr' D)
    → check_config_receiver resolves' c' ≡ success
    → c.pkt_size ≤ mtu c'
    → All (All (OtherFits (mtu c'))) arrivals
    → (fd address : ℕ) → address ≢ inaddr_none
    → (later : List Intake)
    → Received w junk malloc resolves' c' fd address
        (intakes (landed (copy first before) ∷ onward arrivals)
          ++ (intake (landed (copy last after)) ∷ later))
        (concat r.input.chunks)
        (to_int success)
hgap_transported_front w f law junk malloc alloc resolves c ok fuel serves src rest io s rounds
      enough few r run arrivals first last before after announced closed got resolves' c' ok' room
      others fd address usable later =
    let (r', _, _, run', _, cut', _, _, v') =
      stopped w f resolves c ok fuel serves law src rest io s rounds enough few in
    let same : r' ≡ r = cc (run, run') in
    let v = subst (IsSent w f c fuel src s rounds) same v' in
    let cut =
      subst (λ (q : SendRun src.State w.State). IsCut (buf_size c) q.input.chunks) same cut' in
    let (sized, pos, small) = buf_size_bounds resolves f c ok in
    let first_is : first ≡ header_bytes header_begin = cc (announced, v.announced) in
    let last_is : last ≡ header_bytes header_end = cc (closed, v.closed) in
    let begins : pkt_type (first ++ before) (length first) ≡ begin =
      rw (first_is, length-header_bytes header_begin) (begin_type before) in
    let ends : pkt_type (last ++ after) (length last) ≡ end =
      rw (last_is, length-header_bytes header_end) (end_type after) in
    let quiet =
      onward_goes_on w (encoder_new c.pkt_size) r.input.chunks r.output.groups arrivals
        (omega (arith, v.can.numbered)) v.can.holds_header v.can.size_fits v.can.sized v.groups
        got in
    let begin_fits : length first ≤ mtu c' =
      omega
        (arith, ap length first_is, length-header_bytes header_begin, room, v.can.holds_header) in
    let end_fits : length last ≤ mtu c' =
      omega (arith, ap length last_is, length-header_bytes header_end, room, v.can.holds_header) in
    let fits =
      onward-Fits w (mtu c') (encoder_new c.pkt_size) r.input.chunks r.output.groups arrivals
        v.can.holds_header room v.groups got others in
    let (t, decoded, ended, written) =
      carried w f law fuel c.pkt_size c.redund r.input.chunks v.can r.output v.sent junk malloc
        alloc (buf_size c) arrivals first last before after pos cut announced closed got in
    received_of w junk malloc resolves' c' fd address (landed (copy first before))
      (landed (copy last after)) arrivals later (concat r.input.chunks) t ok' usable
      ((λ e. cc (begins, e)), quiet) ends (begin_fits, fits) end_fits decoded ended written
