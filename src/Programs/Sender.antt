-- ===== src/Programs/Sender.antt =====
-- The three threads of `hgap_send`, and that together they end.
use mathlib.Core.Option.{map}
use hairgap.Wirehair.{Wirehair, Floating}
use hairgap.Code.{to_int, success}
use hairgap.Config.{Config, check_config_sender}
use hairgap.Encoding.Encode.{encoder_new}
use hairgap.Send.Reader.{Source, Reader, read_loop, read_result}
use hairgap.Send.Cutting.{granted}
use hairgap.Send.Preparing.{Preparation, encode_loop, encode_result}
use hairgap.Send.Numbering.{CanEncode, offered}
use hairgap.Send.Loop.{Sending, send_loop}
use hairgap.Send.Groups.{CanSend, supplied}
use hairgap.Pipeline.Transport.{prepared}
use hairgap.Session.{System, Returned, sized_buf_len, buf_size, send_shapes, hgap_send}
use hairgap.Session.Results.{hgap_send_joins}
use hairgap.Session.Sizes.{buf_size_bounds}
use hairgap.Prelude.{
  length, Outcome, ret, ◌>>=◌, ℕ, ◌≤◌, ◌≡◌, refl, ap, ap₂, ◌∙◌, Bool, true, Option, none, some,
  List, [], arith, sub64,
}

-- The threads of `hgap_send`: the one that reads, the one that encodes, and the caller's loop.
pub record SendRun (S State : Type 0) : Type 0 where
  pub input : Reader S
  pub prep : Preparation State
  pub output : Sending

-- The results of three threads that have left their loops: of the caller's, and of the two others in the
-- order in which they are joined.
abbrev pub all_ended : Option ℕ → Option ℕ → Option ℕ → Option Returned
all_ended none joined joined_last = none
all_ended (some own) none joined_last = none
all_ended (some own) (some joined) none = none
all_ended (some own) (some joined) (some joined_last) =
    some (record { own = own; joined = joined; joined_last = joined_last })

-- What the threads return, once each has left its loop, where the poison behind it is accepted.
abbrev pub send_returned : {S State : Type 0} → SendRun S State → Option Returned
send_returned r =
    all_ended r.output.ended
      (map (read_result (record { reserved = true; sent = true })) r.input.ended)
      (map (encode_result true) r.prep.ended)

-- A system on which wirehair and both threads start, and the threads return `t`.
abbrev pub running : {C : Type 0} → Returned → System C
running t = record { initialized = true; first_starts = true; second_starts = true; run = λ _ _. t }

-- The run, once the reader thread has left its loop and handed over the poison.
abbrev once_read : {S State : Type 0} → Option ℕ → SendRun S State → Option (SendRun S State)
once_read none r = none
once_read (some retval) r = some r

module _ (w : Wirehair) (f : Floating) {Addr : Type 0} (resolves : Addr → Bool) where
  open w use {State}
  open f use {Double}

  -- The threads of `hgap_send`, in the order in which the data goes through them, on channels that
  -- accept everything and a sender that the network hears: the reader thread gets `rounds` slots of
  -- its channel's size, the encoder thread all buffers of the reader and the poison behind them, and
  -- the loop of the caller all chunks of the encoder and the poison, with `fuel` emissions for each.
  -- `none` is a run that needs more of either.
  unfoldable pub send_run :
      (src : Source) (c : Config Addr Double) (fuel rounds : ℕ)
      → src.State
      → Outcome (Option (SendRun src.State State))
  send_run src c fuel rounds s =
      let size = sub64 (send_shapes c).first.elt_size sized_buf_len in
      elim (read_loop src size s [] (granted rounds)) [
        | none ↦ ret none
        | some read ↦ read >>= λ input.
            let prep = encode_loop w (encoder_new c.pkt_size) [] (offered input.chunks) in
            send_loop w f fuel c.pkt_size c.redund (record { opened = true; heard = true })
              (supplied prep.chunks)
            >>= elim [
              | none ↦ ret none
              | some output ↦
                  ret
                    (once_read input.ended (record { input = input; prep = prep; output = output }))
            ]
      ]

  -- Every chunk that fits the buffer can be encoded and sent within the fuel.
  abbrev pub Serves : Config Addr Double → ℕ → Type 0
  Serves c fuel =
      (m : List ℕ)
      → length m ≤ buf_size c
      → CanEncode w c.pkt_size m × CanSend w f fuel c.pkt_size c.redund m

  pub send_size :
      (c : Config Addr Double)
      → check_config_sender resolves f c ≡ success
      → sub64 (send_shapes c).first.elt_size sized_buf_len ≡ buf_size c
  send_size c e = let (_, pos, few) = buf_size_bounds resolves f c e in omega (arith, few)

  pub send_run_lem :
      (src : Source) (c : Config Addr Double) (fuel rounds : ℕ) (s : src.State)
      (input : Reader src.State) (prep : Preparation State) (output : Sending) {retval : ℕ}
      → input.ended ≡ some retval
      → read_loop src (sub64 (send_shapes c).first.elt_size sized_buf_len) s [] (granted rounds)
        ≡ some (ret input)
      → encode_loop w (encoder_new c.pkt_size) [] (offered input.chunks) ≡ prep
      → send_loop w f fuel c.pkt_size c.redund
          (record { opened = true; heard = true })
          (supplied (prepared w c.pkt_size input.chunks))
        ≡ ret (some output)
      → send_run src c fuel rounds s
        ≡ ret (some (record { input = input; prep = prep; output = output }))
  unfolding send_run
  send_run_lem src c fuel rounds s input prep output over read made sent =
      rw (read, sent, send_run)
        (ap₂ (λ e p. ret (once_read e (record { input = input; prep = p; output = output }))) over
          made)

  -- Where all threads return success, so does `hgap_send`.
  pub hgap_send_success :
      (c : Config Addr Double)
      → check_config_sender resolves f c ≡ success
      → (t : Returned) → t.own ≡ to_int success
      → t.joined ≡ to_int success
      → t.joined_last ≡ to_int success
      → hgap_send resolves f c (running t) ≡ ret (to_int success)
  hgap_send_success c ok t own joined joined_last =
      let (r, eq, j) = hgap_send_joins resolves f c (running t) ok refl refl refl in
      eq ∙ ap ret (j.success_iff.1 (own, joined, joined_last))
