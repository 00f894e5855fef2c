-- ===== src/Programs/Receiver.antt =====
-- The three threads of `hgap_receive`.
use mathlib.Core.Option.{map}
use hairgap.Wirehair.{Wirehair}
use hairgap.Code.{to_int, success}
use hairgap.Config.{Config, check_config_receiver}
use hairgap.Proto.{Pkt}
use hairgap.Encoding.Decode.{Decoder, decoder_new}
use hairgap.Receive.Decloop.{Slot, Turn, Thread, Next, goes_on, breaks, round, loop, result}
use hairgap.Receive.Network.{Intake}
use hairgap.Receive.Socket.{Binding, NetReader, net_reader}
use hairgap.Receive.Writer.{Writer, write_loop}
use hairgap.Receive.Output.{whole}
use hairgap.Session.{Returned, mtu, conduct, hgap_receive}
use hairgap.Programs.Sender.{all_ended, running}
use hairgap.Prelude.{
  false, if◌then◌else◌, ap₂, Outcome, ret, exited, fault, ◌>>=◌, ℕ, ◌≡◌, refl, ap, Bool, true,
  Option, none, some, List, [], ◌∷◌, ◌++◌,
}

-- The threads of `hgap_receive`: the caller's loop, which reads the network, the one that decodes, and
-- the one that writes.
pub record ReceiveRun (State : Type 0) : Type 0 where
  pub net : NetReader
  pub dec : Thread State
  pub file : Writer

-- A slot that the decoder thread gets, on channels that accept everything.
abbrev pub slot_turn : Slot → Turn
slot_turn s = record { peeked = some s; acked = true; sent = true }

abbrev pub slot_turns : List Slot → List Turn
slot_turns [] = []
slot_turns (s ∷ ss) = slot_turn s ∷ slot_turns ss

pub slot_turns-append : (ss ts : List Slot) → slot_turns (ss ++ ts) ≡ slot_turns ss ++ slot_turns ts
slot_turns-append [] ts = refl
slot_turns-append (s ∷ ss) ts = ap (λ us. slot_turn s ∷ us) (slot_turns-append ss ts)

-- What the network thread hands over: its slots, and the poison, whose size nobody looks at.
abbrev pub poison_slot : Slot
poison_slot = record { size = 0; content = none }

abbrev pub handed : NetReader → List Slot
handed n = if n.poisoned then n.slots ++ (poison_slot ∷ []) else n.slots

-- The run, once the network thread and the decoder thread have left their loops.
abbrev once_ended :
    {State : Type 0} → Option ℕ → Option (ℕ × Bool) → ReceiveRun State → Option (ReceiveRun State)
once_ended none d r = none
once_ended (some retval) none r = none
once_ended (some retval) (some e) r = some r

module _ (w : Wirehair) (junk : Pkt) (malloc : ℕ → List ℕ) where
  open w use {State}

  -- The threads of `hgap_receive`, in the order in which the data goes through them, on channels that
  -- accept everything and an output that takes every chunk whole: the caller reads the network, the
  -- decoder thread gets its slots and the poison behind them, and the writer thread all chunks of the
  -- decoder and the poison behind them. `none` is a run in which a thread waits for ever.
  unfoldable pub receive_run :
      {Addr D : Type 0}
      → Binding
      → Bool
      → Config Addr D
      → List Intake
      → Outcome (Option (ReceiveRun State))
  receive_run b sets c is = do
    net ← net_reader b sets (mtu c) c.timeout (record { reserved = true; sent = true }) is
    dec ← loop w junk malloc decoder_new [] (slot_turns (handed net))
    ret (
        once_ended net.result dec.ended
          (record { net = net; dec = dec; file = write_loop [] (whole dec.output) }))

  -- What the threads return, where the poison behind the decoder thread's loop is accepted.
  abbrev pub receive_returned : ReceiveRun State → Option Returned
  receive_returned r =
      all_ended r.net.result (map (λ e. result w junk malloc true e.0) r.dec.ended) r.file.ended

  -- What the loop of the decoder thread does behind one round.
  abbrev behind : List (List ℕ) → List Turn → Outcome (Next State) → Outcome (Thread State)
  behind out ts r = r >>= elim [
    | goes_on dec' sent ↦ loop w junk malloc dec' (out ++ sent) ts
    | breaks dec' retval poisons ↦
        ret (record { dec = dec'; output = out; ended = some (retval, poisons) })
  ]

  behind-ended :
      (out : List (List ℕ)) (ts ts' : List Turn) {t : Thread State}
      → ((dec : Decoder State) (out' : List (List ℕ))
          → loop w junk malloc dec out' ts ≡ ret t
          → loop w junk malloc dec out' ts' ≡ ret t)
      → (r : Outcome (Next State)) → behind out ts r ≡ ret t
      → behind out ts' r ≡ ret t
  behind-ended out ts ts' same (ret (goes_on dec sent)) h = same dec (out ++ sent) h
  behind-ended out ts ts' same (ret (breaks dec retval poisons)) h = h
  behind-ended out ts ts' same exited h = h
  behind-ended out ts ts' same fault h = h

  -- What comes behind the end of the decoder thread's loop is not looked at.
  pub loop-ended :
      (dec : Decoder State) (out : List (List ℕ)) (ts more : List Turn) {t : Thread State}
      {e : ℕ × Bool}
      → loop w junk malloc dec out ts ≡ ret t
      → t.ended ≡ some e
      → loop w junk malloc dec out (ts ++ more) ≡ ret t
  unfolding loop
  loop-ended dec out [] more h x = cc
  loop-ended dec out (u ∷ ts) more h x =
      behind-ended out ts (ts ++ more) (λ dec' out' h'. loop-ended dec' out' ts more h' x)
        (round w junk malloc dec u) h

  -- A run, by what its threads do.
  pub receive_run_lem :
      {Addr D : Type 0} (b : Binding) (c : Config Addr D) (is : List Intake) (net : NetReader)
      (dec : Thread State) {retval : ℕ} {e : ℕ × Bool}
      → net_reader b true (mtu c) c.timeout (record { reserved = true; sent = true }) is ≡ ret net
      → net.result ≡ some retval
      → net.poisoned ≡ true
      → loop w junk malloc decoder_new [] (slot_turns net.slots ++ (slot_turn poison_slot ∷ []))
        ≡ ret dec
      → dec.ended ≡ some e
      → receive_run b true c is
        ≡ ret (some (record { net = net; dec = dec; file = write_loop [] (whole dec.output) }))
  unfolding receive_run
  receive_run_lem b c is net dec read over poisoned decoded ended =
      let same : slot_turns (handed net) ≡ slot_turns net.slots ++ (slot_turn poison_slot ∷ []) =
        rw poisoned (slot_turns-append net.slots (poison_slot ∷ [])) in
      let went : loop w junk malloc decoder_new [] (slot_turns (handed net)) ≡ ret dec =
        rw same decoded in
      let run : ReceiveRun State = record {
        net = net;
        dec = dec;
        file = write_loop [] (whole dec.output);
      } in
      rw (read, went, receive_run) (ap₂ (λ a d. ret (once_ended a d run)) over ended)

  -- The poison ends the decoder thread with success, whatever it has put together.
  pub loop-poison :
      (dec : Decoder State) (out : List (List ℕ))
      → loop w junk malloc dec out (slot_turn poison_slot ∷ [])
        ≡ ret (record { dec = dec; output = out; ended = some (to_int success, false) })
  unfolding loop round
  loop-poison dec out = refl

module _ {Addr D : Type 0} (resolves : Addr → Bool) where
  -- Where the two threads return success, `hgap_receive` returns what the caller's loop did.
  pub hgap_receive_own :
      (c : Config Addr D)
      → check_config_receiver resolves c ≡ success
      → (own : ℕ)
      → hgap_receive resolves c
          (running (record { own = own; joined = to_int success; joined_last = to_int success }))
        ≡ ret own
  unfolding hgap_receive conduct
  hgap_receive_own c ok own = rw (ok, hgap_receive) refl
