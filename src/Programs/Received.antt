-- ===== src/Programs/Received.antt =====
-- What `hgap_receive` does on what arrives, in terms of what its threads do.
use hairgap.Wirehair.{Wirehair}
use hairgap.Code.{to_int, success}
use hairgap.Config.{Config, check_config_receiver}
use hairgap.Proto.{Pkt}
use hairgap.Encoding.Decode.{decoder_new}
use hairgap.Receive.Decloop.{Thread, loop, result}
use hairgap.Receive.Network.{Intake}
use hairgap.Receive.Socket.{NetReader, net_reader}
use hairgap.Receive.Writer.{Writer, write_loop}
use hairgap.Receive.Output.{whole}
use hairgap.Session.{Returned, mtu, hgap_receive}
use hairgap.Programs.Sender.{running}
use hairgap.Programs.Receiver.{
  ReceiveRun, slot_turn, slot_turns, poison_slot, receive_run, receive_returned, receive_run_lem,
  hgap_receive_own,
}
use hairgap.Prelude.{ret, ℕ, ◌≡◌, refl, ap, Bool, true, false, some, List, [], ◌∷◌, ◌++◌}

module _ (w : Wirehair) (junk : Pkt) (malloc : ℕ → List ℕ) {Addr D : Type 0}
    (resolves : Addr → Bool) (c : Config Addr D) where
  -- The threads of `hgap_receive`, on what arrives on a socket `fd` that could be bound to an address,
  -- wrote `bytes` and ended, and `hgap_receive` returns `status`.
  abbrev pub Received : ℕ → ℕ → List Intake → List ℕ → ℕ → Type 0
  Received fd address is bytes status =
      (r : ReceiveRun w.State) × (receive_run w junk malloc
          (record { socket = some fd; inet_addr = address; bound = true }) true c is
        ≡ ret (some r))
      × (r.file.out ≡ bytes)
      × ((t : Returned) × (receive_returned w junk malloc r ≡ some t)
          × (hgap_receive resolves c (running t) ≡ ret status))

  -- A decoder thread and a writer that end with success.
  pub received_by :
      (fd address : ℕ) (is : List Intake) (bytes : List ℕ) (status : ℕ) (net : NetReader)
      (t : Thread w.State)
      → check_config_receiver resolves c ≡ success
      → net_reader
          (record { socket = some fd; inet_addr = address; bound = true })
          true
          (mtu c)
          c.timeout
          (record { reserved = true; sent = true })
          is
        ≡ ret net
      → net.result ≡ some status
      → net.poisoned ≡ true
      → loop w junk malloc decoder_new [] (slot_turns net.slots ++ (slot_turn poison_slot ∷ []))
        ≡ ret t
      → t.ended ≡ some (to_int success, false)
      → write_loop [] (whole t.output) ≡ record { out = bytes; ended = some (to_int success) }
      → Received fd address is bytes status
  unfolding result
  received_by fd address is bytes status net t ok read over poisoned run ended written =
      let all : Returned = record {
        own = status;
        joined = to_int success;
        joined_last = to_int success;
      } in
      (
        record { net = net; dec = t; file = write_loop [] (whole t.output) },
        receive_run_lem w junk malloc
            (record { socket = some fd; inet_addr = address; bound = true }) c is net t read over
            poisoned run ended,
        ap (λ (b : Writer). b.out) written,
        (all, rw (over, ended, written) refl, hgap_receive_own resolves c ok status),
      )
