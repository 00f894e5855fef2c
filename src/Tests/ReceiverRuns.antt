-- ===== src/Tests/ReceiverRuns.antt =====
-- Runs of the threads of src/lib/hgap_receive.c together, on packets as they come in.
use hairgap.Code.{to_int, success, err_network, err_timeout}
use hairgap.Proto.{header_bytes, header_begin, header_end}
use hairgap.Receive.Network.{slot_of}
use hairgap.Receive.Forwarding.{Arrived, intake, any_begin}
use hairgap.Receive.Socket.{Binding, NetReader, open_udp_socket, unopened, after_open, net_reader}
use hairgap.Receive.Reader.{opened, net_reader_whole, net_reader_closes}
use hairgap.Receive.Network.{net_result}
use hairgap.Config.{check_config_receiver}
use hairgap.Receive.Forwarding.{Fits, intakes, silence}
use hairgap.Session.{mtu}
use hairgap.Programs.Received.{Received}
use hairgap.Programs.Interrupted.{
  landed_events, landed_all, hgap_receive_interrupted, hgap_receive_truncated,
}
use hairgap.Tests.ConfigRuns.{config, resolves}
use hairgap.Tests.Toy.{toy, toy-Recovers}
use hairgap.Prelude.{
  All, if◌then◌else◌, true, length-replicate, ret, ℕ, ◌≡◌, refl, false, none, some, [], ◌∷◌, ◌++◌,
  arith,
}
use hairgap.Tests.TransferRuns.{
  junk, zeros, large, small, cut, small-IsDelivery, cut-IsUnfinished, beacon_type, end_type,
}

abbrev beacon_arrived : Arrived
beacon_arrived = record { raw = header_bytes header_begin; size = 24 }

abbrev end_arrived : Arrived
end_arrived = record { raw = header_bytes header_end; size = 24 }

-- The packet behind the end is not handed over.
net_reader_whole_example :
    net_reader
      (record { socket = some 3; inet_addr = 16777343; bound = true })
      true
      1400
      2500000
      (record { reserved = true; sent = true })
      (intake beacon_arrived ∷ intake end_arrived ∷ intake beacon_arrived ∷ [])
    ≡ ret (record {
      slots = slot_of (header_bytes header_begin) 24 ∷ slot_of (header_bytes header_end) 24 ∷ [];
      closed = 3 ∷ [];
      timeout =
          if any_begin (beacon_arrived ∷ [])
          then some (record { tv_sec = 2; tv_usec = 500000 })
          else none;
      poisoned = true;
      result = some (to_int success);
    })
net_reader_whole_example =
    net_reader_whole 3 16777343 1400 2500000 (beacon_arrived ∷ []) end_arrived
      (intake beacon_arrived ∷ []) (omega arith) (λ e. cc (beacon_type, e), tt) end_type

-- An address in use: the socket is made, cannot be bound, and is closed.
abbrev taken : Binding
taken = record { socket = some 3; inet_addr = 16777343; bound = false }

abbrev unread : NetReader
unread = record {
  slots = [];
  closed = 3 ∷ [];
  timeout = none;
  poisoned = true;
  result = some (to_int err_network);
}

taken_refused :
    net_reader taken true 1400 1000000
      (record { reserved = true; sent = true })
      (intake beacon_arrived ∷ [])
    ≡ ret unread
unfolding net_reader open_udp_socket after_open unopened net_result
taken_refused = refl

net_reader_closes_example : unread.closed ≡ opened taken
net_reader_closes_example =
    net_reader_closes taken true 1400 1000000 (record { reserved = true; sent = true })
      (intake beacon_arrived ∷ []) taken_refused refl

config_accepted : check_config_receiver resolves config ≡ success
unfolding check_config_receiver
config_accepted = refl

fitting :
    All
      (Fits (mtu config))
      (beacon_arrived ∷ (landed_all (small ∷ []) ++ landed_events large.parcel cut))
fitting = (omega arith, (omega arith, (omega arith, (omega arith, tt))))

hgap_receive_interrupted_example :
    Received toy junk zeros resolves config 3 16777343
      (intakes (beacon_arrived ∷ (landed_all (small ∷ []) ++ landed_events large.parcel cut))
        ++ (silence ∷ []))
      (6 ∷ 7 ∷ [])
      (to_int err_timeout)
hgap_receive_interrupted_example =
    hgap_receive_interrupted toy junk zeros (λ n. length-replicate {0} {A = ℕ} n 0) toy-Recovers
      resolves config config_accepted 3 16777343 (omega arith) (small ∷ []) large.parcel cut
      beacon_arrived beacon_type (omega arith) (omega arith) (small-IsDelivery, tt) cut-IsUnfinished
      fitting []

hgap_receive_truncated_example :
    Received toy junk zeros resolves config 3 16777343
      (intakes (beacon_arrived ∷ (landed_all (small ∷ []) ++ landed_events large.parcel cut))
        ++ (intake end_arrived ∷ []))
      (6 ∷ 7 ∷ [])
      (to_int success)
hgap_receive_truncated_example =
    hgap_receive_truncated toy junk zeros (λ n. length-replicate {0} {A = ℕ} n 0) toy-Recovers
      resolves config config_accepted 3 16777343 (omega arith) (small ∷ []) large.parcel cut
      beacon_arrived beacon_type (omega arith) (omega arith) (small-IsDelivery, tt) cut-IsUnfinished
      fitting end_arrived [] (omega arith) end_type
