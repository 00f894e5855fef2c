-- ===== src/Receive/Socket.antt =====
-- The socket of the receiver, and the whole of `hgapr_net_reader` of src/lib/hgap_receive.c around its
-- loop. What the calls of the system answer is a parameter.
use hairgap.Code.{to_int, err_network}
use hairgap.Limiter.{Timeval}
use hairgap.Receive.Decloop.{Slot}
use hairgap.Receive.Network.{Intake, Network, net_loop, net_result}
use hairgap.Socket.{inaddr_none}
use hairgap.Prelude.{
  ◌==◌, if◌then◌else◌, Outcome, ret, exited, ◌>>=◌, ℕ, ◌/◌, ◌%◌, Bool, false, not, ◌&&◌, Option,
  none, some, List, [], ◌∷◌, ◌++◌,
}

-- The answers to `socket`, `inet_addr` and `bind`; -1 of the first is `none`.
pub record Binding : Type 0 where
  pub socket : Option ℕ
  pub inet_addr : ℕ
  pub bound : Bool

-- `hgapr_open_udp_socket`: the socket, -1 is `none`, and those that it closed.
unfoldable pub open_udp_socket : Binding → Option ℕ × List ℕ
open_udp_socket b = elim b.socket [
  | none ↦ (none, [])
  | some fd ↦
      if b.inet_addr == inaddr_none
      then (none, fd ∷ [])
      else (if b.bound then (some fd, []) else (none, fd ∷ []))
]

-- The `struct timeval` of `hgapr_set_socket_timeout`.
abbrev pub timeout_of : ℕ → Timeval
timeout_of timeout = record { tv_sec = timeout / 1000000; tv_usec = timeout % 1000000 }

-- The answers to the poison pill: whether `channel_reserve` gives a slot, and whether
-- `channel_send_reserved` accepts it.
pub record Pill : Type 0 where
  pub reserved : Bool
  pub sent : Bool

-- What `hgapr_net_reader` leaves: the slots handed over, the sockets closed, the timeout if it was set,
-- whether the poison was handed over, and its result. While its loop waits, the last is `none`.
pub record NetReader : Type 0 where
  pub slots : List Slot
  pub closed : List ℕ
  pub timeout : Option Timeval
  pub poisoned : Bool
  pub result : Option ℕ

-- The part of `hgapr_net_reader` behind its loop, on the socket `fd`, given those that were closed
-- before.
unfoldable pub closing : ℕ → List ℕ → ℕ → Pill → Network → NetReader
unfolding net_result
closing fd closed timeout pill n =
    let set = if n.started then some (timeout_of timeout) else none in
    elim n.ended [
      | none ↦ record {
        slots = n.slots;
        closed = closed;
        timeout = set;
        poisoned = false;
        result = none;
      }
      | some retval ↦ record {
        slots = n.slots;
        closed = closed ++ (fd ∷ []);
        timeout = set;
        poisoned = pill.reserved && pill.sent;
        result = some (net_result pill.reserved pill.sent retval);
      }
    ]

-- Without a socket, the loop is jumped over.
unfoldable pub unopened : List ℕ → Pill → NetReader
unfolding net_result
unopened closed pill = record {
  slots = [];
  closed = closed;
  timeout = none;
  poisoned = pill.reserved && pill.sent;
  result = some (net_result pill.reserved pill.sent (to_int err_network));
}

-- The body of `hgapr_net_reader`, given the socket and those that were closed. `sets` tells whether
-- `setsockopt` succeeds, without which the process ends; `mtu` is the size of a slot's data.
unfoldable pub after_open :
    Bool → ℕ → ℕ → Pill → List Intake → Option ℕ → List ℕ → Outcome NetReader
unfolding net_loop closing unopened
after_open sets mtu timeout pill is none closed = ret (unopened closed pill)
after_open sets mtu timeout pill is (some fd) closed = do
  n ← net_loop mtu false [] is
  if n.started && not sets then exited else ret (closing fd closed timeout pill n)

-- `hgapr_net_reader`
unfoldable pub net_reader : Binding → Bool → ℕ → ℕ → Pill → List Intake → Outcome NetReader
unfolding open_udp_socket after_open
net_reader b sets mtu timeout pill is =
    let (fd, closed) = open_udp_socket b in after_open sets mtu timeout pill is fd closed
