-- ===== src/Receive/Network.antt =====
-- The network thread of src/lib/hgap_receive.c: it hands over what arrives on the socket. Opening the
-- socket and setting its timeout are system calls; `started` tells whether the timeout was set.
use hairgap.Code.{to_int, success, err_timeout, err_network, err_ipc}
use hairgap.Proto.{PktType, begin, end, pkt_type}
use hairgap.Receive.Decloop.{Slot}
use hairgap.Prelude.{
  leb, take, if◌then◌else◌, Outcome, ret, exited, ℕ, Bool, true, false, not, ◌||◌, Option, none,
  some, List, [], ◌∷◌, ◌++◌,
}

-- What comes to `recvfrom`: a datagram, with its size and, from its first byte on, what would stand in a
-- slot that holds all of it; or the call fails, by the timeout or otherwise.
pub data Datagram : Type 0 where
  received : List ℕ → ℕ → Datagram
  timed_out failed : Datagram

-- What `recvfrom` leaves in the slot and returns, with a third argument of `mtu`: the rest of a longer
-- datagram is lost.
abbrev pub kept : ℕ → List ℕ → ℕ → List ℕ
kept mtu raw size = if leb size mtu then raw else take mtu raw

abbrev pub kept_size : ℕ → ℕ → ℕ
kept_size mtu size = if leb size mtu then size else mtu

-- One round: whether `channel_reserve` gives a slot, the datagram, and whether
-- `channel_send_reserved` accepts it.
pub record Intake : Type 0 where
  pub reserved : Bool
  pub datagram : Datagram
  pub sent : Bool

-- The network thread: whether the transfer has begun, the slots handed over, and its `retval` once
-- the loop is left.
pub record Network : Type 0 where
  pub started : Bool
  pub slots : List Slot
  pub ended : Option ℕ

abbrev pub is_begin : PktType → Bool
is_begin begin = true
is_begin t = false

abbrev pub is_end : PktType → Bool
is_end end = true
is_end t = false

abbrev pub slot_of : List ℕ → ℕ → Slot
slot_of raw size = record { size = size; content = some raw }

-- The end of a round of `hgapr_net_reader`, given what the loop does next.
after_send : Bool → PktType → Bool → List Slot → List Slot → Outcome Network → Outcome Network
after_send sent t started slots slots' more =
    if not sent
    then ret (record { started = started; slots = slots; ended = some (to_int err_ipc) })
    else (if is_end t
        then ret (record { started = started; slots = slots'; ended = some (to_int success) })
        else more)

-- The loop of `hgapr_net_reader`, with slots for `mtu` bytes.
unfoldable pub net_loop : ℕ → Bool → List Slot → List Intake → Outcome Network
unfolding after_send
net_loop mtu started slots [] = ret (record { started = started; slots = slots; ended = none })
net_loop mtu started slots (i ∷ is) = if not i.reserved then exited else elim i.datagram [
  | timed_out ↦ ret (record { started = started; slots = slots; ended = some (to_int err_timeout) })
  | failed ↦ ret (record { started = started; slots = slots; ended = some (to_int err_network) })
  | received raw size ↦
      let raw' = kept mtu raw size in
      let size' = kept_size mtu size in
      let t = pkt_type raw' size' in
      let started' = started || is_begin t in
      let slots' = slots ++ (slot_of raw' size' ∷ []) in
      after_send i.sent t started' slots slots' (net_loop mtu started' slots' is)
]

-- The poison pill behind the loop, and the result: `channel_reserve` and `channel_send_reserved`.
unfoldable pub net_result : Bool → Bool → ℕ → ℕ
net_result reserved sent retval =
    if reserved then (if sent then retval else to_int err_ipc) else retval
