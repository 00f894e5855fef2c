-- ===== src/Send/Loop.antt =====
-- The whole of `send_loop` of src/lib/hgap_send.c: the packets that announce the transfer, the packets
-- of each chunk, and the packets that end it.
use hairgap.Wirehair.{Wirehair, Floating}
use hairgap.Code.{
  Code, to_int, success, err_wirehair_error, err_buffer_too_small, err_network, err_ipc,
}
use hairgap.Encoding.{Chunk}
use hairgap.Encoding.Encode.{Control, handwave, teardown}
use hairgap.Send.Sender.{burst}
use hairgap.Prelude.{
  if◌then◌else◌, replicate, load, Outcome, ret, fault, ◌>>=◌, ℕ, Bool, true, false, not, Option,
  none, some, List, [], ◌∷◌, ◌++◌,
}

-- What `send_loop` hands to the network: the packet of its first salve, the packets of each chunk, and
-- the packet of its last salve; and its `retval` once it has returned. While `ended` is `none` it waits
-- for the next chunk.
pub record Sending : Type 0 where
  pub announced : Option (List ℕ)
  pub groups : List (List (List ℕ))
  pub closed : Option (List ℕ)
  pub ended : Option ℕ

-- The environment of the loop: whether `hgap_sender_new` gives a sender, and whether the first
-- `hgap_sender_control` returns 0, which is when its whole salve went out. The result of the last one is
-- not looked at.
pub record Link : Type 0 where
  pub opened : Bool
  pub heard : Bool

module _ (w : Wirehair) (f : Floating) where
  open w use {State}
  open f use {Double}

  module _ (fuel pkt_size : ℕ) (redund : Double) (announced : List ℕ) where
    -- The end of `send_loop` behind its loop.
    close_down : List ℕ → List (List (List ℕ)) → ℕ → Outcome (Option Sending)
    close_down pkt groups retval = do
      r ← teardown pkt pkt_size
      bytes ← load r.pkt 0 r.size
      ret (
          some (record {
            announced = some announced;
            groups = groups;
            closed = some bytes;
            ended = some retval;
          }))

    -- The while loop of `send_loop`, over the answers of `channel_recv`: a failure, the poison, or a
    -- chunk. Each chunk gets `fuel` emissions; `none` is a run that needs more.
    unfoldable pub send_rounds :
        List ℕ
        → List (List (List ℕ))
        → List (Option (Option (Chunk State)))
        → Outcome (Option Sending)
    unfolding close_down
    send_rounds pkt groups [] =
        ret (
          some
            (record { announced = some announced; groups = groups; closed = none; ended = none }))
    send_rounds pkt groups (none ∷ rs) = ret (
        some (record {
          announced = some announced;
          groups = groups;
          closed = none;
          ended = some (to_int err_ipc);
        }))
    send_rounds pkt groups (some none ∷ rs) = close_down pkt groups (to_int success)
    send_rounds pkt groups (some (some chunk) ∷ rs) =
        burst w f fuel pkt_size redund chunk pkt [] false >>= elim [
          | none ↦ ret none
          | some b ↦ elim b.failed [
            | true ↦ close_down b.pkt (groups ++ (b.sent ∷ [])) (to_int err_wirehair_error)
            | false ↦ send_rounds b.pkt (groups ++ (b.sent ∷ [])) rs
          ]
        ]

  -- A run of `send_loop` that ends before its loop.
  abbrev pub unsent : Code → Sending
  unsent code = record { announced = none; groups = []; closed = none; ended = some (to_int code) }

  -- The packet of the first salve, or the way out.
  after_handwave :
      ℕ
      → ℕ
      → Double
      → Link
      → List (Option (Option (Chunk State)))
      → Control
      → Outcome (Option Sending)
  unfolding send_rounds
  after_handwave fuel pkt_size redund link rs r = elim r.code [
    | success ↦ load r.pkt 0 r.size >>= λ bytes.
        let rounds = send_rounds fuel pkt_size redund bytes r.pkt [] rs in
        if link.heard then rounds else ret (some (unsent err_network))
    | _ ↦ ret (some (unsent err_buffer_too_small))
  ]

  -- `send_loop`. Where there is no sender, `hgap_sender_free` reads through the NULL pointer.
  unfoldable pub send_loop :
      ℕ → ℕ → Double → Link → List (Option (Option (Chunk State))) → Outcome (Option Sending)
  unfolding after_handwave
  send_loop fuel pkt_size redund link rs =
      if not link.opened
      then fault
      else (handwave (replicate pkt_size 0) pkt_size >>= λ r.
          after_handwave fuel pkt_size redund link rs r)
