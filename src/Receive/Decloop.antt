-- ===== src/Receive/Decloop.antt =====
-- The decoder thread of src/lib/hgap_receive.c: what it does with each packet that the network
-- thread hands over, and the chunks that it hands to the writer.
use hairgap.Wirehair.{Wirehair}
use hairgap.Code.{Code, to_int, success, eot, err_ipc}
use hairgap.Proto.{Pkt}
use hairgap.Encoding.Decode.{Decoder, decoder_read, decoder_emit}
use hairgap.Prelude.{
  ◌==◌, if◌then◌else◌, ℤ, pos, negsuc, ◌>>=◌, Outcome, ret, ℕ, zero, suc, Bool, true, false, not,
  Option, none, some, List, [], ◌∷◌, ◌++◌,
}

-- A `struct sized_buf` on the channel from the network thread: `content` is its `data` pointer with
-- the memory of the slot behind it, NULL is `none`.
pub record Slot : Type 0 where
  pub size : ℕ
  pub content : Option (List ℕ)

-- What the channels answer during one round: the result of `channel_peek` (NULL is `none`), of
-- `channel_ack`, and of `channel_send` of the decoded chunk.
pub record Turn : Type 0 where
  pub peeked : Option Slot
  pub acked : Bool
  pub sent : Bool

-- How one round ends: it goes on, or it leaves the loop with a `retval`; `poisons` tells whether it
-- poisoned the channel from the network thread. `out` is the chunk that was sent, if one was.
pub data Next (S : Type 0) : Type 0 where
  goes_on : Decoder S → List (List ℕ) → Next S
  breaks : Decoder S → ℕ → Bool → Next S

-- The state of the thread: the decoder, the chunks sent to the writer, and once the loop is left,
-- its `retval` and whether the channel from the network thread was poisoned. While `ended` is
-- `none` the thread waits for the next packet.
pub record Thread (S : Type 0) : Type 0 where
  pub dec : Decoder S
  pub output : List (List ℕ)
  pub ended : Option (ℕ × Bool)

-- `junk` is an uninitialised `struct hgap_pkt`, and `malloc n` the memory that `xmalloc` returns.
module _ (w : Wirehair) (junk : Pkt) (malloc : ℕ → List ℕ) where
  open w use {State}

  -- The end of a round, by the result of `hgap_decoder_emit`.
  after_emit : Bool → Decoder State × List ℕ × Code → Next State
  after_emit sent (dec, chunk, success) =
      if sent then goes_on dec (chunk ∷ []) else breaks dec (to_int err_ipc) false
  after_emit sent (dec, chunk, code) = breaks dec (to_int code) true

  -- The middle of a round, by the result of `hgap_decoder_read`.
  after_read : Bool → Decoder State → ℤ → Outcome (Next State)
  unfolding after_emit
  after_read sent dec (pos zero) = ret (goes_on dec [])
  after_read sent dec (negsuc n) =
      ret
        (if suc n == to_int eot then breaks dec (to_int success) false else breaks dec (suc n) true)
  after_read sent dec (pos (suc n)) =
      decoder_emit w dec (malloc (suc n)) (suc n) >>= λ r. ret (after_emit sent r)

  -- One round of the loop of `decloop`.
  unfoldable pub round : Decoder State → Turn → Outcome (Next State)
  unfolding after_read
  round dec t = elim t.peeked [
    | none ↦ ret (breaks dec (to_int err_ipc) false)
    | some slot ↦ elim slot.content [
      | none ↦ ret (breaks dec (to_int success) false)
      | some raw ↦ decoder_read w junk dec raw slot.size >>= λ r.
          if not t.acked then ret (breaks r.0 (to_int err_ipc) false) else after_read t.sent r.0 r.1
    ]
  ]

  -- The loop of `decloop`, from a decoder and the chunks sent so far.
  unfoldable pub loop : Decoder State → List (List ℕ) → List Turn → Outcome (Thread State)
  loop dec sent [] = ret (record { dec = dec; output = sent; ended = none })
  loop dec sent (t ∷ ts) = round dec t >>= elim [
    | goes_on dec' out ↦ loop dec' (sent ++ out) ts
    | breaks dec' retval poisons ↦
        ret (record { dec = dec'; output = sent; ended = some (retval, poisons) })
  ]

  -- The end of `decloop`: the poison pill, whose `channel_send` answers `pill`, and the result.
  unfoldable pub result : Bool → ℕ → ℕ
  result pill retval =
      if pill then retval else (if retval == to_int success then to_int err_ipc else retval)
