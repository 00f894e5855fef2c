-- ===== src/Send/Sender.antt =====
-- The sending thread of src/lib/hgap_send.c: it emits and sends the packets of each chunk until the
-- redundancy is reached.
use hairgap.Wirehair.{Wirehair, Floating}
use hairgap.Encoding.{Chunk}
use hairgap.Encoding.Encode.{Emitted, chunk_emit}
use hairgap.Prelude.{
  load, Outcome, ret, ◌>>=◌, ℕ, zero, suc, Bool, true, false, Option, none, some, List, [], ◌∷◌,
  ◌++◌,
}

-- What the packets of one chunk leave behind: the chunk, the packet buffer, the packets sent, and
-- whether an emission failed, which leaves the outer loop with HGAP_ERR_WIREHAIR_ERROR.
pub record Burst (S : Type 0) : Type 0 where
  pub chunk : Chunk S
  pub pkt : List ℕ
  pub sent : List (List ℕ)
  pub failed : Bool

module _ (w : Wirehair) (f : Floating) where
  open w use {State}
  open f use {Double, less, zero_double}

  -- One round of the do-while loop of `send_loop`: what was emitted is sent, unless its redundancy is
  -- negative. The result of `hgap_sender_send` only goes into a count that is printed.
  after_chunk_emit : List (List ℕ) → Bool → Emitted State Double → Outcome (Burst State)
  after_chunk_emit sent failed r = elim (less r.redund zero_double) [
    | true ↦ ret (record { chunk = r.chunk; pkt = r.pkt; sent = sent; failed = true })
    | false ↦ do
      bytes ← load r.pkt 0 r.size
      ret (record { chunk = r.chunk; pkt = r.pkt; sent = sent ++ (bytes ∷ []); failed = failed })
  ]

  -- The do-while loop of `send_loop` for one chunk, with `pkt_size` and `redund` of the configuration;
  -- `none` is a loop that needs more fuel.
  unfoldable pub burst :
      ℕ → ℕ → Double → Chunk State → List ℕ → List (List ℕ) → Bool → Outcome (Option (Burst State))
  unfolding after_chunk_emit
  burst zero pkt_size redund chunk pkt sent failed = ret none
  burst (suc fuel) pkt_size redund chunk pkt sent failed = do
    r ← chunk_emit w f chunk pkt pkt_size
    b ← after_chunk_emit sent failed r
    elim (less r.redund redund) [
      | true ↦ burst fuel pkt_size redund b.chunk b.pkt b.sent b.failed
      | false ↦ ret (some b)
    ]
