-- ===== src/Send/Preparing.antt =====
-- The encoder thread of src/lib/hgap_send.c: it prepares a chunk of each buffer that the reader hands
-- over.
use hairgap.Wirehair.{Wirehair}
use hairgap.Code.{Code, to_int, success, err_ipc}
use hairgap.Encoding.{Chunk, chunk_new}
use hairgap.Encoding.Encode.{Encoder, chunk_init}
use hairgap.Prelude.{if◌then◌else◌, ℕ, Bool, Option, none, some, List, [], ◌∷◌, ◌++◌}

-- What the channels answer in one round: `channel_peek` (NULL is `none`) with the `data` of the slot
-- (NULL is `none`, else its `size` bytes), and the result of `channel_send` of the chunk. The result
-- of `channel_ack` is not looked at.
pub record Offer : Type 0 where
  pub peeked : Option (Option (List ℕ))
  pub sent : Bool

-- The encoder thread: the encoder, the chunks handed over, and its `retval` once the loop is left.
pub record Preparation (S : Type 0) : Type 0 where
  pub enc : Encoder
  pub chunks : List (Chunk S)
  pub ended : Option ℕ

module _ (w : Wirehair) where
  open w use {State}

  -- What is done with the chunk that `hgap_enc_chunk_init` made, given what the loop does next.
  after_init : Bool → Encoder → List (Chunk State) → Code → Preparation State → Preparation State
  after_init sent enc chunks success more =
      if sent then more else record { enc = enc; chunks = chunks; ended = some (to_int err_ipc) }
  after_init sent enc chunks code more = record {
    enc = enc;
    chunks = chunks;
    ended = some (to_int code);
  }

  -- The loop of `encode_loop`, from an encoder and the chunks handed over so far.
  unfoldable pub encode_loop : Encoder → List (Chunk State) → List Offer → Preparation State
  unfolding after_init
  encode_loop enc chunks [] = record { enc = enc; chunks = chunks; ended = none }
  encode_loop enc chunks (o ∷ os) = elim o.peeked [
    | none ↦ record { enc = enc; chunks = chunks; ended = some (to_int success) }
    | some slot ↦ elim slot [
      | none ↦ record { enc = enc; chunks = chunks; ended = some (to_int success) }
      | some to_enc ↦
          let (enc', chunk, code) = chunk_init w enc chunk_new to_enc in
          after_init o.sent enc' chunks code (encode_loop enc' (chunks ++ (chunk ∷ [])) os)
    ]
  ]

-- The poison behind the loop, and the result of the thread.
unfoldable pub encode_result : Bool → ℕ → ℕ
encode_result pill retval = if pill then retval else to_int err_ipc
