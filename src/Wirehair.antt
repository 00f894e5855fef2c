-- ===== src/Wirehair.antt =====
-- What src/lib/encoding.c uses of code that is not in the repository: the fountain code wirehair
-- (a git submodule), and the arithmetic of `double`. Both are parameters of the model.
use hairgap.Prelude.{
  if◌then◌else◌, length, take, All, ℕ, ◌≤◌, ◌≡◌, Bool, true, false, Option, none, some, List, [],
  ◌∷◌,
}

-- The calls of wirehair.h. A `wirehair_state` is a pointer, NULL is `none`. The blocks are what
-- stands in memory behind the pointers that are passed.
pub record Wirehair : Type 1 where
  pub State : Type 0
  -- `wirehair_encode(reuse, message, bytes, block_bytes)`
  pub encode : Option State → List ℕ → ℕ → Option State
  -- `wirehair_write(state, id, block)`: the bytes put into the block, or a failure
  pub write : Option State → ℕ → Option (List ℕ)
  -- `wirehair_decode(reuse, bytes, block_bytes)`
  pub decode : Option State → ℕ → ℕ → Option State
  -- `wirehair_read(state, id, block)`: whether the message can be reassembled
  pub read : State → ℕ → List ℕ → State × Bool
  -- `wirehair_reconstruct(state, message)`: the bytes put into the message, or a failure
  pub reconstruct : Option State → Option (List ℕ)

-- One block as it arrives: the id that it was written under, and the `block_bytes` at its place.
pub record Block : Type 0 where
  pub id : ℕ
  pub bytes : List ℕ

module _ (w : Wirehair) where
  open w use {State, encode, write, decode, read, reconstruct}

  -- `block` holds what the encoder `enc` writes under its id, and may go on behind it.
  pub record IsBlockOf (enc : Option State) (size : ℕ) (block : Block) : Type 0 where
    pub written : List ℕ
    pub write_lem : write enc block.id ≡ some written
    pub fits : length written ≤ size
    pub whole : length block.bytes ≡ size
    pub front : take (length written) block.bytes ≡ written

  -- A decoder fed with blocks until it reports that it is ready; `none` if it never does.
  unfoldable pub feed : State → List Block → Option State
  feed d [] = none
  feed d (b ∷ bs) =
      let (d', ready) = read d b.id b.bytes in
      let rest = feed d' bs in if ready then some d' else rest

  pub feed-ready :
      (d s : State) (b : Block) (bs : List Block)
      → read d b.id b.bytes ≡ (s, true)
      → feed d (b ∷ bs) ≡ some s
  unfolding feed
  feed-ready d s b bs e = rw e

  pub feed-more :
      (d s : State) (b : Block) (bs : List Block)
      → read d b.id b.bytes ≡ (s, false)
      → feed d (b ∷ bs) ≡ feed s bs
  unfolding feed
  feed-more d s b bs e = rw e

  -- The documented behaviour of a fountain code: the encoder writes blocks of at most the size it
  -- was made with, and a decoder for the same sizes that reports itself ready, after whatever
  -- blocks of one message, gives that message back.
  pub record Recovers : Type 0 where
    pub write_fits :
        (reuse : Option State) (message : List ℕ) (size id : ℕ) {e : State} {bytes : List ℕ}
        → encode reuse message size ≡ some e
        → write (some e) id ≡ some bytes
        → length bytes ≤ size
    pub recovers :
        (reuse reuse' : Option State) (message : List ℕ) (size : ℕ) {e d d' : State}
        (blocks : List Block)
        → encode reuse message size ≡ some e
        → decode reuse' (length message) size ≡ some d
        → All (IsBlockOf (some e) size) blocks
        → feed d blocks ≡ some d'
        → reconstruct (some d') ≡ some message

-- The operations on `double` that the code uses.
pub record Floating : Type 1 where
  pub Double : Type 0
  -- `(double) n`
  pub of_size : ℕ → Double
  pub divide : Double → Double → Double
  pub add : Double → Double → Double
  pub subtract : Double → Double → Double
  pub multiply : Double → Double → Double
  pub less : Double → Double → Bool
  pub equal : Double → Double → Bool
  -- the literals `1000000.`, `-1.0`, `0` and `1.0`
  pub million : Double
  pub minus_one : Double
  pub zero_double : Double
  pub one_double : Double
