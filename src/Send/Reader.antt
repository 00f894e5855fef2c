-- ===== src/Send/Reader.antt =====
-- The reader thread of src/lib/hgap_send.c: it cuts the input into chunks.
use hairgap.Code.{to_int, success, err_bad_in_fd, err_file_read, err_ipc}
use hairgap.Prelude.{
  ◌==◌, if◌then◌else◌, length, Outcome, ret, exited, ℕ, zero, suc, Bool, not, Option, none, some,
  List, [], ◌∷◌, ◌++◌, sub64,
}

-- The calls of stdio: `fread(_, 1, n, in)` with the bytes that it read, `ferror` and `feof`.
pub record Source : Type 1 where
  pub State : Type 0
  pub fread : State → ℕ → State × List ℕ
  pub failed : State → Bool
  pub at_end : State → Bool

-- What the channel answers in one round: whether `channel_reserve` gave a slot, and the result of
-- `channel_send_reserved`.
pub record Grant : Type 0 where
  pub reserved : Bool
  pub sent : Bool

-- The reader thread: the input, the chunks handed over, and its `retval` once the loop is left.
pub record Reader (S : Type 0) : Type 0 where
  pub source : S
  pub chunks : List (List ℕ)
  pub ended : Option ℕ

module _ (src : Source) where
  open src use {State, fread, failed, at_end}

  -- The loop of `read_chunk`, with `to_read` bytes to go behind `buf`; `none` is a loop that needs
  -- more fuel.
  unfoldable pub read_chunk_loop : ℕ → State → ℕ → List ℕ → Option (State × List ℕ)
  read_chunk_loop zero s to_read buf = none
  read_chunk_loop (suc fuel) s to_read buf =
      let (s', got) = fread s to_read in
      let more = read_chunk_loop fuel s' (sub64 to_read (length got)) (buf ++ got) in
      if to_read == 0 then some (s, buf) else (if length got == 0 then some (s', buf) else more)

  -- `read_chunk` into a buffer of `size` bytes.
  unfoldable pub read_chunk : State → ℕ → Option (State × List ℕ)
  unfolding read_chunk_loop
  read_chunk s size = read_chunk_loop (suc size) s size []

  -- The loop of `read_loop`, over what the channel answers.
  unfoldable pub read_loop :
      ℕ → State → List (List ℕ) → List Grant → Option (Outcome (Reader State))
  read_loop size s chunks [] = some (ret (record { source = s; chunks = chunks; ended = none }))
  read_loop size s chunks (g ∷ gs) =
      if not g.reserved then some exited else elim (read_chunk s size) [
        | none ↦ none
        | some (s', buf) ↦
            let sent = chunks ++ (buf ∷ []) in
            let more = read_loop size s' sent gs in
            if failed s'
            then some
                (ret (record { source = s'; chunks = chunks; ended = some (to_int err_file_read) }))
            else (if not g.sent
                then some
                    (ret (record { source = s'; chunks = chunks; ended = some (to_int err_ipc) }))
                else (if at_end s'
                    then some
                        (ret (record { source = s'; chunks = sent; ended = some (to_int success) }))
                    else more))
      ]

-- The test of the input in front of the loop: without one, `read_loop` ends at once.
unfoldable pub read_input : {S : Type 0} → Option S → Option ℕ
read_input none = some (to_int err_bad_in_fd)
read_input (some s) = none

-- The poison chunk behind the loop, and the result of the thread.
unfoldable pub read_result : Grant → ℕ → ℕ
read_result g retval = if g.reserved then (if g.sent then retval else to_int err_ipc) else retval
