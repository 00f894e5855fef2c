-- ===== src/Receive/Writer.antt =====
-- The writer thread of src/lib/hgap_receive.c. How often it flushes and what it counts for its last
-- message is left out.
use hairgap.Code.{to_int, success, err_bad_out_fd}
use hairgap.Prelude.{ltb, if◌then◌else◌, length, take, ℕ, Option, none, some, List, [], ◌∷◌, ◌++◌}

-- One round: `channel_recv` fails, or hands over the poison (`data` is NULL), or a chunk, with what
-- `write` or `fwrite` returns for it: -1 is `none`, else the number of bytes that it wrote.
pub data Round : Type 0 where
  closed : Round
  poisoned : Round
  chunk : List ℕ → Option ℕ → Round

-- The writer thread: what was written, and its `retval` once the loop is left.
pub record Writer : Type 0 where
  pub out : List ℕ
  pub ended : Option ℕ

-- The loop of `writer`.
unfoldable pub write_loop : List ℕ → List Round → Writer
write_loop out [] = record { out = out; ended = none }
write_loop out (closed ∷ rs) = record { out = out; ended = some (to_int success) }
write_loop out (poisoned ∷ rs) = record { out = out; ended = some (to_int success) }
write_loop out (chunk bytes none ∷ rs) = record { out = out; ended = some (to_int err_bad_out_fd) }
write_loop out (chunk bytes (some n) ∷ rs) =
    let out' = out ++ take n bytes in
    let more = write_loop out' rs in
    if ltb n (length bytes)
    then record { out = out'; ended = some (to_int err_bad_out_fd) }
    else more
