-- ===== src/Channel/Threads/Invariant.antt =====
-- The invariant of the threads holds after every schedule, and what it says of first in, first out,
-- of the two slots and of the lock.
use hairgap.Channel.{Channel, get}
use hairgap.Channel.Indices.{contents_empty, length-contents, used-lt}
use hairgap.Channel.Valid.{IsValid, contents}
use hairgap.Channel.Threads.{Sys, Turn, turn, schedule, start}
use hairgap.Channel.Threads.Moves.{turn-Inv}
use hairgap.Channel.Threads.Contents.{Inv, slots_apart, owns, owns-sound}
use hairgap.Prelude.{length, ◌<◌, ◌≡◌, refl, sym, ◌≢◌, true, List, [], ◌∷◌, ◌++◌, arith}

module _ {A : Type 0} where
  pub schedule-Inv : (ts : List (Turn A)) (s : Sys A) → Inv s → Inv (schedule s ts)
  schedule-Inv [] s i = i
  schedule-Inv (t ∷ ts) s i = schedule-Inv ts (turn s t) (turn-Inv s t i)

  pub start-Inv : {c : Channel A} → IsValid c → c.rd_idx ≡ c.wr_idx → Inv (start c)
  start-Inv v e = record {
    valid = v;
    control = record { sending = refl; receiving = refl; exclusive = refl };
    order = sym (contents_empty v e);
    prepared = λ h. ground arith;
    fetched = λ h. ground arith;
  }

  -- On a valid channel that begins empty, whatever the interleaving of the two threads, of a
  -- poisoning and of spurious wake-ups: the elements whose receive has gone through are the first
  -- of those whose send has, in the order sent, and at most `capacity - 1` are under way.
  pub schedule_in_order :
      {c : Channel A} (ts : List (Turn A))
      → IsValid c
      → c.rd_idx ≡ c.wr_idx
      → let s = schedule (start c) ts in
        (s.sent ≡ s.got ++ contents s.chan) × (length (contents s.chan) < s.chan.capacity)
  schedule_in_order {c} ts v e =
      let i = schedule-Inv ts (start c) (start-Inv v e) in
      (i.order, rw (length-contents i.valid) (used-lt i.valid))

  -- On a valid channel that begins empty, whatever the interleaving: while the producer has a slot
  -- to write and the consumer one to read, each from the return of the first half of its call until
  -- its index moves, the two slots differ.
  pub schedule_apart :
      {c : Channel A} (ts : List (Turn A))
      → IsValid c
      → c.rd_idx ≡ c.wr_idx
      → owns (schedule (start c) ts).sender ≡ true
      → owns (schedule (start c) ts).receiver ≡ true
      → let s = schedule (start c) ts in get s.chan s.chan.wr_idx ≢ get s.chan s.chan.rd_idx
  schedule_apart {c} ts v e h h' =
      let i = schedule-Inv ts (start c) (start-Inv v e) in
      let n = owns-sound _ _ _ _ (schedule (start c) ts).receiver h' i.control.receiving in
      slots_apart i.valid n
