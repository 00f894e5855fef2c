-- ===== src/Channel/Refine.antt =====
-- A valid channel behaves as the bounded queue of its contents, whatever calls are made on it.
use native.Mathlib.Nat.{mod-eq_of_lt}
use native.Mathlib.Decide.{ℕ_discrete}
use hairgap.Channel.{Channel, Call, done, blocked, Sent, Received, get, new, send, recv, poison}
use hairgap.Channel.Queue
use hairgap.Channel.Queue.{Queue, Op, put, take_one, kill, Reply, sent, got, refused, waits, killed}
use hairgap.Channel.Indices.{
  used-eq-zero, used-eq-room, contents_after_write, contents_before_read, contents_empty,
  length-contents,
}
use hairgap.Channel.Valid.{IsValid, contents, next-mod}
use hairgap.Prelude.{
  if◌then◌else◌, length, length-set, get_elem?-some, ℕ, ◌+◌, ◌-◌, ◌^◌, ◌<◌, ◌≡◌, refl, ap, ap₂, ◌∙◌,
  ◌↔◌, Bool, true, false, Option, some, List, [], ◌∷◌, arith,
}

module _ {A : Type 0} where
  -- The queue that a channel stands for.
  abbrev pub view : Channel A → Queue A
  view c = record { items = contents c; dead = c.poisoned }

  -- One call, as its client sees it. A call that waits has changed nothing.
  pub answer : Channel A → Call (Sent A) → Channel A × Reply A
  answer c blocked = (c, waits)
  answer c (done s) = (s.chan, if s.ok then sent else refused)

  pub delivered : Bool → Option A → Reply A
  delivered true (some x) = got x
  delivered _ _ = refused

  pub answer_recv : Channel A → Call (Received A) → Channel A × Reply A
  unfolding delivered
  answer_recv c blocked = (c, waits)
  answer_recv c (done r) = (r.chan, delivered r.ok r.out)

  unfoldable pub step : Channel A → Op A → Channel A × Reply A
  unfolding answer answer_recv send recv poison
  step c (put x) = answer c (send c x)
  step c take_one = answer_recv c (recv c)
  step c kill = (poison c, killed)

  unfoldable pub run : Channel A → List (Op A) → List (Reply A)
  run c [] = []
  run c (op ∷ ops) = let (c', r) = step c op in r ∷ run c' ops

  module _ {c : Channel A} (v : IsValid c) where
    open v use {some_slot, small, storage, wr_in, rd_in}

    -- Every operation keeps the invariant.
    pub step-IsValid : (op : Op A) → IsValid (step c op).0
    unfolding step
    step-IsValid (put x) =
        ground
          (arith, next-mod c.capacity c.wr_idx small wr_in, length-set c.elts (get c c.wr_idx) x)
    step-IsValid take_one = ground (arith, next-mod c.capacity c.rd_idx small rd_in)
    step-IsValid kill = ground arith

    -- Each call answers what the bounded queue answers, and leaves the channel holding its items.
    pub step_refines :
        (op : Op A)
        → let (c', r) = step c op in (view c', r) ≡ Queue.step (c.capacity - 1) (view c) op
    unfolding step Queue.step
    step_refines (put x) =
        ground (arith, length-contents v, used-eq-room v, contents_after_write v x)
    step_refines take_one = elim (ℕ_discrete c.rd_idx c.wr_idx) [
      | yes e ↦ ground (arith, contents_empty v e)
      | no ne ↦
          let (x, f) = get_elem?-some c.elts (get c c.rd_idx) (omega arith) in
          ground (arith, contents_before_read v ne, f, mod-eq_of_lt rd_in)
    ]
    step_refines kill = refl

    cap-step : (op : Op A) → (step c op).0.capacity ≡ c.capacity
    unfolding step
    cap-step (put x) = ground arith
    cap-step take_one = ground arith
    cap-step kill = refl

  -- No sequence of calls tells a valid channel from the bounded queue of its contents.
  pub run_refines :
      (ops : List (Op A)) {c : Channel A}
      → IsValid c
      → run c ops ≡ Queue.run (c.capacity - 1) (view c) ops
  unfolding run Queue.run
  run_refines [] v = refl
  run_refines (op ∷ ops) v =
      rw (run_refines ops (step-IsValid v op), ← step_refines v op, cap-step v op)

  new-IsValid :
      (elt_size capacity : ℕ) (mem : List A)
      → capacity + 1 < 2 ^ 64
      → length mem ≡ capacity + 1
      → IsValid (new elt_size capacity mem)
  unfolding new
  new-IsValid elt_size capacity mem h e = omega arith

  -- A new channel, over whatever memory it was given, answers every sequence of calls as an empty
  -- queue of the capacity that was asked for: first in, first out, blocking exactly when it is full
  -- or empty, and refusing everything once it is poisoned.
  pub new_refines :
      (elt_size capacity : ℕ) (mem : List A) (ops : List (Op A))
      → capacity + 1 < 2 ^ 64
      → length mem ≡ capacity + 1
      → run (new elt_size capacity mem) ops
        ≡ Queue.run capacity (record { items = []; dead = false }) ops
  unfolding new
  new_refines elt_size capacity mem ops h e =
      let v = new-IsValid elt_size capacity mem h e in
      run_refines ops v
      ∙ ap₂ (λ k q. Queue.run k q ops) (omega arith)
          (ap (λ xs. record { items = xs; dead = false }) (contents_empty v refl))

  -- A send that succeeds signals the receiver exactly when the queue was empty, which is when the
  -- receiver may be waiting.
  pub send_signals :
      {c : Channel A} (x : A) {s : Sent A}
      → IsValid c
      → send c x ≡ done s
      → s.ok ≡ true
      → (s.signal ≡ true) ↔ (contents c ≡ [])
  unfolding send
  send_signals {c} x v e o = ground (arith, used-eq-zero v, length-contents v, contents_empty v)

  -- A receive that succeeds signals the sender exactly when the queue was full, which is when the
  -- sender may be waiting.
  pub recv_signals :
      {c : Channel A} {r : Received A}
      → IsValid c
      → recv c ≡ done r
      → r.ok ≡ true
      → (r.signal ≡ true) ↔ (length (contents c) ≡ c.capacity - 1)
  unfolding recv
  recv_signals {c} v e o = ground (arith, used-eq-room v, length-contents v)
