-- ===== src/Channel.antt =====
-- The single producer, single consumer channel of src/lib/channel.c, one call at a time. A pointer
-- into the ring is the number of its slot, NULL is `none`. Its children prove what the calls do.
pub mod Queue
pub mod Valid
pub mod Indices
pub mod Refine
pub mod Threads
use hairgap.Prelude.{
  ◌==◌, if◌then◌else◌, get_elem?, set, ℕ, ◌+◌, ◌%◌, Bool, true, false, not, ◌&&◌, Option, none,
  some, List, u64,
}

-- `struct channel`, without the mutex and the conditions. An element is whatever a slot holds.
pub record Channel (A : Type 0) : Type 0 where
  pub elt_size : ℕ
  pub capacity : ℕ
  pub poisoned : Bool
  pub elts : List A
  pub wr_idx : ℕ
  pub rd_idx : ℕ

-- A call returns, or waits on its condition. A call that was woken starts over at the state of that
-- moment: the wait loop repeats the test, and the poison check is repeated behind it.
pub data Call (R : Type 0) : Type 0 where
  done : R → Call R
  blocked : Call R

infixl 5 ◌>>=◌
abbrev pub ◌>>=◌ : {R S : Type 0} → Call R → (R → Call S) → Call S
done r >>= f = f r
blocked >>= f = blocked

-- What a call did: the channel afterwards, its result, and whether it signalled the other side.
pub record Sent (A : Type 0) : Type 0 where
  pub chan : Channel A
  pub ok : Bool
  pub signal : Bool

pub record Received (A : Type 0) : Type 0 where
  pub chan : Channel A
  pub out : Option A
  pub ok : Bool
  pub signal : Bool

module _ {A : Type 0} where
  -- `channel_next`
  abbrev pub next : Channel A → ℕ → ℕ
  next c idx = u64 (idx + 1) % c.capacity

  -- `channel_get`
  abbrev pub get : Channel A → ℕ → ℕ
  get c idx = idx % c.capacity

  -- `channel_is_full`
  abbrev pub is_full : Channel A → Bool
  is_full c = c.rd_idx == next c c.wr_idx && not c.poisoned

  -- `channel_is_empty`
  abbrev pub is_empty : Channel A → Bool
  is_empty c = c.rd_idx == c.wr_idx && not c.poisoned

  -- `channel_new`. `mem` is what `xmalloc` returned for the `capacity + 1` slots.
  unfoldable pub new : ℕ → ℕ → List A → Channel A
  new elt_size capacity mem = record {
    elt_size = elt_size;
    capacity = u64 (capacity + 1);
    poisoned = false;
    elts = mem;
    wr_idx = 0;
    rd_idx = 0;
  }

  -- `channel_reserve`
  unfoldable pub reserve : Channel A → Call (Option ℕ)
  reserve c =
      if c.poisoned
      then done none
      else (if is_full c then blocked else done (some (get c c.wr_idx)))

  -- `channel_send_reserved`
  unfoldable pub send_reserved : Channel A → Option ℕ → Sent A
  send_reserved c none = record { chan = c; ok = false; signal = false }
  send_reserved c (some ptr) =
      if c.poisoned
      then record { chan = c; ok = false; signal = false }
      else (if not (ptr == get c c.wr_idx)
          then record { chan = c; ok = false; signal = false }
          else record {
            chan = record c { wr_idx = next c c.wr_idx };
            ok = true;
            signal = is_empty c;
          })

  -- `channel_send` behind the reservation: what `memcpy` puts into the slot is the element.
  fill : Channel A → A → Option ℕ → Sent A
  unfolding send_reserved
  fill c x none = record { chan = c; ok = false; signal = false }
  fill c x (some dst) = send_reserved (record c { elts = set c.elts dst x }) (some dst)

  -- `channel_send`
  unfoldable pub send : Channel A → A → Call (Sent A)
  unfolding reserve fill
  send c x = reserve c >>= λ dst. done (fill c x dst)

  -- `channel_peek`
  unfoldable pub peek : Channel A → Call (Option ℕ)
  peek c =
      if c.poisoned
      then done none
      else (if is_empty c then blocked else done (some (get c c.rd_idx)))

  -- `channel_ack`
  unfoldable pub ack : Channel A → Option ℕ → Sent A
  ack c none = record { chan = c; ok = false; signal = false }
  ack c (some ptr) =
      if c.poisoned
      then record { chan = c; ok = false; signal = false }
      else (if not (ptr == get c c.rd_idx)
          then record { chan = c; ok = false; signal = false }
          else record {
            chan = record c { rd_idx = next c c.rd_idx };
            ok = true;
            signal = is_full c;
          })

  -- `channel_recv` behind the peek: `out` is what `memcpy` puts into the caller's buffer.
  copy : Channel A → Option ℕ → Received A
  unfolding ack
  copy c none = record { chan = c; out = none; ok = false; signal = false }
  copy c (some src) =
      let a = ack c (some src) in
      record { chan = a.chan; out = get_elem? c.elts src; ok = a.ok; signal = a.signal }

  -- `channel_recv`
  unfoldable pub recv : Channel A → Call (Received A)
  unfolding peek copy
  recv c = peek c >>= λ src. done (copy c src)

  -- `channel_poison`, which signals both conditions.
  unfoldable pub poison : Channel A → Channel A
  poison c = record c { poisoned = true }
