-- ===== src/Channel/Threads/Contents.antt =====
-- What the two threads leave in the ring, move by move, and the invariant that they keep.
use native.Mathlib.Nat.{mod-eq_of_lt}
use hairgap.Channel.{Channel, next, get}
use hairgap.Channel.Indices.{contents_before_read}
use hairgap.Channel.Valid.{IsValid, contents, next-mod}
use hairgap.Channel.Threads.{
  Pc, idle, checked, wanting, tested, asleep, passed, holding, filled, allowed, publishing,
  signalling, Sys, listed,
}
use hairgap.Channel.Threads.Control.{Sound, sound}
use hairgap.Prelude.{
  ◌==◌, get_elem?, get_elem?-some, set, length-set, get_elem?-set_self, get_elem?-set_ne, ◌≡◌, refl,
  ◌∙◌, ◌≢◌, Bool, true, false, Option, some, [], ◌∷◌, ◌++◌, arith,
}

-- The thread has copied and not yet moved its index.
abbrev pub has_copied : Pc → Bool
has_copied filled = true
has_copied allowed = true
has_copied (publishing b) = true
has_copied _ = false

abbrev pub copies : Pc → Bool
copies holding = true
copies _ = false

pub has_copied-sound :
    (mine theirs dead called : Bool) (pc : Pc)
    → has_copied pc ≡ true
    → sound mine theirs dead called pc ≡ true
    → mine ≡ false
has_copied-sound mine theirs dead called idle h e = ground arith
has_copied-sound mine theirs dead called checked h e = ground arith
has_copied-sound mine theirs dead called wanting h e = ground arith
has_copied-sound mine theirs dead called tested h e = ground arith
has_copied-sound mine theirs dead called asleep h e = ground arith
has_copied-sound mine theirs dead called passed h e = ground arith
has_copied-sound mine theirs dead called holding h e = ground arith
has_copied-sound mine theirs dead called filled h e = ground arith
has_copied-sound mine theirs dead called allowed h e = ground arith
has_copied-sound mine theirs dead called (publishing b) h e = ground arith
has_copied-sound mine theirs dead called (signalling b) h e = ground arith

-- The thread has a slot: `channel_reserve` or `channel_peek` gave it one, and its index has not moved.
abbrev pub owns : Pc → Bool
owns holding = true
owns pc = has_copied pc

pub owns-sound :
    (mine theirs dead called : Bool) (pc : Pc)
    → owns pc ≡ true
    → sound mine theirs dead called pc ≡ true
    → mine ≡ false
owns-sound mine theirs dead called idle h e = ground arith
owns-sound mine theirs dead called checked h e = ground arith
owns-sound mine theirs dead called wanting h e = ground arith
owns-sound mine theirs dead called tested h e = ground arith
owns-sound mine theirs dead called asleep h e = ground arith
owns-sound mine theirs dead called passed h e = ground arith
owns-sound mine theirs dead called holding h e = ground arith
owns-sound mine theirs dead called filled h e = ground arith
owns-sound mine theirs dead called allowed h e = ground arith
owns-sound mine theirs dead called (publishing b) h e = ground arith
owns-sound mine theirs dead called (signalling b) h e = ground arith

module _ {A : Type 0} where
  -- The tests of `channel_is_full` and `channel_is_empty` on the indices.
  abbrev pub full : Channel A → Bool
  full c = c.rd_idx == next c c.wr_idx

  abbrev pub empty : Channel A → Bool
  empty c = c.rd_idx == c.wr_idx

  -- What the threads keep. A copied element is in its slot until the index moves; what was sent is
  -- what was received and what the ring holds.
  pub record Inv (s : Sys A) : Type 0 where
    pub valid : IsValid s.chan
    pub control : Sound (full s.chan) (empty s.chan) s.chan.poisoned s.sender s.receiver
    pub order : s.sent ≡ s.got ++ contents s.chan
    pub prepared :
        has_copied s.sender ≡ true
        → (x : A) × (s.item ≡ x ∷ []) × (get_elem? s.chan.elts (get s.chan s.chan.wr_idx) ≡ some x)
    pub fetched :
        has_copied s.receiver ≡ true → s.taken ≡ get_elem? s.chan.elts (get s.chan s.chan.rd_idx)

  module _ {c : Channel A} (v : IsValid c) where
    open v use {small, storage, wr_in, rd_in}

    pub copy-IsValid : (x : A) → IsValid (record c { elts = set c.elts (get c c.wr_idx) x })
    copy-IsValid x = ground (arith, length-set c.elts (get c c.wr_idx) x)

    pub write-IsValid : IsValid (record c { wr_idx = next c c.wr_idx })
    write-IsValid = ground (arith, next-mod c.capacity c.wr_idx small wr_in)

    pub read-IsValid : IsValid (record c { rd_idx = next c c.rd_idx })
    read-IsValid = ground (arith, next-mod c.capacity c.rd_idx small rd_in)

    pub kill-IsValid : IsValid (record c { poisoned = true })
    kill-IsValid = ground arith

    pub copied_there : (x : A) → get_elem? (set c.elts (get c c.wr_idx) x) (get c c.wr_idx) ≡ some x
    copied_there x =
        get_elem?-set_self c.elts (get c c.wr_idx) x (ground (arith, mod-eq_of_lt wr_in))

    -- The slot that is written is not the one that is read.
    pub slots_apart : empty c ≡ false → get c c.wr_idx ≢ get c c.rd_idx
    slots_apart n = ground (arith, mod-eq_of_lt wr_in, mod-eq_of_lt rd_in)

    pub copied_elsewhere :
        (x : A)
        → empty c ≡ false
        → get_elem? (set c.elts (get c c.wr_idx) x) (get c c.rd_idx)
          ≡ get_elem? c.elts (get c c.rd_idx)
    copied_elsewhere x n = get_elem?-set_ne c.elts x (slots_apart n)

    -- Neither side's move makes its own test hold for the other.
    pub empty_after_write : full c ≡ false → empty (record c { wr_idx = next c c.wr_idx }) ≡ false
    empty_after_write n = ground arith

    pub full_after_read : empty c ≡ false → full (record c { rd_idx = next c c.rd_idx }) ≡ false
    full_after_read n =
        ground (
          arith,
          next-mod c.capacity c.rd_idx small rd_in,
          next-mod c.capacity c.wr_idx small wr_in,
        )

    -- The element that an acknowledgement takes off the ring is the one that was copied.
    pub contents_taken :
        (x : Option A)
        → empty c ≡ false
        → x ≡ get_elem? c.elts (get c c.rd_idx)
        → contents c ≡ listed x ++ contents (record c { rd_idx = next c c.rd_idx })
    contents_taken x n e =
        let (y, f) = get_elem?-some c.elts (get c c.rd_idx) (ground (arith, mod-eq_of_lt rd_in)) in
        rw (e ∙ f) (contents_before_read v (ground arith) ∙ rw f refl)
