-- ===== src/Channel/Threads/Handover.antt =====
-- What one thread's move leaves for both: the lock passes on, and signals arrive.
use hairgap.Channel.Threads.{
  Pc, idle, checked, wanting, tested, asleep, passed, holding, filled, allowed, publishing,
  signalling, holds, advance, wake, signal,
}
use hairgap.Prelude.{◌≡◌, refl, Bool, true, false, not, ◌&&◌, arith}
use hairgap.Channel.Threads.Control.{
  signals, sound, Sound, moves_index, advance-sound, advance-holds, published-sound, released-sound,
  wake-sound, dead-sound, holds-wake, signals-wake,
}

pub signals-signal : (pc other : Pc) → signals (signal pc other) ≡ signals other
signals-signal (signalling true) other = signals-wake other
signals-signal idle other = refl
signals-signal checked other = refl
signals-signal wanting other = refl
signals-signal tested other = refl
signals-signal asleep other = refl
signals-signal passed other = refl
signals-signal holding other = refl
signals-signal filled other = refl
signals-signal allowed other = refl
signals-signal (publishing f) other = refl
signals-signal (signalling false) other = refl

pub holds-signal : (pc other : Pc) → holds (signal pc other) ≡ holds other
holds-signal (signalling true) other = holds-wake other
holds-signal idle other = refl
holds-signal checked other = refl
holds-signal wanting other = refl
holds-signal tested other = refl
holds-signal asleep other = refl
holds-signal passed other = refl
holds-signal holding other = refl
holds-signal filled other = refl
holds-signal allowed other = refl
holds-signal (publishing f) other = refl
holds-signal (signalling false) other = refl

advance-signals :
    (mine dead free flag : Bool) (pc : Pc)
    → moves_index pc ≡ false
    → signals (advance mine dead free flag pc) ≡ false
advance-signals mine dead free flag idle n = ground arith
advance-signals mine dead free flag checked n = ground arith
advance-signals mine dead free flag wanting n = ground arith
advance-signals mine dead free flag tested n = ground arith
advance-signals mine dead free flag asleep n = ground arith
advance-signals mine dead free flag passed n = ground arith
advance-signals mine dead free flag holding n = ground arith
advance-signals mine dead free flag filled n = ground arith
advance-signals mine dead free flag allowed n = ground arith
advance-signals mine dead free flag (publishing f) n = ground arith
advance-signals mine dead free flag (signalling f) n = ground arith

-- What the move of a thread leaves for the other.
signal-sound :
    (mine theirs dead : Bool) (pc other : Pc)
    → sound mine theirs dead (signals pc) other ≡ true
    → sound mine theirs dead false (signal pc other) ≡ true
signal-sound mine theirs dead idle other h = h
signal-sound mine theirs dead checked other h = h
signal-sound mine theirs dead wanting other h = h
signal-sound mine theirs dead tested other h = h
signal-sound mine theirs dead asleep other h = h
signal-sound mine theirs dead passed other h = h
signal-sound mine theirs dead holding other h = h
signal-sound mine theirs dead filled other h = h
signal-sound mine theirs dead allowed other h = h
signal-sound mine theirs dead (publishing b) other h = h
signal-sound mine theirs dead (signalling b) other h = released-sound mine theirs dead b other h

module _ {mine theirs dead : Bool} {pc other : Pc} where
  pub Sound-swap : Sound mine theirs dead pc other → Sound theirs mine dead other pc
  Sound-swap s = record {
    sending = s.receiving;
    receiving = s.sending;
    exclusive = ground (arith, s.exclusive);
  }

  -- A move that moves no index, with what it signals.
  pub move-Sound :
      moves_index pc ≡ false
      → Sound mine theirs dead pc other
      → Sound mine theirs dead
          (advance (mine && not dead) dead (not (holds other)) (theirs && not dead) pc)
          (signal pc other)
  move-Sound n s = record {
    sending =
        rw (signals-signal pc other)
          (advance-sound mine theirs dead (signals other) (not (holds other)) pc s.sending n);
    receiving =
        rw (advance-signals (mine && not dead) dead (not (holds other)) (theirs && not dead) pc n)
          (signal-sound theirs mine dead pc other s.receiving);
    exclusive =
        rw (holds-signal pc other)
          (advance-holds (mine && not dead) dead (holds other) (theirs && not dead) pc s.exclusive);
  }

  pub wake-Sound : Sound mine theirs dead pc other → Sound mine theirs dead (wake pc) other
  wake-Sound s = record {
    sending = wake-sound mine theirs dead (signals other) pc s.sending;
    receiving = rw (signals-wake pc) s.receiving;
    exclusive = rw (holds-wake pc) s.exclusive;
  }

  pub dead-Sound : Sound mine theirs dead pc other → Sound mine theirs true pc other
  dead-Sound s = record {
    sending = dead-sound mine theirs dead (signals other) pc s.sending;
    receiving = dead-sound theirs mine dead (signals pc) other s.receiving;
    exclusive = s.exclusive;
  }

-- The index moves: the other side's test no longer holds, its own may.
pub publish-Sound :
    {mine theirs dead : Bool} (mine' b : Bool) {other : Pc}
    → Sound mine theirs dead (publishing b) other
    → Sound mine' false dead (signalling b) other
publish-Sound {mine} {theirs} {dead} mine' b {other} s =
    let free : holds other ≡ false = s.exclusive in
    record {
      sending = refl;
      receiving =
          published-sound theirs mine mine' dead b other s.receiving free
            (ground (arith, s.sending));
      exclusive = s.exclusive;
    }
