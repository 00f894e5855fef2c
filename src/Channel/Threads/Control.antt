-- ===== src/Channel/Threads/Control.antt =====
-- The control flow of the two threads, without the ring's contents. `mine` and `theirs` say which
-- of the two index tests hold, `dead` that the channel is poisoned.
use hairgap.Channel.Threads.{
  Pc, idle, checked, wanting, tested, asleep, passed, holding, filled, allowed, publishing,
  signalling, holds, advance, wake, signal,
}
use hairgap.Prelude.{◌≡◌, refl, Bool, true, false, not, ◌&&◌, ◌||◌, arith}

-- The other thread is about to signal.
abbrev pub signals : Pc → Bool
signals (signalling b) = b
signals _ = false

-- What holds of a thread at each place, `called` when the other is about to signal it.
abbrev pub sound : (mine theirs dead called : Bool) → Pc → Bool
sound mine theirs dead called tested = mine || dead
sound mine theirs dead called asleep = mine || (dead || called)
sound mine theirs dead called passed = not mine || dead
sound mine theirs dead called holding = not mine
sound mine theirs dead called filled = not mine
sound mine theirs dead called allowed = not mine
sound mine theirs dead called (publishing b) = not mine && (b || (not theirs || dead))
sound mine theirs dead called _ = true

-- Both threads are sound, and at most one of them holds the lock.
pub record Sound (full empty dead : Bool) (sender receiver : Pc) : Type 0 where
  pub sending : sound full empty dead (signals receiver) sender ≡ true
  pub receiving : sound empty full dead (signals sender) receiver ≡ true
  pub exclusive : holds sender && holds receiver ≡ false

-- The next move of the thread is the one of its index.
abbrev pub moves_index : Pc → Bool
moves_index (publishing b) = true
moves_index _ = false

-- A move that moves no index keeps its thread sound.
pub advance-sound :
    (mine theirs dead called free : Bool) (pc : Pc)
    → sound mine theirs dead called pc ≡ true
    → moves_index pc ≡ false
    → sound mine theirs dead called (advance (mine && not dead) dead free (theirs && not dead) pc)
      ≡ true
advance-sound mine theirs dead called free idle h n = ground arith
advance-sound mine theirs dead called free checked h n = ground arith
advance-sound mine theirs dead called free wanting h n = ground arith
advance-sound mine theirs dead called free tested h n = ground arith
advance-sound mine theirs dead called free asleep h n = ground arith
advance-sound mine theirs dead called free passed h n = ground arith
advance-sound mine theirs dead called free holding h n = ground arith
advance-sound mine theirs dead called free filled h n = ground arith
advance-sound mine theirs dead called free allowed h n = ground arith
advance-sound mine theirs dead called free (publishing b) h n = ground arith
advance-sound mine theirs dead called free (signalling b) h n = ground arith

-- A move that moves no index does not lock out the other.
pub advance-holds :
    (mine dead held flag : Bool) (pc : Pc)
    → holds pc && held ≡ false
    → holds (advance mine dead (not held) flag pc) && held ≡ false
advance-holds mine dead held flag idle h = ground arith
advance-holds mine dead held flag checked h = ground arith
advance-holds mine dead held flag wanting h = ground arith
advance-holds mine dead held flag tested h = ground arith
advance-holds mine dead held flag asleep h = ground arith
advance-holds mine dead held flag passed h = ground arith
advance-holds mine dead held flag holding h = ground arith
advance-holds mine dead held flag filled h = ground arith
advance-holds mine dead held flag allowed h = ground arith
advance-holds mine dead held flag (publishing f) h = ground arith
advance-holds mine dead held flag (signalling f) h = ground arith

-- The other moves its index: what this thread waited for, or is about to do, is still so.
pub published-sound :
    (mine theirs theirs' dead b : Bool) (pc : Pc)
    → sound mine theirs dead false pc ≡ true
    → holds pc ≡ false
    → b || (not mine || dead) ≡ true
    → sound false theirs' dead b pc ≡ true
published-sound mine theirs theirs' dead b idle h free flagged = ground arith
published-sound mine theirs theirs' dead b checked h free flagged = ground arith
published-sound mine theirs theirs' dead b wanting h free flagged = ground arith
published-sound mine theirs theirs' dead b tested h free flagged = ground arith
published-sound mine theirs theirs' dead b asleep h free flagged = ground arith
published-sound mine theirs theirs' dead b passed h free flagged = ground arith
published-sound mine theirs theirs' dead b holding h free flagged = ground arith
published-sound mine theirs theirs' dead b filled h free flagged = ground arith
published-sound mine theirs theirs' dead b allowed h free flagged = ground arith
published-sound mine theirs theirs' dead b (publishing f) h free flagged = ground arith
published-sound mine theirs theirs' dead b (signalling f) h free flagged = ground arith

-- The other signals and releases the lock.
pub released-sound :
    (mine theirs dead b : Bool) (pc : Pc)
    → sound mine theirs dead b pc ≡ true
    → sound mine theirs dead false (signal (signalling b) pc) ≡ true
released-sound mine theirs dead false pc h = h
released-sound mine theirs dead true idle h = h
released-sound mine theirs dead true checked h = h
released-sound mine theirs dead true wanting h = h
released-sound mine theirs dead true tested h = h
released-sound mine theirs dead true asleep h = refl
released-sound mine theirs dead true passed h = h
released-sound mine theirs dead true holding h = h
released-sound mine theirs dead true filled h = h
released-sound mine theirs dead true allowed h = h
released-sound mine theirs dead true (publishing f) h = h
released-sound mine theirs dead true (signalling f) h = h

pub wake-sound :
    (mine theirs dead called : Bool) (pc : Pc)
    → sound mine theirs dead called pc ≡ true
    → sound mine theirs dead called (wake pc) ≡ true
wake-sound mine theirs dead called idle h = h
wake-sound mine theirs dead called checked h = h
wake-sound mine theirs dead called wanting h = h
wake-sound mine theirs dead called tested h = h
wake-sound mine theirs dead called asleep h = refl
wake-sound mine theirs dead called passed h = h
wake-sound mine theirs dead called holding h = h
wake-sound mine theirs dead called filled h = h
wake-sound mine theirs dead called allowed h = h
wake-sound mine theirs dead called (publishing f) h = h
wake-sound mine theirs dead called (signalling f) h = h

pub dead-sound :
    (mine theirs dead called : Bool) (pc : Pc)
    → sound mine theirs dead called pc ≡ true
    → sound mine theirs true called pc ≡ true
dead-sound mine theirs dead called idle h = ground arith
dead-sound mine theirs dead called checked h = ground arith
dead-sound mine theirs dead called wanting h = ground arith
dead-sound mine theirs dead called tested h = ground arith
dead-sound mine theirs dead called asleep h = ground arith
dead-sound mine theirs dead called passed h = ground arith
dead-sound mine theirs dead called holding h = ground arith
dead-sound mine theirs dead called filled h = ground arith
dead-sound mine theirs dead called allowed h = ground arith
dead-sound mine theirs dead called (publishing f) h = ground arith
dead-sound mine theirs dead called (signalling f) h = ground arith

pub holds-wake : (pc : Pc) → holds (wake pc) ≡ holds pc
holds-wake idle = refl
holds-wake checked = refl
holds-wake wanting = refl
holds-wake tested = refl
holds-wake asleep = refl
holds-wake passed = refl
holds-wake holding = refl
holds-wake filled = refl
holds-wake allowed = refl
holds-wake (publishing f) = refl
holds-wake (signalling f) = refl

pub signals-wake : (pc : Pc) → signals (wake pc) ≡ signals pc
signals-wake idle = refl
signals-wake checked = refl
signals-wake wanting = refl
signals-wake tested = refl
signals-wake asleep = refl
signals-wake passed = refl
signals-wake holding = refl
signals-wake filled = refl
signals-wake allowed = refl
signals-wake (publishing f) = refl
signals-wake (signalling f) = refl
