-- ===== src/Socket/Keepalive.antt =====
-- The thread of the keepalives of src/lib/sender.c.
use hairgap.Socket.{Beat, waits, sends, Nap, seconds, micros, nap}
use hairgap.Prelude.{
  leb, zero, suc, Bool-cases, inl, inr, tests, ℕ, ◌+◌, ◌*◌, ◌≤◌, ◌<◌, List, [], ◌∷◌, arith,
}

-- The length of a wait in microseconds.
abbrev pub micros_of : Nap → ℕ
micros_of (seconds n) = 1000000 * n
micros_of (micros n) = n

-- Between two keepalives the thread waits for the period, given in milliseconds, or for less than a
-- second less.
pub nap_bounds : (k : ℕ) → (micros_of (nap k) ≤ 1000 * k) × (1000 * k < micros_of (nap k) + 1000000)
nap_bounds k = elim (Bool-cases (leb 1000 k)) [
  | inl h ↦ rw h (omega arith, omega arith)
  | inr h ↦ rw h (omega (tests, h), omega (tests, h))
]

-- `n` times a wait and then a packet.
abbrev pub alternating : ℕ → Nap → List ℕ → List Beat
alternating zero wait pkt = []
alternating (suc n) wait pkt = waits wait ∷ sends pkt ∷ alternating n wait pkt
