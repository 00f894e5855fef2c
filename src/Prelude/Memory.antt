-- ===== src/Prelude/Memory.antt =====
-- What a C function that touches memory through pointers does: it returns, it ends the process
-- (a failed CHK), or it leaves the memory it was given, which is undefined behaviour.
use Prim.Native.Nat.{ℕ, ◌+◌, ◌≤◌, ◌<◌}
use mathlib.Core.Path.{◌≡◌, refl, ap, ◌∙◌}
use mathlib.Core.List.{List, ◌++◌, append-nil}
use native.Mathlib.Omega.{arith}
use hairgap.Prelude.Tests.{leb, if◌then◌else◌}
use hairgap.Prelude.Lists.{
  length, take, drop, length-append, length-take, length-drop, drop_all, take_all,
}

pub data Outcome {ℓ} (A : Type ℓ) : Type ℓ where
  ret : A → Outcome A
  exited : Outcome A
  fault : Outcome A

infixl 5 ◌>>=◌
abbrev pub ◌>>=◌ {ℓ κ} : {A : Type ℓ} {B : Type κ} → Outcome A → (A → Outcome B) → Outcome B
ret a >>= f = f a
exited >>= f = exited
fault >>= f = fault

-- Reading `n` bytes at `off` of a memory block.
unfoldable pub load : List ℕ → ℕ → ℕ → Outcome (List ℕ)
load mem off n = if leb (off + n) (length mem) then ret (take n (drop off mem)) else fault

-- Writing `bytes` at `off` of a memory block.
unfoldable pub store : List ℕ → ℕ → List ℕ → Outcome (List ℕ)
store mem off bytes =
    if leb (off + length bytes) (length mem)
    then ret (take off mem ++ (bytes ++ drop (off + length bytes) mem))
    else fault

pub load_lem :
    (mem : List ℕ) (off n : ℕ) → off + n ≤ length mem → load mem off n ≡ ret (take n (drop off mem))
unfolding load
load_lem mem off n h = ground arith

pub load_fault : (mem : List ℕ) (off n : ℕ) → length mem < off + n → load mem off n ≡ fault
unfolding load
load_fault mem off n h = ground arith

pub store_lem :
    (mem : List ℕ) (off : ℕ) (bytes : List ℕ)
    → off + length bytes ≤ length mem
    → store mem off bytes ≡ ret (take off mem ++ (bytes ++ drop (off + length bytes) mem))
unfolding store
store_lem mem off bytes h = ground arith

-- A write of a whole block.
pub store_all : (mem bytes : List ℕ) → length bytes ≡ length mem → store mem 0 bytes ≡ ret bytes
store_all mem bytes e =
    store_lem mem 0 bytes (omega arith)
    ∙ ap (λ t. ret (bytes ++ t)) (drop_all (0 + length bytes) mem (omega arith))
    ∙ ap ret (append-nil bytes)

-- A read of a whole block.
pub load_all : (mem : List ℕ) (n : ℕ) → length mem ≡ n → load mem 0 n ≡ ret mem
load_all mem n e = load_lem mem 0 n (omega arith) ∙ ap ret (take_all n mem (omega arith))

-- A write keeps the size of the block.
pub length-store :
    (mem : List ℕ) (off : ℕ) (bytes : List ℕ) {mem' : List ℕ}
    → store mem off bytes ≡ ret mem'
    → length mem' ≡ length mem
unfolding store
length-store mem off bytes e = ground (
  arith,
  length-append (take off mem) (bytes ++ drop (off + length bytes) mem),
  length-append bytes (drop (off + length bytes) mem),
  length-take off mem,
  length-drop (off + length bytes) mem,
)

-- Inversion of a bind that returned.
pub >>=-eq-ret {ℓ κ} :
    {A : Type ℓ} {B : Type κ} (m : Outcome A) (f : A → Outcome B) {b : B}
    → (m >>= f) ≡ ret b
    → (a : A) × (m ≡ ret a) × (f a ≡ ret b)
>>=-eq-ret (ret a) f h = (a, refl, h)
>>=-eq-ret exited f h = cc
>>=-eq-ret fault f h = cc
