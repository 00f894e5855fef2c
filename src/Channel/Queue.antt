-- ===== src/Channel/Queue.antt =====
-- What a channel promises: a first-in first-out queue of at most `cap` elements that can be poisoned.
use hairgap.Prelude.{◌==◌, if◌then◌else◌, length, ℕ, Bool, true, List, [], ◌∷◌, ◌++◌}

pub record Queue (A : Type 0) : Type 0 where
  pub items : List A
  pub dead : Bool

-- A client's calls, and what it sees of each. `waits` is a call that has not returned.
pub data Op (A : Type 0) : Type 0 where
  put : A → Op A
  take_one : Op A
  kill : Op A

pub data Reply (A : Type 0) : Type 0 where
  sent : Reply A
  got : A → Reply A
  refused : Reply A
  waits : Reply A
  killed : Reply A

module _ {A : Type 0} where
  -- Taking the oldest element.
  abbrev pub front : List A → Queue A → Queue A × Reply A
  front [] q = (q, waits)
  front (x ∷ xs) q = (record q { items = xs }, got x)

  unfoldable pub step : ℕ → Queue A → Op A → Queue A × Reply A
  step cap q (put x) =
      if q.dead
      then (q, refused)
      else (if length q.items == cap
          then (q, waits)
          else (record q { items = q.items ++ (x ∷ []) }, sent))
  step cap q take_one = if q.dead then (q, refused) else front q.items q
  step cap q kill = (record q { dead = true }, killed)

  unfoldable pub run : ℕ → Queue A → List (Op A) → List (Reply A)
  run cap q [] = []
  run cap q (op ∷ ops) = let (q', r) = step cap q op in r ∷ run cap q' ops
