-- ===== src/Channel/Threads/Unread.antt =====
-- A producer whose consumer has not begun to read, or has stopped before it did.
use hairgap.Channel.{Channel, done, blocked, next, get, is_empty, reserve, send_reserved, send}
use hairgap.Channel.Indices.{length-contents, used-eq-room}
use hairgap.Channel.Valid.{IsValid, contents}
use hairgap.Channel.Threads.{Pc, idle, asleep, Sys, Turn, produce, wake, turn, schedule, start}
use hairgap.Channel.Threads.Contents.{full, Inv}
use hairgap.Channel.Threads.Invariant.{schedule-Inv, start-Inv}
use hairgap.Channel.Threads.Alone.{after_send, send_alone}
use hairgap.Prelude.{
  ◌==◌, if◌then◌else◌, length, length-append, replicate, set, ◌+◌, ◌<◌, ◌≡◌, refl, sym, ap, ◌∙◌,
  subst, Bool, true, false, List, [], ◌∷◌, ◌++◌, append-nil, append_assoc, arith,
}

woken_idle : (b : Bool) (pc : Pc) → pc ≡ idle → (if b then wake pc else pc) ≡ idle
woken_idle true pc e = rw e refl
woken_idle false pc e = e

module _ {A : Type 0} where
  -- The moves of one undisturbed call of `channel_send` for each element.
  abbrev pub calls : List A → List (Turn A)
  calls [] = []
  calls (x ∷ xs) = replicate 8 (produce x) ++ calls xs

  -- One move of the producer for each element.
  abbrev pub attempts : List A → List (Turn A)
  attempts [] = []
  attempts (x ∷ xs) = produce x ∷ attempts xs

  schedule-append :
      (ts us : List (Turn A)) (s : Sys A) → schedule s (ts ++ us) ≡ schedule (schedule s ts) us
  schedule-append [] us s = refl
  schedule-append (t ∷ ts) us s = schedule-append ts us (turn s t)

  send_room :
      (c : Channel A) (x : A)
      → c.poisoned ≡ false
      → full c ≡ false
      → send c x
        ≡ done (record {
          chan = record c { elts = set c.elts (get c c.wr_idx) x; wr_idx = next c c.wr_idx };
          ok = true;
          signal = is_empty c;
        })
  unfolding send reserve send_reserved
  send_room c x alive f =
      let own : (get c c.wr_idx == get c c.wr_idx) ≡ true = ground arith in rw (alive, f, own) refl

  send_waits : (c : Channel A) (x : A) → c.poisoned ≡ false → full c ≡ true → send c x ≡ blocked
  unfolding send reserve
  send_waits c x alive f = rw (alive, f) refl

  -- The producer is between two calls, the consumer has not begun, and nobody has poisoned.
  record Lone (s : Sys A) (xs : List A) : Type 0 where
    inv : Inv s
    outside : s.sender ≡ idle
    unstarted : s.receiver ≡ idle
    unread : s.got ≡ []
    alive : s.chan.poisoned ≡ false
    sent_all : s.sent ≡ xs

  Lone-length : {s : Sys A} {xs : List A} → Lone s xs → length (contents s.chan) ≡ length xs
  Lone-length {s} {xs} l =
      ap length (ap (λ ys. ys ++ contents s.chan) (sym l.unread) ∙ sym l.inv.order ∙ l.sent_all)

  -- With room, the call goes through.
  send_goes_on :
      (s : Sys A) (xs : List A) (x : A)
      → Lone s xs
      → length xs + 1 < s.chan.capacity
      → Lone (schedule s (replicate 8 (produce x))) (xs ++ (x ∷ []))
        × ((schedule s (replicate 8 (produce x))).chan.capacity ≡ s.chan.capacity)
  send_goes_on s xs x l room =
      let v = l.inv.valid in
      let free : full s.chan ≡ false =
        ground (arith, used-eq-room v, length-contents v, Lone-length l) in
      let after =
        send_alone s x l.outside (rw l.unstarted refl)
        ∙ ap (after_send s x) (send_room s.chan x l.alive free) in
      (
        record {
          inv = schedule-Inv (replicate 8 (produce x)) s l.inv;
          outside = ap (λ (u : Sys A). u.sender) after ∙ l.outside;
          unstarted =
              ap (λ (u : Sys A). u.receiver) after
              ∙ woken_idle (is_empty s.chan) s.receiver l.unstarted;
          unread = ap (λ (u : Sys A). u.got) after ∙ l.unread;
          alive = ap (λ (u : Sys A). u.chan.poisoned) after ∙ l.alive;
          sent_all = ap (λ (u : Sys A). u.sent) after ∙ ap (λ ys. ys ++ (x ∷ [])) l.sent_all;
        },
        ap (λ (u : Sys A). u.chan.capacity) after,
      )

  calls_go_on :
      (more : List A) (s : Sys A) (xs : List A)
      → Lone s xs
      → length xs + length more < s.chan.capacity
      → Lone (schedule s (calls more)) (xs ++ more)
        × ((schedule s (calls more)).chan.capacity ≡ s.chan.capacity)
  calls_go_on [] s xs l room = (subst (Lone s) (sym (append-nil xs)) l, refl)
  calls_go_on (x ∷ more) s xs l room =
      let s' = schedule s (replicate 8 (produce x)) in
      let (l', cap) = send_goes_on s xs x l (omega arith) in
      let (l'', cap') =
        calls_go_on more s' (xs ++ (x ∷ [])) l'
          (omega (arith, cap, room, length-append xs (x ∷ []))) in
      let split = schedule-append (replicate 8 (produce x)) (calls more) s in
      (
        subst (λ u. Lone u (xs ++ (x ∷ more))) (sym split)
            (subst (Lone (schedule s' (calls more))) (append_assoc xs (x ∷ []) more) l''),
        ap (λ (u : Sys A). u.chan.capacity) split ∙ cap' ∙ cap,
      )

  -- A producer that is asleep, whose consumer does not move, stays asleep.
  attempts-asleep :
      (ys : List A) (s : Sys A)
      → schedule (record s { sender = asleep }) (attempts ys) ≡ record s { sender = asleep }
  attempts-asleep [] s = refl
  attempts-asleep (y ∷ ys) s = attempts-asleep ys s

  -- On a valid channel that begins empty and is not poisoned, with a consumer that does not move: the
  -- producer completes as many calls as there are slots but one, and a further call waits, however
  -- often the producer is scheduled.
  pub unread_stalls :
      {c : Channel A} (xs : List A) (y : A) (ys : List A)
      → IsValid c
      → c.rd_idx ≡ c.wr_idx
      → c.poisoned ≡ false
      → length xs + 1 ≡ c.capacity
      → let s = schedule (start c) (calls xs ++ (replicate 8 (produce y) ++ attempts ys)) in
        (s.sender ≡ asleep) × (s.sent ≡ xs)
  unread_stalls {c} xs y ys v e alive room =
      let first : Lone (start c) [] = record {
        inv = start-Inv v e;
        outside = refl;
        unstarted = refl;
        unread = refl;
        alive = alive;
        sent_all = refl;
      } in
      let (l, cap) = calls_go_on xs (start c) [] first (omega arith) in
      let s = schedule (start c) (calls xs) in
      let u = l.inv.valid in
      let f : full s.chan ≡ true =
        ground (arith, used-eq-room u, length-contents u, Lone-length l, cap) in
      let after =
        schedule-append (calls xs) (replicate 8 (produce y) ++ attempts ys) (start c)
        ∙ schedule-append (replicate 8 (produce y)) (attempts ys) s
        ∙ ap (λ t. schedule t (attempts ys))
            (send_alone s y l.outside (rw l.unstarted refl)
              ∙ ap (after_send s y) (send_waits s.chan y l.alive f))
        ∙ attempts-asleep ys s in
      (ap (λ (t : Sys A). t.sender) after, ap (λ (t : Sys A). t.sent) after ∙ l.sent_all)
