-- ===== src/Channel/Threads/Alone.antt =====
-- A call of `channel_send` or `channel_recv` that the other thread does not interrupt, whole: its moves
-- one after the other do what src/lib/channel.c does in one call.
use hairgap.Channel.{
  Call, done, blocked, Sent, Received, next, get, reserve, send_reserved, send, peek, ack, recv,
}
use hairgap.Channel.Threads.{idle, asleep, Sys, produce, consume, holds, wake, listed, schedule}
use hairgap.Prelude.{
  ◌==◌, Bool-cases, if◌then◌else◌, replicate, ◌≡◌, refl, sym, ap, subst, inl, inr, true, false, [],
  ◌∷◌, ◌++◌, arith,
}

module _ {A : Type 0} where
  -- What a call of the producer leaves, by the result of `channel_send`: it waits; or it is over, the
  -- consumer was woken where it signalled, and where it succeeded the element is sent.
  abbrev pub after_send : Sys A → A → Call (Sent A) → Sys A
  after_send s x blocked = record s { sender = asleep }
  after_send s x (done r) = record s {
    chan = r.chan;
    receiver = if r.signal then wake s.receiver else s.receiver;
    item = if r.ok then x ∷ [] else s.item;
    sent = if r.ok then s.sent ++ (x ∷ []) else s.sent;
  }

  send_from_idle :
      (s : Sys A) (x : A)
      → holds s.receiver ≡ false
      → schedule (record s { sender = idle }) (replicate 8 (produce x))
        ≡ after_send (record s { sender = idle }) x (send s.chan x)
  unfolding send reserve send_reserved
  send_from_idle s x free =
      let own : (get s.chan s.chan.wr_idx == get s.chan s.chan.wr_idx) ≡ true = ground arith in
      elim (Bool-cases s.chan.poisoned) [
        | inl dead ↦ rw dead refl
        | inr alive ↦ elim (Bool-cases (s.chan.rd_idx == next s.chan s.chan.wr_idx)) [
          | inl f ↦ rw (alive, f, free) refl
          | inr f ↦ elim (Bool-cases (s.chan.rd_idx == s.chan.wr_idx)) [
            | inl e ↦ rw (alive, f, free, e, own) refl
            | inr e ↦ rw (alive, f, free, e, own) refl
          ]
        ]
      ]

  -- What a call of the consumer leaves, by the result of `channel_recv`.
  abbrev pub after_recv : Sys A → Call (Received A) → Sys A
  after_recv s blocked = record s { receiver = asleep }
  after_recv s (done r) = record s {
    chan = r.chan;
    sender = if r.signal then wake s.sender else s.sender;
    taken = if r.ok then r.out else s.taken;
    got = if r.ok then s.got ++ listed r.out else s.got;
  }

  recv_from_idle :
      (s : Sys A)
      → holds s.sender ≡ false
      → schedule (record s { receiver = idle }) (replicate 8 consume)
        ≡ after_recv (record s { receiver = idle }) (recv s.chan)
  unfolding recv peek ack
  recv_from_idle s free =
      let own : (get s.chan s.chan.rd_idx == get s.chan s.chan.rd_idx) ≡ true = ground arith in
      elim (Bool-cases s.chan.poisoned) [
        | inl dead ↦ rw dead refl
        | inr alive ↦ elim (Bool-cases (s.chan.rd_idx == s.chan.wr_idx)) [
          | inl e ↦ rw (alive, e, free) refl
          | inr e ↦ elim (Bool-cases (s.chan.rd_idx == next s.chan s.chan.wr_idx)) [
            | inl f ↦ rw (alive, e, free, f, own) refl
            | inr f ↦ rw (alive, e, free, f, own) refl
          ]
        ]
      ]

  -- A call of `channel_send` by the producer that is not interrupted, and at whose begin the consumer
  -- does not hold the lock, does in its eight moves what `send` does at once: the channel and the
  -- element are the same, and the consumer is woken exactly if it signals; where it would wait, the
  -- producer is asleep and nothing else has changed.
  pub send_alone :
      (s : Sys A) (x : A)
      → s.sender ≡ idle
      → holds s.receiver ≡ false
      → schedule s (replicate 8 (produce x)) ≡ after_send s x (send s.chan x)
  send_alone s x h free =
      subst (λ (u : Sys A). schedule u (replicate 8 (produce x)) ≡ after_send u x (send s.chan x))
        (ap (λ pc. record s { sender = pc }) (sym h)) (send_from_idle s x free)

  -- A call of `channel_recv` by the consumer that is not interrupted, and at whose begin the producer
  -- does not hold the lock, does in its eight moves what `recv` does at once: the channel and the
  -- element are the same, and the producer is woken exactly if it signals; where it would wait, the
  -- consumer is asleep and nothing else has changed.
  pub recv_alone :
      (s : Sys A)
      → s.receiver ≡ idle
      → holds s.sender ≡ false
      → schedule s (replicate 8 consume) ≡ after_recv s (recv s.chan)
  recv_alone s h free =
      subst (λ (u : Sys A). schedule u (replicate 8 consume) ≡ after_recv u (recv s.chan))
        (ap (λ pc. record s { receiver = pc }) (sym h)) (recv_from_idle s free)
