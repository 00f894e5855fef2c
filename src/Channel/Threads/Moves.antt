-- ===== src/Channel/Threads/Moves.antt =====
-- Every move of the two threads, of the poisoning and of the system keeps the invariant.
use hairgap.Channel.{next}
use hairgap.Channel.Indices.{contents_kept, contents_published}
use hairgap.Channel.Valid.{contents}
use hairgap.Channel.Threads.{
  Pc, idle, checked, wanting, tested, asleep, passed, holding, filled, allowed, publishing,
  signalling, Killer, calm, marked, half, spent, Sys, Turn, produce, consume, kill, spurious_sender,
  spurious_receiver, holds, advance, wake, signal, listed, send_move, recv_move, kill_move, turn,
}
use hairgap.Channel.Threads.Control.{moves_index}
use hairgap.Channel.Threads.Handover.{Sound-swap, move-Sound, wake-Sound, dead-Sound, publish-Sound}
use hairgap.Channel.Threads.Contents.{
  has_copied, copies, full, empty, Inv, copy-IsValid, write-IsValid, read-IsValid, kill-IsValid,
  copied_there, copied_elsewhere, has_copied-sound, empty_after_write, full_after_read,
  contents_taken,
}
use hairgap.Prelude.{
  append_assoc, ◌≡◌, refl, sym, ap, ◌∙◌, Bool, true, false, not, ◌&&◌, [], ◌∷◌, ◌++◌, arith,
}

advance-has_copied :
    (mine dead free flag : Bool) (pc : Pc)
    → copies pc ≡ false
    → has_copied (advance mine dead free flag pc) ≡ true
    → has_copied pc ≡ true
advance-has_copied mine dead free flag idle n h = ground arith
advance-has_copied mine dead free flag checked n h = ground arith
advance-has_copied mine dead free flag wanting n h = ground arith
advance-has_copied mine dead free flag tested n h = ground arith
advance-has_copied mine dead free flag asleep n h = ground arith
advance-has_copied mine dead free flag passed n h = ground arith
advance-has_copied mine dead free flag holding n h = ground arith
advance-has_copied mine dead free flag filled n h = ground arith
advance-has_copied mine dead free flag allowed n h = ground arith
advance-has_copied mine dead free flag (publishing f) n h = ground arith
advance-has_copied mine dead free flag (signalling f) n h = ground arith

has_copied-wake : (pc : Pc) → has_copied (wake pc) ≡ has_copied pc
has_copied-wake idle = refl
has_copied-wake checked = refl
has_copied-wake wanting = refl
has_copied-wake tested = refl
has_copied-wake asleep = refl
has_copied-wake passed = refl
has_copied-wake holding = refl
has_copied-wake filled = refl
has_copied-wake allowed = refl
has_copied-wake (publishing f) = refl
has_copied-wake (signalling f) = refl

has_copied-signal : (pc other : Pc) → has_copied (signal pc other) ≡ has_copied other
has_copied-signal (signalling true) other = has_copied-wake other
has_copied-signal idle other = refl
has_copied-signal checked other = refl
has_copied-signal wanting other = refl
has_copied-signal tested other = refl
has_copied-signal asleep other = refl
has_copied-signal passed other = refl
has_copied-signal holding other = refl
has_copied-signal filled other = refl
has_copied-signal allowed other = refl
has_copied-signal (publishing f) other = refl
has_copied-signal (signalling false) other = refl

module _ {A : Type 0} where
  module _ {s : Sys A} (i : Inv s) where
    open i use {valid, control, order, prepared, fetched}

    -- A producer's move that neither copies nor moves the index.
    send_quiet :
        moves_index s.sender ≡ false
        → copies s.sender ≡ false
        → Inv (record s {
          sender =
              advance
                (full s.chan && not s.chan.poisoned)
                s.chan.poisoned
                (not (holds s.receiver))
                (empty s.chan && not s.chan.poisoned)
                s.sender;
          receiver = signal s.sender s.receiver;
        })
    send_quiet n m = record {
      valid = valid;
      control = move-Sound n control;
      order = order;
      prepared = λ h. prepared (advance-has_copied _ _ _ _ s.sender m h);
      fetched = λ h. fetched (sym (has_copied-signal s.sender s.receiver) ∙ h);
    }

    recv_quiet :
        moves_index s.receiver ≡ false
        → copies s.receiver ≡ false
        → Inv (record s {
          receiver =
              advance
                (empty s.chan && not s.chan.poisoned)
                s.chan.poisoned
                (not (holds s.sender))
                (full s.chan && not s.chan.poisoned)
                s.receiver;
          sender = signal s.receiver s.sender;
        })
    recv_quiet n m = record {
      valid = valid;
      control = Sound-swap (move-Sound n (Sound-swap control));
      order = order;
      prepared = λ h. prepared (sym (has_copied-signal s.receiver s.sender) ∙ h);
      fetched = λ h. fetched (advance-has_copied _ _ _ _ s.receiver m h);
    }

    wake_sender-Inv : Inv (record s { sender = wake s.sender })
    wake_sender-Inv = record {
      valid = valid;
      control = wake-Sound control;
      order = order;
      prepared = λ h. prepared (sym (has_copied-wake s.sender) ∙ h);
      fetched = fetched;
    }

    wake_receiver-Inv : Inv (record s { receiver = wake s.receiver })
    wake_receiver-Inv = record {
      valid = valid;
      control = Sound-swap (wake-Sound (Sound-swap control));
      order = order;
      prepared = prepared;
      fetched = λ h. fetched (sym (has_copied-wake s.receiver) ∙ h);
    }

    killer-Inv : (k : Killer) → Inv (record s { killer = k })
    killer-Inv k = record {
      valid = valid;
      control = control;
      order = order;
      prepared = prepared;
      fetched = fetched;
    }

  module _ (s : Sys A) where
    sent-Inv :
        (x : A) (pc : Pc)
        → Inv (record s { sender = pc })
        → Inv (send_move x (record s { sender = pc }))
    sent-Inv x holding i = record {
      valid = copy-IsValid i.valid x;
      control = move-Sound refl i.control;
      order =
          i.order
          ∙ ap (λ ys. s.got ++ ys)
              (sym (contents_kept i.valid x (ground (arith, i.control.sending))));
      prepared = λ h. (x, refl, copied_there i.valid x);
      fetched = λ h.
          i.fetched h
          ∙ sym (
              copied_elsewhere i.valid x
                (has_copied-sound _ _ _ _ s.receiver h i.control.receiving));
    }
    sent-Inv x (publishing b) i =
        let (y, e, f) = i.prepared refl in
        record {
          valid = write-IsValid i.valid;
          control = rw (empty_after_write i.valid (ground (arith, i.control.sending))) (
              publish-Sound (full (record s.chan { wr_idx = next s.chan s.chan.wr_idx })) b
                i.control);
          order = rw e (
              ap (λ ys. ys ++ (y ∷ [])) i.order
              ∙ append_assoc s.got (contents s.chan) (y ∷ [])
              ∙ ap (λ ys. s.got ++ ys)
                  (sym (contents_published i.valid y (ground (arith, i.control.sending)) f)));
          prepared = λ h. ground arith;
          fetched = i.fetched;
        }
    sent-Inv x idle i = send_quiet i refl refl
    sent-Inv x checked i = send_quiet i refl refl
    sent-Inv x wanting i = send_quiet i refl refl
    sent-Inv x tested i = send_quiet i refl refl
    sent-Inv x asleep i = send_quiet i refl refl
    sent-Inv x passed i = send_quiet i refl refl
    sent-Inv x filled i = send_quiet i refl refl
    sent-Inv x allowed i = send_quiet i refl refl
    sent-Inv x (signalling f) i = send_quiet i refl refl

    received-Inv :
        (pc : Pc) → Inv (record s { receiver = pc }) → Inv (recv_move (record s { receiver = pc }))
    received-Inv holding i = record {
      valid = i.valid;
      control = Sound-swap (move-Sound refl (Sound-swap i.control));
      order = i.order;
      prepared = i.prepared;
      fetched = λ h. refl;
    }
    received-Inv (publishing b) i = record {
      valid = read-IsValid i.valid;
      control = Sound-swap (
          rw (full_after_read i.valid (ground (arith, i.control.receiving))) (
            publish-Sound (empty (record s.chan { rd_idx = next s.chan s.chan.rd_idx })) b
              (Sound-swap i.control)));
      order =
          i.order
          ∙ ap (λ ys. s.got ++ ys)
              (contents_taken i.valid s.taken (ground (arith, i.control.receiving))
                (i.fetched refl))
          ∙ sym (
              append_assoc s.got (listed s.taken)
                (contents (record s.chan { rd_idx = next s.chan s.chan.rd_idx })));
      prepared = i.prepared;
      fetched = λ h. ground arith;
    }
    received-Inv idle i = recv_quiet i refl refl
    received-Inv checked i = recv_quiet i refl refl
    received-Inv wanting i = recv_quiet i refl refl
    received-Inv tested i = recv_quiet i refl refl
    received-Inv asleep i = recv_quiet i refl refl
    received-Inv passed i = recv_quiet i refl refl
    received-Inv filled i = recv_quiet i refl refl
    received-Inv allowed i = recv_quiet i refl refl
    received-Inv (signalling f) i = recv_quiet i refl refl

    killed-Inv :
        (k : Killer) → Inv (record s { killer = k }) → Inv (kill_move k (record s { killer = k }))
    killed-Inv calm i = record {
      valid = kill-IsValid i.valid;
      control = dead-Sound i.control;
      order = i.order;
      prepared = i.prepared;
      fetched = i.fetched;
    }
    killed-Inv marked i = killer-Inv (wake_sender-Inv i) half
    killed-Inv half i = killer-Inv (wake_receiver-Inv i) spent
    killed-Inv spent i = i

    -- Every turn keeps the invariant.
    pub turn-Inv : (t : Turn A) → Inv s → Inv (turn s t)
    turn-Inv (produce x) i = sent-Inv x s.sender i
    turn-Inv consume i = received-Inv s.receiver i
    turn-Inv kill i = killed-Inv s.killer i
    turn-Inv spurious_sender i = wake_sender-Inv i
    turn-Inv spurious_receiver i = wake_receiver-Inv i
