-- ===== src/Programs/Diode.antt =====
-- What `hgap_send` reads at one end of the diode is what `hgap_receive` writes at the other.
use hairgap.Wirehair.{Wirehair, Floating, Recovers}
use hairgap.Code.{to_int, success}
use hairgap.Config.{Config, check_config_sender, check_config_receiver}
use hairgap.Proto.{Pkt, first_reserved}
use hairgap.Encoding.Encode.{encoder_new}
use hairgap.Receive.Network.{Intake}
use hairgap.Socket.{inaddr_none}
use hairgap.Receive.Forwarding.{intake, intakes}
use hairgap.Send.Reader.{Source}
use hairgap.Send.Cutting.{IsStdio}
use hairgap.Pipeline.Arrivals.{Arrival, copy}
use hairgap.Pipeline.Flight.{AllArrive}
use hairgap.Pipeline.Onward.{landed, onward, OtherFits}
use hairgap.Programs.Sender.{SendRun, send_run, Serves}
use hairgap.Programs.Received.{Received}
use hairgap.Programs.Sent.{hgap_send_whole}
use hairgap.Programs.Broken.{hgap_transported_front}
use hairgap.Session.{mtu}
use hairgap.Prelude.{
  All, ◌≤◌, concat, sym, ◌≢◌, length, ret, ℕ, ◌<◌, ◌≡◌, ap, ◌∙◌, subst, Bool, false, some, List,
  ◌∷◌, ◌++◌,
}

-- On channels that accept everything and an output that takes every chunk whole, where wirehair
-- recovers what it encoded and malloc gives as many bytes as asked for: where `hgap_send`, on a
-- configuration that it accepts and for which every chunk that fits the buffer is encoded and
-- sent within the fuel, and on an input without errors that behaves as stdio documents and has
-- fewer bytes than there are chunk numbers, has run with all its threads, with a round for each
-- byte and one more, and of its packets the first one, enough of each chunk in whatever order and
-- number before the next, and the last one arrive, with whatever other packets between that are
-- not data and do not end a transfer, and anything behind: the threads of `hgap_receive`, on a
-- configuration that it accepts, whose packet size is not below the sender's nor below any other
-- packet that arrives, and a socket that can be used, end, what they wrote is the input, and
-- `hgap_receive` returns success.
pub hgap_transported :
    (w : Wirehair) (f : Floating)
    → Recovers w
    → (junk : Pkt) (malloc : ℕ → List ℕ) → ((n : ℕ) → length (malloc n) ≡ n)
    → {Addr : Type 0} (resolves : Addr → Bool) (c : Config Addr f.Double)
    → check_config_sender resolves f c ≡ success
    → (fuel : ℕ) → Serves w f resolves c fuel
    → (src : Source) (rest : src.State → List ℕ) → IsStdio src rest
    → ((s : src.State) → src.failed s ≡ false)
    → (s : src.State) (rounds : ℕ) → length (rest s) < rounds
    → length (rest s) < first_reserved
    → (r : SendRun src.State w.State) → send_run w f resolves src c fuel rounds s ≡ ret (some r)
    → (arrivals : List (List Arrival)) (first last before after : List ℕ)
    → r.output.announced ≡ some first
    → r.output.closed ≡ some last
    → AllArrive w (encoder_new c.pkt_size) r.input.chunks r.output.groups arrivals
    → {Addr' D : Type 0} (resolves' : Addr' → Bool) (c' : Config Addr' D)
    → check_config_receiver resolves' c' ≡ success
    → c.pkt_size ≤ mtu c'
    → All (All (OtherFits (mtu c'))) arrivals
    → (fd address : ℕ) → address ≢ inaddr_none
    → (later : List Intake)
    → Received w junk malloc resolves' c' fd address
        (intakes (landed (copy first before) ∷ onward arrivals)
          ++ (intake (landed (copy last after)) ∷ later))
        (rest s)
        (to_int success)
hgap_transported w f law junk malloc alloc resolves c ok fuel serves src rest io sound s rounds
      enough few r run arrivals first last before after announced closed got resolves' c' ok' room
      others fd address usable later =
    let (r', run', all, _) =
      hgap_send_whole w f resolves c ok fuel serves law src rest io sound s rounds enough few in
    let same : r' ≡ r = cc (run, run') in
    subst
      (λ bytes.
        Received w junk malloc resolves' c' fd address
          (intakes (landed (copy first before) ∷ onward arrivals)
            ++ (intake (landed (copy last after)) ∷ later))
          bytes (to_int success))
      (ap (λ (q : SendRun src.State w.State). concat q.input.chunks) (sym same) ∙ all)
      (hgap_transported_front w f law junk malloc alloc resolves c ok fuel serves src rest io s
        rounds enough few r run arrivals first last before after announced closed got resolves' c'
        ok' room others fd address usable later)
