-- ===== src/Receive/Reader.antt =====
-- What `hgapr_net_reader` of src/lib/hgap_receive.c does with its socket, and with what arrives on it.
use hairgap.Code.{to_int, err_timeout, success}
use hairgap.Receive.Network.{Intake, Network, slot_of, net_loop, net_result}
use hairgap.Receive.Forwarding.{
  Arrived, IsEnd, intake, intakes, slots_of, any_begin, fitted, all_fitted, Fits, fitted_lem,
  all_fitted_lem, net_loop_forwards, silence, net_loop-silence,
}
use hairgap.Receive.Socket.{
  Binding, open_udp_socket, timeout_of, Pill, NetReader, closing, unopened, after_open, net_reader,
}
use hairgap.Socket.{inaddr_none}
use hairgap.Prelude.{
  ◌==◌, if◌then◌else◌, All, ret, exited, ◌>>=◌, ℕ, ◌+◌, ◌*◌, ◌<◌, ◌≡◌, ◌≢◌, refl, sym, ap, ap₂,
  subst, ◌∙◌, ◌⊎◌, Bool-cases, >>=-eq-ret, inl, inr, Bool, true, false, not, ◌&&◌, Option, none,
  some, List, [], ◌∷◌, ◌++◌, arith,
}

abbrev pub opened : Binding → List ℕ
opened b = elim b.socket [ none ↦ [] | some fd ↦ fd ∷ [] ]

-- The timeout is the configured one, in the form that the system takes.
pub timeout_of-total :
    (timeout : ℕ)
    → ((timeout_of timeout).tv_sec * 1000000 + (timeout_of timeout).tv_usec ≡ timeout)
      × ((timeout_of timeout).tv_usec < 1000000)
timeout_of-total timeout = (omega arith, omega arith)

and_false : (a : Bool) → (a && false) ≡ false
and_false true = refl
and_false false = refl

-- A socket that cannot be used is closed at once.
open_cases :
    (socket : Option ℕ) (addr : ℕ) (bound : Bool)
    → let b : Binding = record { socket = socket; inet_addr = addr; bound = bound } in
      (open_udp_socket b ≡ (none, opened b))
      ⊎ ((fd : ℕ) × (open_udp_socket b ≡ (some fd, [])) × (opened b ≡ fd ∷ []))
unfolding open_udp_socket
open_cases none addr bound = inl refl
open_cases (some fd) addr bound = elim (Bool-cases (addr == inaddr_none)) [
  | inl bad ↦ inl (rw bad refl)
  | inr good ↦ elim (Bool-cases bound) [
    | inl works ↦ inr (fd, rw (good, works) refl, refl)
    | inr unbound ↦ inl (rw (good, unbound) refl)
  ]
]

closing-closes :
    (fd : ℕ) (closed : List ℕ) (timeout : ℕ) (pill : Pill) (n : Network) (e : Option ℕ) {retval : ℕ}
    → (closing fd closed timeout pill (record n { ended = e })).result ≡ some retval
    → (closing fd closed timeout pill (record n { ended = e })).closed ≡ closed ++ (fd ∷ [])
unfolding closing
closing-closes fd closed timeout pill n none h = cc
closing-closes fd closed timeout pill n (some e) h = refl

net_reader-unopened :
    (b : Binding) (sets : Bool) (mtu timeout : ℕ) (pill : Pill) (is : List Intake)
    → open_udp_socket b ≡ (none, opened b)
    → net_reader b sets mtu timeout pill is ≡ ret (unopened (opened b) pill)
unfolding net_reader after_open
net_reader-unopened b sets mtu timeout pill is q = rw (q, net_reader) refl

net_reader-opened :
    (b : Binding) (sets : Bool) (mtu timeout : ℕ) (pill : Pill) (is : List Intake) (fd : ℕ)
    → open_udp_socket b ≡ (some fd, [])
    → net_reader b sets mtu timeout pill is ≡ (
        net_loop mtu false [] is >>= λ n.
        if n.started && not sets then exited else ret (closing fd [] timeout pill n))
unfolding net_reader after_open
net_reader-opened b sets mtu timeout pill is fd q = rw (q, net_reader) refl

-- Whatever the system answers: once `hgapr_net_reader` returns, it has closed the socket that it opened,
-- and once only.
pub net_reader_closes :
    (b : Binding) (sets : Bool) (mtu timeout : ℕ) (pill : Pill) (is : List Intake) {r : NetReader}
    {retval : ℕ}
    → net_reader b sets mtu timeout pill is ≡ ret r
    → r.result ≡ some retval
    → r.closed ≡ opened b
unfolding unopened
net_reader_closes b sets mtu timeout pill is {r} {retval} e over =
    elim (open_cases b.socket b.inet_addr b.bound) [
      | inl q ↦
          let same : unopened (opened b) pill ≡ r =
            cc (net_reader-unopened b sets mtu timeout pill is q, e) in
          ap (λ (x : NetReader). x.closed) (sym same)
      | inr (fd, q, one) ↦
          let (n, _, tail) =
            >>=-eq-ret (net_loop mtu false [] is)
              (λ n. if n.started && not sets then exited else ret (closing fd [] timeout pill n))
              (sym (net_reader-opened b sets mtu timeout pill is fd q) ∙ e) in
          elim (Bool-cases (n.started && not sets)) [
            | inl refused ↦ ground (arith, refused, tail)
            | inr set ↦
                let same : closing fd [] timeout pill n ≡ r = ground (arith, set, tail) in
                ap (λ (x : NetReader). x.closed) (sym same)
                ∙ closing-closes fd [] timeout pill n n.ended
                    (ap (λ (x : NetReader). x.result) same ∙ over)
                ∙ sym one
          ]
    ]

-- Where the socket is made, the address is one and it can be bound, the timeout can be set and the
-- channel takes everything: `hgapr_net_reader` hands over all packets, of each as much as fits a slot, up to
-- the first one that ends a transfer, that one included, in order, and then the poison; it sets the
-- configured timeout exactly if one of them begins a transfer, closes the socket and returns success.
pub net_reader_whole :
    (fd addr mtu timeout : ℕ) (ps : List Arrived) (final : Arrived) (later : List Intake)
    → addr ≢ inaddr_none
    → All (λ a. ¬ IsEnd a) (all_fitted mtu ps)
    → IsEnd (fitted mtu final)
    → net_reader
        (record { socket = some fd; inet_addr = addr; bound = true })
        true
        mtu
        timeout
        (record { reserved = true; sent = true })
        (intakes ps ++ (intake final ∷ later))
      ≡ ret (record {
        slots =
            slots_of (all_fitted mtu ps)
            ++ (slot_of (fitted mtu final).raw (fitted mtu final).size ∷ []);
        closed = fd ∷ [];
        timeout = if any_begin (all_fitted mtu ps) then some (timeout_of timeout) else none;
        poisoned = true;
        result = some (to_int success);
      })
unfolding open_udp_socket closing net_result
net_reader_whole fd addr mtu timeout ps final later good quiet over =
    let b : Binding = record { socket = some fd; inet_addr = addr; bound = true } in
    let other : (addr == inaddr_none) ≡ false = ground (arith, good) in
    let pill : Pill = record { reserved = true; sent = true } in
    let usable : open_udp_socket b ≡ (some fd, []) = rw other refl in
    let never : (any_begin (all_fitted mtu ps) && false) ≡ false =
      and_false (any_begin (all_fitted mtu ps)) in
    net_reader-opened b true mtu timeout pill (intakes ps ++ (intake final ∷ later)) fd usable
    ∙ rw (net_loop_forwards mtu ps final later quiet over, never) refl

-- The same, where the timeout of the socket ends the loop.
net_reader-silence :
    (fd addr mtu timeout : ℕ) (ps : List Arrived) (later : List Intake)
    → addr ≢ inaddr_none
    → All (λ a. ¬ IsEnd a) (all_fitted mtu ps)
    → net_reader
        (record { socket = some fd; inet_addr = addr; bound = true })
        true
        mtu
        timeout
        (record { reserved = true; sent = true })
        (intakes ps ++ (silence ∷ later))
      ≡ ret (record {
        slots = slots_of (all_fitted mtu ps);
        closed = fd ∷ [];
        timeout = if any_begin (all_fitted mtu ps) then some (timeout_of timeout) else none;
        poisoned = true;
        result = some (to_int err_timeout);
      })
unfolding open_udp_socket closing net_result
net_reader-silence fd addr mtu timeout ps later good quiet =
    let b : Binding = record { socket = some fd; inet_addr = addr; bound = true } in
    let other : (addr == inaddr_none) ≡ false = ground (arith, good) in
    let pill : Pill = record { reserved = true; sent = true } in
    let usable : open_udp_socket b ≡ (some fd, []) = rw other refl in
    let never : (any_begin (all_fitted mtu ps) && false) ≡ false =
      and_false (any_begin (all_fitted mtu ps)) in
    net_reader-opened b true mtu timeout pill (intakes ps ++ (silence ∷ later)) fd usable
    ∙ rw (net_loop-silence mtu false [] ps later quiet, never) refl

-- Both, where the packets fit their slots.
pub net_reader-fitted :
    (fd addr mtu timeout : ℕ) (ps : List Arrived) (final : Arrived) (later : List Intake)
    → addr ≢ inaddr_none
    → All (Fits mtu) ps
    → Fits mtu final
    → All (λ a. ¬ IsEnd a) ps
    → IsEnd final
    → net_reader
        (record { socket = some fd; inet_addr = addr; bound = true })
        true
        mtu
        timeout
        (record { reserved = true; sent = true })
        (intakes ps ++ (intake final ∷ later))
      ≡ ret (record {
        slots = slots_of ps ++ (slot_of final.raw final.size ∷ []);
        closed = fd ∷ [];
        timeout = if any_begin ps then some (timeout_of timeout) else none;
        poisoned = true;
        result = some (to_int success);
      })
net_reader-fitted fd addr mtu timeout ps final later good fit fit_last quiet over =
    let same : all_fitted mtu ps ≡ ps = all_fitted_lem mtu ps fit in
    let same_last : fitted mtu final ≡ final = fitted_lem mtu final fit_last in
    net_reader_whole fd addr mtu timeout ps final later good
      (subst (All (λ a. ¬ IsEnd a)) (sym same) quiet) (subst IsEnd (sym same_last) over)
    ∙ ap₂
        (λ (qs : List Arrived) (q : Arrived). ret (record {
          slots = slots_of qs ++ (slot_of q.raw q.size ∷ []);
          closed = fd ∷ [];
          timeout = if any_begin qs then some (timeout_of timeout) else none;
          poisoned = true;
          result = some (to_int success);
        }))
        same same_last

pub net_reader-silence-fitted :
    (fd addr mtu timeout : ℕ) (ps : List Arrived) (later : List Intake)
    → addr ≢ inaddr_none
    → All (Fits mtu) ps
    → All (λ a. ¬ IsEnd a) ps
    → net_reader
        (record { socket = some fd; inet_addr = addr; bound = true })
        true
        mtu
        timeout
        (record { reserved = true; sent = true })
        (intakes ps ++ (silence ∷ later))
      ≡ ret (record {
        slots = slots_of ps;
        closed = fd ∷ [];
        timeout = if any_begin ps then some (timeout_of timeout) else none;
        poisoned = true;
        result = some (to_int err_timeout);
      })
net_reader-silence-fitted fd addr mtu timeout ps later good fit quiet =
    let same : all_fitted mtu ps ≡ ps = all_fitted_lem mtu ps fit in
    net_reader-silence fd addr mtu timeout ps later good
      (subst (All (λ a. ¬ IsEnd a)) (sym same) quiet)
    ∙ ap
        (λ (qs : List Arrived). ret (record {
          slots = slots_of qs;
          closed = fd ∷ [];
          timeout = if any_begin qs then some (timeout_of timeout) else none;
          poisoned = true;
          result = some (to_int err_timeout);
        }))
        same
