-- ===== src/Socket.antt =====
-- The socket sender of src/lib/sender.c. The operating system's answers are lists, one entry for each
-- call; a run that wants more of them than there are is `none`.
pub mod Salve
pub mod Keepalive
use hairgap.Wirehair.{Floating}
use hairgap.Limiter.{Timeval, Limiter, limiter_new, limit}
use hairgap.Proto.{header_len, salve_len, header_keepalive, write_header}
use hairgap.Prelude.{
  ltb, leb, ◌==◌, if◌then◌else◌, replicate, Outcome, ret, exited, fault, ◌>>=◌, ℕ, zero, suc, ◌+◌,
  ◌*◌, ◌/◌, ◌%◌, Bool, true, false, not, Option, none, some, List, [], ◌∷◌, ◌++◌, u32,
}

-- What the calls of the system answer from now on, and the packets given to `sendto` so far. `results`
-- are those of `sendto`, `none` for -1; `readings` those of `gettimeofday`.
pub record World : Type 0 where
  pub results : List (Option ℕ)
  pub readings : List Timeval
  pub packets : List (List ℕ)

-- `struct hgap_sender`, with the fields of `dstaddr` that are set.
pub record Sender (Double : Type 0) : Type 0 where
  pub sin_addr : ℕ
  pub sin_port : ℕ
  pub socket : ℕ
  pub keepalive : ℕ
  pub hlim : Limiter Double
  pub cont : Bool

-- The answers to the calls of `hgap_sender_new`: `socket`, `inet_addr`, the clock, and whether
-- `pthread_create` makes the thread.
pub record Opening : Type 0 where
  pub opened : Option ℕ
  pub inet_addr : ℕ
  pub now : Timeval
  pub threaded : Bool

-- INADDR_NONE, which `inet_addr` returns for a text that is no address in dotted notation
abbrev pub inaddr_none : ℕ
inaddr_none = 0xffffffff

module _ (f : Floating) where
  open f use {Double, of_size}

  -- `hgap_sender_new`. `port` is in the order that `htons` gives.
  unfoldable pub sender_new : ℕ → ℕ → ℕ → Opening → Option (Sender Double)
  sender_new port byterate keepalive o = elim o.opened [
    | none ↦ none
    | some fd ↦
        let hs : Sender Double = record {
          sin_addr = o.inet_addr;
          sin_port = port;
          socket = fd;
          keepalive = keepalive;
          hlim = limiter_new f (of_size byterate) o.now;
          cont = not (keepalive == 0);
        } in
        if o.inet_addr == 0
        then none
        else (if keepalive == 0 then some hs else (if o.threaded then some hs else none))
  ]

  -- `hgap_sender_send`: the sender, the result, and the world behind the call.
  unfoldable pub sender_send :
      Sender Double → List ℕ → World → Option (Sender Double × Option ℕ × World)
  sender_send hs pkt w = elim w.results [
    | [] ↦ none
    | none ∷ later ↦
        some (hs, none, record w { results = later; packets = w.packets ++ (pkt ∷ []) })
    | some n ∷ later ↦ elim (limit f hs.hlim n w.readings) [
      | none ↦ none
      | some (hlim, readings) ↦ some (
        record hs { hlim = hlim },
        some n,
        record { results = later; readings = readings; packets = w.packets ++ (pkt ∷ []) },
      )
    ]
  ]

  -- The loop of `hgap_sender_control`, with the sends that are left.
  unfoldable pub salve :
      ℕ → Sender Double → List ℕ → World → Option (Sender Double × Option ℕ × World)
  unfolding sender_send
  salve zero hs pkt w = some (hs, some 0, w)
  salve (suc n) hs pkt w = elim (sender_send hs pkt w) [
    | none ↦ none
    | some (hs', none, w') ↦ some (hs', none, w')
    | some (hs', some m, w') ↦ salve n hs' pkt w'
  ]

  -- `hgap_sender_control`
  unfoldable pub sender_control :
      Sender Double → List ℕ → World → Option (Sender Double × Option ℕ × World)
  unfolding salve
  sender_control hs pkt w = salve salve_len hs pkt w

-- A wait of the thread of the keepalives.
pub data Nap : Type 0 where
  seconds : ℕ → Nap
  micros : ℕ → Nap

abbrev pub nap : ℕ → Nap
nap keepalive =
    if leb 1000 keepalive then seconds (keepalive / 1000) else micros (u32 (keepalive * 1000))

-- What the thread of the keepalives does, one after the other.
pub data Beat : Type 0 where
  waits : Nap → Beat
  sends : List ℕ → Beat

-- What the thread of the keepalives has done.
pub record Kept (Double : Type 0) : Type 0 where
  pub sender : Sender Double
  pub world : World
  pub beats : List Beat

module _ (f : Floating) where
  open f use {Double}

  -- The loop of `keepalive_loop_thread`, over the values of `*cont` that it reads.
  unfoldable pub keepalive_rounds :
      ℕ → List ℕ → List Bool → Kept Double → Outcome (Option (Kept Double))
  keepalive_rounds keepalive pkt [] k = ret none
  keepalive_rounds keepalive pkt (false ∷ conts) k = ret (some k)
  keepalive_rounds keepalive pkt (true ∷ conts) k =
      let waited : Kept Double = record k { beats = k.beats ++ (waits (nap keepalive) ∷ []) } in
      elim (sender_send f waited.sender pkt waited.world) [
        | none ↦ ret none
        | some (hs, none, w) ↦ exited
        | some (hs, some n, w) ↦
            keepalive_rounds keepalive pkt conts
              (record { sender = hs; world = w; beats = waited.beats ++ (sends pkt ∷ []) })
      ]

  -- `keepalive_loop_thread`. `mem` is what stands in `ka_pkt` before.
  unfoldable pub keepalive_loop :
      List ℕ → List Bool → Sender Double → World → Outcome (Option (Kept Double))
  unfolding keepalive_rounds
  keepalive_loop mem conts hs w = do
    pkt ← write_header header_keepalive mem
    keepalive_rounds hs.keepalive pkt conts (record { sender = hs; world = w; beats = [] })
