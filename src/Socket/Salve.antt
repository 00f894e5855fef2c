-- ===== src/Socket/Salve.antt =====
-- What `hgap_sender_new`, `hgap_sender_send` and `hgap_sender_control` of src/lib/sender.c do.
use hairgap.Wirehair.{Floating}
use hairgap.Limiter.{Timeval, Limiter, count, limit}
use hairgap.Socket.{World, Sender, sender_send, salve, sender_control}
use hairgap.Prelude.{
  Option-cases, replicate, length, append-nil, append_assoc, ℕ, ◌≤◌, zero, suc, ◌<◌, ◌≡◌, refl, sym,
  ap, ◌∙◌, ◌⊎◌, inl, inr, true, Option, none, some, List, [], ◌∷◌, ◌++◌, arith,
}

abbrev pub somes : List ℕ → List (Option ℕ)
somes [] = []
somes (n ∷ ns) = some n ∷ somes ns

-- `n` packets went out, and the calls of `sendto` answered `oks`.
pub record WentOut (n : ℕ) (pkt : List ℕ) (w w' : World) (oks : List ℕ) : Type 0 where
  pub all : length oks ≡ n
  pub answers : w.results ≡ somes oks ++ w'.results
  pub packets : w'.packets ≡ w.packets ++ replicate n pkt

-- One of the first `n` calls of `sendto` failed, behind those that answered `oks`.
pub record BrokeOff (n : ℕ) (pkt : List ℕ) (w w' : World) (oks : List ℕ) : Type 0 where
  pub early : length oks < n
  pub answers : w.results ≡ somes oks ++ (none ∷ w'.results)
  pub packets : w'.packets ≡ w.packets ++ replicate (suc (length oks)) pkt

module _ (f : Floating) where
  open f use {Double, of_size, equal, zero_double}

  -- What one call of `hgap_sender_send` gives: it waits, it failed, or it went.
  pub Waits : Sender Double → List ℕ → World → Type 0
  Waits hs pkt w = sender_send f hs pkt w ≡ none

  pub record Fails (hs : Sender Double) (pkt : List ℕ) (w : World) : Type 0 where
    pub behind : World
    pub answers : w.results ≡ none ∷ behind.results
    pub packets : behind.packets ≡ w.packets ++ (pkt ∷ [])
    pub result : sender_send f hs pkt w ≡ some (hs, none, behind)

  pub record Goes (hs : Sender Double) (pkt : List ℕ) (w : World) : Type 0 where
    pub sender : Sender Double
    pub count : ℕ
    pub behind : World
    pub answers : w.results ≡ some count ∷ behind.results
    pub packets : behind.packets ≡ w.packets ++ (pkt ∷ [])
    pub result : sender_send f hs pkt w ≡ some (sender, some count, behind)

  send_of :
      (hs : Sender Double) (pkt : List ℕ) (rs : List (Option ℕ)) (ts : List Timeval)
      (ps : List (List ℕ))
      → let w : World = record { results = rs; readings = ts; packets = ps } in
        Waits hs pkt w ⊎ (Fails hs pkt w ⊎ Goes hs pkt w)
  unfolding sender_send Waits
  send_of hs pkt [] ts ps = inl refl
  send_of hs pkt (none ∷ rs) ts ps =
      inr (inl (record { behind = _; answers = refl; packets = refl; result = refl }))
  send_of hs pkt (some n ∷ rs) ts ps = elim (Option-cases (limit f hs.hlim n ts)) [
    | inl e ↦ inl (rw (e, sender_send) refl)
    | inr (r, e) ↦ inr (
        inr (record {
          sender = record hs { hlim = r.0 };
          count = n;
          behind = record { results = rs; readings = r.1; packets = ps ++ (pkt ∷ []) };
          answers = refl;
          packets = refl;
          result = rw (e, sender_send) refl;
        }))
  ]

  send_cases :
      (hs : Sender Double) (pkt : List ℕ) (w : World)
      → Waits hs pkt w ⊎ (Fails hs pkt w ⊎ Goes hs pkt w)
  send_cases hs pkt w = send_of hs pkt w.results w.readings w.packets

  salve-Waits :
      (n : ℕ) (hs : Sender Double) (pkt : List ℕ) (w : World)
      → Waits hs pkt w
      → salve f (suc n) hs pkt w ≡ none
  unfolding salve Waits
  salve-Waits n hs pkt w e = rw (e, salve) refl

  module _ (n : ℕ) {hs : Sender Double} {pkt : List ℕ} {w : World} where
    salve-Fails : (c : Fails hs pkt w) → salve f (suc n) hs pkt w ≡ some (hs, none, c.behind)
    unfolding salve
    salve-Fails c = rw (c.result, salve) refl

    salve-Goes : (c : Goes hs pkt w) → salve f (suc n) hs pkt w ≡ salve f n c.sender pkt c.behind
    unfolding salve
    salve-Goes c = rw (c.result, salve) refl

  carry_on :
      (n : ℕ) {hs : Sender Double} {pkt : List ℕ} {w w' : World} {r : Option ℕ} (c : Goes hs pkt w)
      (oks : List ℕ)
      → ((r ≡ some 0) × WentOut n pkt c.behind w' oks)
        ⊎ ((r ≡ none) × BrokeOff n pkt c.behind w' oks)
      → ((r ≡ some 0) × WentOut (suc n) pkt w w' (c.count ∷ oks))
        ⊎ ((r ≡ none) × BrokeOff (suc n) pkt w w' (c.count ∷ oks))
  carry_on n {pkt = pkt} {w = w} c oks (inl (q, o)) = inl (
    q,
    record {
      all = ap suc o.all;
      answers = c.answers ∙ ap (λ xs. some c.count ∷ xs) o.answers;
      packets =
          o.packets
          ∙ ap (λ ps. ps ++ replicate n pkt) c.packets
          ∙ append_assoc w.packets (pkt ∷ []) (replicate n pkt);
    },
  )
  carry_on n {pkt = pkt} {w = w} c oks (inr (q, o)) = inr (
    q,
    record {
      early = omega (arith, o.early);
      answers = c.answers ∙ ap (λ xs. some c.count ∷ xs) o.answers;
      packets =
          o.packets
          ∙ ap (λ ps. ps ++ replicate (suc (length oks)) pkt) c.packets
          ∙ append_assoc w.packets (pkt ∷ []) (replicate (suc (length oks)) pkt);
    },
  )

  -- A salve that comes to its end has sent its packet the full number of times and returns 0, or stops
  -- at the first call of `sendto` that fails and returns its result.
  salve_cases :
      (n : ℕ) (hs : Sender Double) (pkt : List ℕ) (w : World) {hs' : Sender Double} {r : Option ℕ}
      {w' : World}
      → salve f n hs pkt w ≡ some (hs', r, w')
      → (oks : List ℕ) × (((r ≡ some 0) × WentOut n pkt w w' oks)
          ⊎ ((r ≡ none) × BrokeOff n pkt w w' oks))
  unfolding salve
  salve_cases zero hs pkt w {hs'} {r} {w'} e =
      let q : (r ≡ some 0) × (w' ≡ w) = ground (arith, e) in
      (
        [],
        inl (
          q.0,
          rw q.1 (record { all = refl; answers = refl; packets = sym (append-nil w.packets) }),
        ),
      )
  salve_cases (suc n) hs pkt w {hs'} {r} {w'} e = elim (send_cases hs pkt w) [
    | inl h ↦ ground (arith, salve-Waits n hs pkt w h, e)
    | inr (inl c) ↦
        let q : (r ≡ none) × (w' ≡ c.behind) = ground (arith, salve-Fails n c, e) in
        (
          [],
          inr (
            q.0,
            rw q.1 (record { early = omega arith; answers = c.answers; packets = c.packets }),
          ),
        )
    | inr (inr c) ↦
        let (oks, rest) = salve_cases n c.sender pkt c.behind (sym (salve-Goes n c) ∙ e) in
        (c.count ∷ oks, carry_on n c oks rest)
  ]

  -- Without a rate the limiter never waits.
  pub limit-free :
      (l : Limiter Double) (len : ℕ) (times : List Timeval)
      → equal l.byterate zero_double ≡ true
      → limit f l len times ≡ some (count f l len, times)
  unfolding limit
  limit-free l len times h = rw h refl

  salve_ends :
      (n : ℕ) (hs : Sender Double) (pkt : List ℕ) (rs : List (Option ℕ)) (ts : List Timeval)
      (ps : List (List ℕ))
      → equal hs.hlim.byterate zero_double ≡ true
      → n ≤ length rs
      → (r : Sender Double × Option ℕ × World) × (salve f n hs pkt
            (record { results = rs; readings = ts; packets = ps })
          ≡ some r)
  unfolding salve sender_send
  salve_ends zero hs pkt rs ts ps free h = (_, refl)
  salve_ends (suc n) hs pkt [] ts ps free h = ground arith
  salve_ends (suc n) hs pkt (none ∷ rs) ts ps free h = (_, refl)
  salve_ends (suc n) hs pkt (some m ∷ rs) ts ps free h =
      let hs' : Sender Double = record hs { hlim = count f hs.hlim m } in
      let (r, e) = salve_ends n hs' pkt rs ts (ps ++ (pkt ∷ [])) free (omega arith) in
      (r, rw (limit-free hs.hlim m ts free, salve, sender_send) e)

  -- `hgap_sender_control`, of a sender without a rate on a network that answers at least 32 times,
  -- ends: it gives the packet to the network 32 times, each time with an answer of success, and
  -- returns 0; or it stops behind the first failure and returns it.
  pub control_cases :
      (hs : Sender Double) (pkt : List ℕ) (w : World)
      → equal hs.hlim.byterate zero_double ≡ true
      → 32 ≤ length w.results
      → (hs' : Sender Double) × (r : Option ℕ) × (w' : World) × (oks : List ℕ) × (sender_control f
            hs pkt w
          ≡ some (hs', r, w'))
        × (((r ≡ some 0) × WentOut 32 pkt w w' oks) ⊎ ((r ≡ none) × BrokeOff 32 pkt w w' oks))
  unfolding sender_control
  control_cases hs pkt w free h =
      let (r, e) = salve_ends 32 hs pkt w.results w.readings w.packets free h in
      let (oks, c) = salve_cases 32 hs pkt w e in (r.0, r.1, r.2, oks, e, c)
