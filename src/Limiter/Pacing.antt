-- ===== src/Limiter/Pacing.antt =====
-- What the limiter of src/lib/limiter.c promises about the rate.
use hairgap.Wirehair.{Floating}
use hairgap.Limiter.{
  Timeval, Limiter, chk_period, rate_of, get_current_rate, reset_rate, limiter_new, wait_and_reset,
  count, limit, limit_all,
}
use hairgap.Prelude.{
  ltb, Bool-cases, Option-cases, tests, length, length-append, concat, append-nil, append_assoc, ℕ,
  ◌+◌, ◌≤◌, ◌<◌, ◌^◌, ◌≡◌, refl, sym, ap, subst, All, ◌∙◌, inl, inr, true, false, none, some, List,
  [], ◌∷◌, ◌++◌, arith,
}

abbrev pub sum : List ℕ → ℕ
sum [] = 0
sum (x ∷ xs) = x + sum xs

pub sum-append : (xs ys : List ℕ) → sum (xs ++ ys) ≡ sum xs + sum ys
sum-append [] ys = omega arith
sum-append (x ∷ xs) ys = omega (arith, sum-append xs ys)

module _ (f : Floating) where
  open f use {Double, less, equal, zero_double}

  -- Batches of packets, given by their lengths, that leave one after the other from the time `t` on, with
  -- the readings of the clock that are taken meanwhile: each batch is one packet longer than the period;
  -- behind it the clock is read, `early`, as long as its bytes exceed the rate since its start, until a
  -- reading `now` by which they do not; and the reading behind that is the start of the next batch.
  -- The last start is `t'`, and `rest` are the readings that are left.
  pub data Paced (rate : Double)
      : Timeval → List Timeval → List (List ℕ) → Timeval → List Timeval → Type 0 where
    none_yet : {t : Timeval} {rest : List Timeval} → Paced rate t rest [] t rest
    batch :
        {t t' : Timeval} {b : List ℕ} {bs : List (List ℕ)} {rest : List Timeval}
        (early : List Timeval) (now next : Timeval) (times : List Timeval)
        → length b ≡ chk_period + 1
        → All (λ e. less rate (rate_of f (sum b) t e) ≡ true) early
        → less rate (rate_of f (sum b) t now) ≡ false
        → Paced rate next times bs t' rest
        → Paced rate t (early ++ (now ∷ next ∷ times)) (b ∷ bs) t' rest

  -- A limiter that has counted the packets of `open` since its last reset.
  pub record Counts (rate : Double) (t : Timeval) (opened : List ℕ) (l : Limiter Double)
      : Type 0 where
    pub rated : l.byterate ≡ rate
    pub from : l.since ≡ t
    pub packets : l.n_pkt_sent ≡ length opened
    pub bytes : l.n_bytes_sent ≡ sum opened
    pub short : length opened ≤ chk_period

  -- A wait that ends has read the clock as long as the rate was exceeded, once where it was not, and once
  -- more.
  pub record Waited (l l' : Limiter Double) (times rest : List Timeval) : Type 0 where
    pub early : List Timeval
    pub now : Timeval
    pub next : Timeval
    pub readings : times ≡ early ++ (now ∷ next ∷ rest)
    pub fast : All (λ e. less l.byterate (get_current_rate f l e) ≡ true) early
    pub slow : less l.byterate (get_current_rate f l now) ≡ false
    pub behind : l' ≡ reset_rate f l next

  wait-cases :
      (l : Limiter Double) (times : List Timeval) {l' : Limiter Double} {rest : List Timeval}
      → wait_and_reset f l times ≡ some (l', rest)
      → Waited l l' times rest
  unfolding wait_and_reset
  wait-cases l [] e = ground arith
  wait-cases l (now ∷ []) e = ground arith
  wait-cases l (now ∷ next ∷ times) {l'} {rest} e =
      elim (Bool-cases (less l.byterate (get_current_rate f l now))) [
        | inl h ↦
            let v : Waited l l' (next ∷ times) rest =
              wait-cases l (next ∷ times) (sym (rw h refl) ∙ e) in
            record {
              early = now ∷ v.early;
              now = v.now;
              next = v.next;
              readings = ap (λ ts. now ∷ ts) v.readings;
              fast = (h, v.fast);
              slow = v.slow;
              behind = v.behind;
            }
        | inr h ↦
            let q : (l' ≡ reset_rate f l next) × (times ≡ rest) = ground (arith, h, e) in
            record {
              early = [];
              now = now;
              next = next;
              readings = ap (λ ts. now ∷ next ∷ ts) q.1;
              fast = tt;
              slow = h;
              behind = q.0;
            }
      ]

  -- The wait ends, with a result, once a reading shows the rate not exceeded and the clock is read
  -- again.
  pub wait_ends :
      (l : Limiter Double) (early : List Timeval) (now next : Timeval) (times : List Timeval)
      → less l.byterate (get_current_rate f l now) ≡ false
      → (r : Limiter Double × List Timeval) × (wait_and_reset f l (early ++ (now ∷ next ∷ times))
          ≡ some r)
  unfolding wait_and_reset
  wait_ends l [] now next times h = ((reset_rate f l next, times), rw h refl)
  wait_ends l (t ∷ []) now next times h =
      elim (Bool-cases (less l.byterate (get_current_rate f l t))) [
        | inl g ↦ let (r, e) = wait_ends l [] now next times h in (r, rw g e)
        | inr g ↦ ((reset_rate f l now, (next ∷ times)), rw g refl)
      ]
  wait_ends l (t ∷ t' ∷ early) now next times h =
      elim (Bool-cases (less l.byterate (get_current_rate f l t))) [
        | inl g ↦ let (r, e) = wait_ends l (t' ∷ early) now next times h in (r, rw g e)
        | inr g ↦ ((reset_rate f l t', early ++ (now ∷ next ∷ times)), rw g refl)
      ]

  module _ {rate : Double} {t : Timeval} {opened : List ℕ} {l : Limiter Double}
      (c : Counts rate t opened l) where
    open c use {rated, from, packets, bytes, short}

    count-packets : (len : ℕ) → (count f l len).n_pkt_sent ≡ length (opened ++ (len ∷ []))
    count-packets len = omega (arith, length-append opened (len ∷ []))

    count-bytes :
        (len : ℕ)
        → sum (opened ++ (len ∷ [])) < 2 ^ 64
        → (count f l len).n_bytes_sent ≡ sum (opened ++ (len ∷ []))
    count-bytes len small = omega (arith, sum-append opened (len ∷ []))

    -- A packet that does not end the batch.
    limit-inside :
        (len : ℕ) (times : List Timeval) {l' : Limiter Double} {rest : List Timeval}
        → sum (opened ++ (len ∷ [])) < 2 ^ 64
        → ltb chk_period (count f l len).n_pkt_sent ≡ false
        → limit f l len times ≡ some (l', rest)
        → Counts rate t (opened ++ (len ∷ [])) l' × (rest ≡ times)
    unfolding limit
    limit-inside len times {l'} {rest} small h e =
        let same : (l' ≡ count f l len) × (rest ≡ times) = ground (arith, e) in
        (
          rw same.0 (record {
            rated = rated;
            from = from;
            packets = count-packets len;
            bytes = count-bytes len small;
            short = omega (tests, h, count-packets len);
          }),
          same.1,
        )

    -- A packet that ends it.
    limit-full :
        (len : ℕ) (times : List Timeval) {l' : Limiter Double} {rest : List Timeval}
        → equal rate zero_double ≡ false
        → sum (opened ++ (len ∷ [])) < 2 ^ 64
        → ltb chk_period (count f l len).n_pkt_sent ≡ true
        → limit f l len times ≡ some (l', rest)
        → (early : List Timeval) × (now : Timeval) × (next : Timeval) × (length
              (opened ++ (len ∷ []))
            ≡ chk_period + 1)
          × (times ≡ early ++ (now ∷ next ∷ rest))
          × All (λ e. less rate (rate_of f (sum (opened ++ (len ∷ []))) t e) ≡ true) early
          × (less rate (rate_of f (sum (opened ++ (len ∷ []))) t now) ≡ false)
          × Counts rate next [] l'
    unfolding limit
    limit-full len times {l'} {rest} on small h e =
        let waited : wait_and_reset f (count f l len) times ≡ some (l', rest) =
          let rated_on : equal l.byterate zero_double ≡ false =
            ap (λ r. equal r zero_double) rated ∙ on in
          sym (rw (rated_on, h) refl) ∙ e in
        let v : Waited (count f l len) l' times rest = wait-cases (count f l len) times waited in
        (
          v.early,
          v.now,
          v.next,
          omega (tests, h, count-packets len, length-append opened (len ∷ [])),
          v.readings,
          rw (← count-bytes len small, ← from, ← rated) v.fast,
          rw (← count-bytes len small, ← from, ← rated) v.slow,
          rw v.behind (record {
            rated = rated;
            from = refl;
            packets = refl;
            bytes = refl;
            short = omega arith;
          }),
        )

  limit_all-none :
      (l : Limiter Double) (len : ℕ) (lens : List ℕ) (times : List Timeval)
      → limit f l len times ≡ none
      → limit_all f l (len ∷ lens) times ≡ none
  unfolding limit_all
  limit_all-none l len lens times h = rw (h, limit_all) refl

  limit_all-some :
      (l : Limiter Double) (len : ℕ) (lens : List ℕ) (times : List Timeval)
      {r : Limiter Double × List Timeval}
      → limit f l len times ≡ some r
      → limit_all f l (len ∷ lens) times ≡ limit_all f r.0 lens r.1
  unfolding limit_all
  limit_all-some l len lens times h = rw (h, limit_all) refl

  -- From any point of a batch on.
  limit_all-batches :
      {rate : Double} (lens opened : List ℕ) {t : Timeval} {l : Limiter Double}
      (times : List Timeval) {l' : Limiter Double} {rest : List Timeval}
      → equal rate zero_double ≡ false
      → Counts rate t opened l
      → sum (opened ++ lens) < 2 ^ 64
      → limit_all f l lens times ≡ some (l', rest)
      → (batches : List (List ℕ)) × (tail : List ℕ) × (t' : Timeval) × (opened ++ lens
          ≡ concat batches ++ tail)
        × Paced rate t times batches t' rest
        × Counts rate t' tail l'
  unfolding limit_all
  limit_all-batches {rate} [] opened {t} {l} times {l'} {rest} on c small e =
      let same : (l ≡ l') × (times ≡ rest) = ground (arith, e) in
      (
        [],
        opened,
        t,
        append-nil opened,
        subst (λ ts. Paced rate t times [] t ts) same.1 none_yet,
        rw (sym same.0) c,
      )
  limit_all-batches {rate} (len ∷ lens) opened {t} {l} times {l'} {rest} on c small e =
      elim (Option-cases (limit f l len times)) [
        | inl h ↦ ground (arith, limit_all-none l len lens times h, e)
        | inr (r, h) ↦
            let later : limit_all f r.0 lens r.1 ≡ some (l', rest) =
              sym (limit_all-some l len lens times h) ∙ e in
            let split = append_assoc opened (len ∷ []) lens in
            let small' : sum ((opened ++ (len ∷ [])) ++ lens) < 2 ^ 64 = rw split small in
            let parts = sum-append (opened ++ (len ∷ [])) lens in
            elim (Bool-cases (ltb chk_period (count f l len).n_pkt_sent)) [
              | inl g ↦
                  let (early, now, next, whole, readings, fast, slow, c') =
                    limit-full c len times on (omega (arith, parts)) g h in
                  let (bs, tail, t', eq, p, d) =
                    limit_all-batches lens [] r.1 on c' (omega (arith, parts)) later in
                  (
                    (opened ++ (len ∷ [])) ∷ bs,
                    tail,
                    t',
                    sym split
                        ∙ ap (λ ys. (opened ++ (len ∷ [])) ++ ys) eq
                        ∙ sym (append_assoc (opened ++ (len ∷ [])) (concat bs) tail),
                    rw readings (batch early now next r.1 whole fast slow p),
                    d,
                  )
              | inr g ↦
                  let (c', same) = limit-inside c len times (omega (arith, parts)) g h in
                  let (bs, tail, t', eq, p, d) =
                    limit_all-batches lens (opened ++ (len ∷ [])) r.1 on c' small' later in
                  (bs, tail, t', sym split ∙ eq, subst (λ ts. Paced rate t ts bs t' rest) same p, d)
            ]
      ]

  -- A new limiter with a rate, over packets whose lengths sum to less than 2^64 and with readings of the
  -- clock that end its waits, lets its packets go in batches of 1001, and at most 1000 after the last of
  -- them. Behind each batch it reads the clock as long as the bytes of the batch exceed the rate since
  -- the batch's start, and once where they do not; the next reading is the start of the next batch. It
  -- takes no other reading.
  pub limit_all-Paced :
      {rate : Double} {t : Timeval} (lens : List ℕ) (times : List Timeval) {l' : Limiter Double}
      {rest : List Timeval}
      → equal rate zero_double ≡ false
      → sum lens < 2 ^ 64
      → limit_all f (limiter_new f rate t) lens times ≡ some (l', rest)
      → (batches : List (List ℕ)) × (tail : List ℕ) × (t' : Timeval) × (lens
          ≡ concat batches ++ tail)
        × Paced rate t times batches t' rest
        × Counts rate t' tail l'
  unfolding limiter_new
  limit_all-Paced lens times on small e =
      limit_all-batches lens [] times on
        (record { rated = refl; from = refl; packets = refl; bytes = refl; short = omega arith })
        small e
