-- ===== src/Cli/Choice.antt =====
-- What the options of src/hairgaps.c choose, and what the program returns.
use hairgap.Wirehair.{Floating}
use hairgap.Code.{success}
use hairgap.Config.{Config, check_config_sender}
use hairgap.Session.{System, send_shapes}
use hairgap.Session.Results.{IsJoined, hgap_send_joins}
use hairgap.Cli.{
  Texts, narrow, SendFlag, set_port, set_rate, set_redund, set_n_pkt, set_mtu, set_keepalive,
  ask_help, unknown_flag, goes_on, Line, send_options, hairgaps,
}
use hairgap.Prelude.{
  Option-cases, All, inl, inr, ret, ℕ, ◌≤◌, ◌≡◌, refl, ap, ◌∙◌, Bool, true, false, Option, none,
  some, List, [], ◌∷◌, arith,
}

abbrev pub or_else : {X : Type 0} → Option X → X → X
or_else none d = d
or_else (some v) d = v

module _ {F X : Type 0} (g : F → Option X) where
  -- The last of the values that `g` finds.
  abbrev pub last_some : List F → Option X
  last_some [] = none
  last_some (x ∷ xs) = elim (last_some xs) [ none ↦ g x | some v ↦ some v ]

  last_some-cons :
      (x : F) (xs : List F) (d : X)
      → or_else (last_some xs) (or_else (g x) d) ≡ or_else (last_some (x ∷ xs)) d
  last_some-cons x xs d = elim (Option-cases (last_some xs)) [
    | inl e ↦ rw e refl
    | inr (v, e) ↦ rw e refl
  ]

module _ (f : Floating) (x : Texts f.Double) where
  open f use {Double, of_size, multiply}
  open x use {Text, atoi, atol, atoll, atof}

  abbrev pub port_of : SendFlag Text → Option ℕ
  port_of (set_port t) = some (narrow 16 (atoi t))
  port_of _ = none

  abbrev pub byterate_of : SendFlag Text → Option Double
  byterate_of (set_rate t) = some (multiply (multiply (atof t) (of_size 1024)) (of_size 1024))
  byterate_of _ = none

  abbrev pub redund_of : SendFlag Text → Option Double
  redund_of (set_redund t) = some (atof t)
  redund_of _ = none

  abbrev pub n_pkt_of : SendFlag Text → Option ℕ
  n_pkt_of (set_n_pkt t) = some (narrow 32 (atoll t))
  n_pkt_of _ = none

  abbrev pub pkt_size_of : SendFlag Text → Option ℕ
  pkt_size_of (set_mtu t) = some (narrow 64 (atol t))
  pkt_size_of _ = none

  abbrev pub keepalive_of : SendFlag Text → Option ℕ
  keepalive_of (set_keepalive t) = some (narrow 64 (atoi t))
  keepalive_of _ = none

  abbrev pub is_setting : SendFlag Text → Bool
  is_setting ask_help = false
  is_setting unknown_flag = false
  is_setting _ = true

  -- Each setting is the last one that was given, or the default.
  abbrev pub chosen : Config Text Double → List (SendFlag Text) → Config Text Double
  chosen c fs = record c {
    port = or_else (last_some port_of fs) c.port;
    byterate = or_else (last_some byterate_of fs) c.byterate;
    redund = or_else (last_some redund_of fs) c.redund;
    n_pkt = or_else (last_some n_pkt_of fs) c.n_pkt;
    pkt_size = or_else (last_some pkt_size_of fs) c.pkt_size;
    keepalive = or_else (last_some keepalive_of fs) c.keepalive;
  }

  abbrev set_one : Config Text Double → SendFlag Text → Config Text Double
  set_one c x = chosen c (x ∷ [])

  chosen-set_one :
      (c : Config Text Double) (x : SendFlag Text) (fs : List (SendFlag Text))
      → chosen (set_one c x) fs ≡ chosen c (x ∷ fs)
  chosen-set_one c x fs = cc (
    last_some-cons port_of x fs c.port,
    last_some-cons byterate_of x fs c.byterate,
    last_some-cons redund_of x fs c.redund,
    last_some-cons n_pkt_of x fs c.n_pkt,
    last_some-cons pkt_size_of x fs c.pkt_size,
    last_some-cons keepalive_of x fs c.keepalive,
  )

  send_options-chosen :
      (c : Config Text Double) (fs : List (SendFlag Text))
      → All (λ x. is_setting x ≡ true) fs
      → send_options f x c fs ≡ goes_on (chosen c fs)
  unfolding send_options
  send_options-chosen c [] h = refl
  send_options-chosen c (set_port t ∷ fs) (h, hs) =
      send_options-chosen (set_one c (set_port t)) fs hs
      ∙ ap goes_on (chosen-set_one c (set_port t) fs)
  send_options-chosen c (set_rate t ∷ fs) (h, hs) =
      send_options-chosen (set_one c (set_rate t)) fs hs
      ∙ ap goes_on (chosen-set_one c (set_rate t) fs)
  send_options-chosen c (set_redund t ∷ fs) (h, hs) =
      send_options-chosen (set_one c (set_redund t)) fs hs
      ∙ ap goes_on (chosen-set_one c (set_redund t) fs)
  send_options-chosen c (set_n_pkt t ∷ fs) (h, hs) =
      send_options-chosen (set_one c (set_n_pkt t)) fs hs
      ∙ ap goes_on (chosen-set_one c (set_n_pkt t) fs)
  send_options-chosen c (set_mtu t ∷ fs) (h, hs) =
      send_options-chosen (set_one c (set_mtu t)) fs hs
      ∙ ap goes_on (chosen-set_one c (set_mtu t) fs)
  send_options-chosen c (set_keepalive t ∷ fs) (h, hs) =
      send_options-chosen (set_one c (set_keepalive t)) fs hs
      ∙ ap goes_on (chosen-set_one c (set_keepalive t) fs)
  send_options-chosen c (ask_help ∷ fs) (h, hs) = ground arith
  send_options-chosen c (unknown_flag ∷ fs) (h, hs) = ground arith

  -- hairgaps, given settings in any order, with repetitions, and an operand, runs its threads on the
  -- configuration that has the last value of each setting, the default of the others, and the operand
  -- as its address: where that can send, and wirehair and the threads start, its status is success
  -- exactly where all threads succeed, and otherwise the least of their errors.
  pub hairgaps_status :
      (resolves : Text → Bool) (s : System (Config Text Double)) (l : Line Text)
      (c : Config Text Double) (fs : List (SendFlag Text))
      → All (λ x. is_setting x ≡ true) fs
      → 2 ≤ l.argc
      → l.optind ≤ l.argc
      → check_config_sender resolves f (record (chosen c fs) { addr = l.operand }) ≡ success
      → s.initialized ≡ true
      → s.first_starts ≡ true
      → s.second_starts ≡ true
      → (r : ℕ) × (hairgaps f x resolves s l c fs ≡ ret r)
        × IsJoined
            (s.run
              (record (chosen c fs) { addr = l.operand })
              (send_shapes (record (chosen c fs) { addr = l.operand })))
            r
  unfolding hairgaps
  hairgaps_status resolves s l c fs h two inside ok i a b =
      let (r, sent, joined) =
        hgap_send_joins resolves f (record (chosen c fs) { addr = l.operand }) s ok i a b in
      (r, rw (send_options-chosen c fs h) (ground (arith, sent)), joined)
