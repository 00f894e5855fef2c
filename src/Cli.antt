-- ===== src/Cli.antt =====
-- The programs src/hairgaps.c and src/hairgapr.c. What `getopt` finds is a list of options, the
-- conversions of the C library are parameters, and the status of the process is what `main` returns or
-- gives to `exit`. What is printed is left out.
pub mod Choice
use hairgap.Wirehair.{Floating}
use hairgap.Config.{File, Config, defaults}
use hairgap.Session.{System, hgap_send, hgap_receive}
use hairgap.Prelude.{
  ltb, if◌then◌else◌, Outcome, ret, exited, fault, ℤ, pos, negsuc, ℕ, ◌+◌, ◌-◌, ◌*◌, ◌%◌, ◌^◌, Bool,
  ◌||◌, Option, none, some, List, [], ◌∷◌, u64,
}

-- The texts of a command line, and `atoi`, `atol` and `atoll`, and `atof`.
pub record Texts (Double : Type 0) : Type 1 where
  pub Text : Type 0
  pub atoi : Text → ℤ
  pub atol : Text → ℤ
  pub atoll : Text → ℤ
  pub atof : Text → Double

-- An integer stored in an unsigned one of `bits` bits, or in the bits of a signed one.
abbrev pub narrow : ℕ → ℤ → ℕ
narrow bits (pos n) = n % 2 ^ bits
narrow bits (negsuc n) = 2 ^ bits - 1 - n % 2 ^ bits

-- The options of hairgaps and of hairgapr, with their arguments.
pub data SendFlag (Text : Type 0) : Type 0 where
  set_port : Text → SendFlag Text
  set_rate : Text → SendFlag Text
  set_redund : Text → SendFlag Text
  set_n_pkt : Text → SendFlag Text
  set_mtu : Text → SendFlag Text
  set_keepalive : Text → SendFlag Text
  ask_help : SendFlag Text
  unknown_flag : SendFlag Text

pub data ReceiveFlag (Text : Type 0) : Type 0 where
  bind_port : Text → ReceiveFlag Text
  set_timeout : Text → ReceiveFlag Text
  set_mem_limit : Text → ReceiveFlag Text
  want_help : ReceiveFlag Text
  other_flag : ReceiveFlag Text

-- EXIT_SUCCESS and EXIT_FAILURE
abbrev pub exit_success : ℕ
exit_success = 0

abbrev pub exit_failure : ℕ
exit_failure = 1

-- The options are through, or the process ends with a status.
pub data Parsed (C : Type 0) : Type 0 where
  goes_on : C → Parsed C
  leaves : ℕ → Parsed C

-- The command line behind the options: `argc`, `optind`, and `argv[optind]`, which is NULL at the end.
pub record Line (Text : Type 0) : Type 0 where
  pub argc : ℕ
  pub optind : ℕ
  pub operand : Option Text

module _ (f : Floating) (x : Texts f.Double) where
  open f use {Double, of_size, multiply}
  open x use {Text, atoi, atol, atoll, atof}

  -- The loop over the options of hairgaps.
  unfoldable pub send_options :
      Config Text Double → List (SendFlag Text) → Parsed (Config Text Double)
  send_options c [] = goes_on c
  send_options c (set_port t ∷ fs) = send_options (record c { port = narrow 16 (atoi t) }) fs
  send_options c (set_rate t ∷ fs) =
      send_options
        (record c { byterate = multiply (multiply (atof t) (of_size 1024)) (of_size 1024) }) fs
  send_options c (set_redund t ∷ fs) = send_options (record c { redund = atof t }) fs
  send_options c (set_n_pkt t ∷ fs) = send_options (record c { n_pkt = narrow 32 (atoll t) }) fs
  send_options c (set_mtu t ∷ fs) = send_options (record c { pkt_size = narrow 64 (atol t) }) fs
  send_options c (set_keepalive t ∷ fs) =
      send_options (record c { keepalive = narrow 64 (atoi t) }) fs
  send_options c (ask_help ∷ fs) = leaves exit_success
  send_options c (unknown_flag ∷ fs) = leaves exit_failure

  -- The loop over the options of hairgapr. A memory limit whose product overflows wraps.
  unfoldable pub receive_options :
      Config Text Double → List (ReceiveFlag Text) → Parsed (Config Text Double)
  receive_options c [] = goes_on c
  receive_options c (bind_port t ∷ fs) = receive_options (record c { port = narrow 16 (atoi t) }) fs
  receive_options c (set_timeout t ∷ fs) =
      receive_options (record c { timeout = narrow 64 (atoi t) }) fs
  receive_options c (set_mem_limit t ∷ fs) =
      receive_options (record c { mem_limit = u64 (narrow 64 (atoll t) * 1024 * 1024) }) fs
  receive_options c (want_help ∷ fs) = leaves exit_success
  receive_options c (other_flag ∷ fs) = leaves exit_failure

  module _ (resolves : Text → Bool) (s : System (Config Text Double)) (l : Line Text) where
    -- `main` of hairgaps behind its options.
    send_operand : Parsed (Config Text Double) → Outcome ℕ
    unfolding hgap_send
    send_operand (leaves status) = ret status
    send_operand (goes_on c) =
        if ltb l.argc 2 || ltb l.argc l.optind
        then ret exit_failure
        else hgap_send resolves f (record c { addr = l.operand }) s

    receive_operand : Parsed (Config Text Double) → Outcome ℕ
    unfolding hgap_receive
    receive_operand (leaves status) = ret status
    receive_operand (goes_on c) =
        if ltb l.argc 2 || ltb l.argc l.optind
        then ret exit_failure
        else hgap_receive resolves (record c { addr = l.operand }) s

    -- `main` of hairgaps and of hairgapr, from the configuration that `hgap_defaults` leaves.
    unfoldable pub hairgaps : Config Text Double → List (SendFlag Text) → Outcome ℕ
    unfolding send_operand send_options
    hairgaps c fs = send_operand (send_options c fs)

    unfoldable pub hairgapr : Config Text Double → List (ReceiveFlag Text) → Outcome ℕ
    unfolding receive_operand receive_options
    hairgapr c fs = receive_operand (receive_options c fs)
