-- ===== src/Session/Results.antt =====
-- What `hgap_send` and `hgap_receive` return.
use hairgap.Wirehair.{Floating}
use hairgap.Code.{to_int, success, select_error}
use hairgap.Config.{Config, check_config_sender, check_config_receiver}
use hairgap.Session.{
  System, Returned, Shapes, join, conduct, send_shapes, receive_shapes, hgap_send, hgap_receive,
}
use hairgap.Prelude.{ret, ℕ, ◌≤◌, ◌≡◌, ◌↔◌, ◌⊎◌, Bool, true, arith}

-- The results of the threads as one: `r` is success exactly where all of them are, it is the result of
-- one of them, and no thread's error is smaller.
pub record IsJoined (t : Returned) (r : ℕ) : Type 0 where
  pub success_iff :
      (r ≡ to_int success)
      ↔ ((t.own ≡ to_int success) × (t.joined ≡ to_int success) × (t.joined_last ≡ to_int success))
  pub one_of : (r ≡ t.own) ⊎ ((r ≡ t.joined) ⊎ (r ≡ t.joined_last))
  pub own : (t.own ≡ to_int success) ⊎ (r ≤ t.own)
  pub joined : (t.joined ≡ to_int success) ⊎ (r ≤ t.joined)
  pub joined_last : (t.joined_last ≡ to_int success) ⊎ (r ≤ t.joined_last)

join_lem : (t : Returned) → IsJoined t (join t.joined_last (join t.joined t.own))
unfolding select_error
join_lem t = record {
  success_iff = ground arith;
  one_of = ground arith;
  own = ground arith;
  joined = ground arith;
  joined_last = ground arith;
}

conduct_lem :
    {C : Type 0} (s : System C) (c : C) (shapes : Shapes)
    → s.initialized ≡ true
    → s.first_starts ≡ true
    → s.second_starts ≡ true
    → (r : ℕ) × (conduct s c shapes ≡ ret r) × IsJoined (s.run c shapes) r
unfolding conduct
conduct_lem s c shapes i a b =
    let t = s.run c shapes in (join t.joined_last (join t.joined t.own), ground arith, join_lem t)

module _ {Addr : Type 0} (resolves : Addr → Bool) where
  -- `hgap_send` on a configuration that the sender accepts, once wirehair and the threads have
  -- started, returns success exactly where all three threads do, and otherwise the least of their
  -- errors.
  pub hgap_send_joins :
      (f : Floating) (c : Config Addr f.Double) (s : System (Config Addr f.Double))
      → check_config_sender resolves f c ≡ success
      → s.initialized ≡ true
      → s.first_starts ≡ true
      → s.second_starts ≡ true
      → (r : ℕ) × (hgap_send resolves f c s ≡ ret r) × IsJoined (s.run c (send_shapes c)) r
  unfolding hgap_send
  hgap_send_joins f c s e i a b =
      let (r, h, joined) = conduct_lem s c (send_shapes c) i a b in (r, rw (e, hgap_send) h, joined)

  -- `hgap_receive` on a configuration that the receiver accepts, once wirehair and the threads have
  -- started, returns success exactly where all three threads do, and otherwise the least of their
  -- errors.
  pub hgap_receive_joins :
      {D : Type 0} (c : Config Addr D) (s : System (Config Addr D))
      → check_config_receiver resolves c ≡ success
      → s.initialized ≡ true
      → s.first_starts ≡ true
      → s.second_starts ≡ true
      → (r : ℕ) × (hgap_receive resolves c s ≡ ret r) × IsJoined (s.run c (receive_shapes c)) r
  unfolding hgap_receive
  hgap_receive_joins c s e i a b =
      let (r, h, joined) = conduct_lem s c (receive_shapes c) i a b in
      (r, rw (e, hgap_receive) h, joined)
