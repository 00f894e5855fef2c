-- ===== src/Encoding/Signals.antt =====
-- The packets that begin and end a transfer.
use hairgap.Code.{success, err_buffer_too_small}
use hairgap.Proto.{
  Header, PktType, begin, end, header_len, pkt_type, header_bytes, header_begin, header_end,
}
use hairgap.Proto.Layout.{InRange, length-header_bytes, write_header_lem}
use hairgap.Proto.Parse.{pkt_type-header_bytes}
use hairgap.Encoding.Encode.{Control, control, handwave, teardown}
use hairgap.Prelude.{
  ltb, Bool-cases, tests, length, drop, drop-append, Outcome, ret, ℕ, ◌≤◌, ◌<◌, ◌≡◌, refl, ◌⊎◌, inl,
  inr, List, ◌++◌, arith,
}

-- A call of a control function on the buffer `pkt`: either it wrote a packet of the type `t`, of the
-- size of a header, and left what stands behind it; or `size` is too small for a header and nothing
-- changed.
pub record Signals (t : PktType) (pkt : List ℕ) (size : ℕ) (outcome : Outcome Control)
    : Type 0 where
  pub result : Control
  pub returns : outcome ≡ ret result
  pub cases :
      ((header_len ≤ size)
        × (result.code ≡ success)
        × (result.size ≡ header_len)
        × (pkt_type result.pkt result.size ≡ t)
        × (drop header_len result.pkt ≡ drop header_len pkt))
      ⊎ ((size < header_len)
          × (result.code ≡ err_buffer_too_small)
          × (result.size ≡ size)
          × (result.pkt ≡ pkt))

-- Into a buffer that holds a header, a control function puts one.
control_lem :
    (h : Header) (pkt : List ℕ) (size : ℕ)
    → header_len ≤ size
    → size ≤ length pkt
    → control h pkt size
      ≡ ret (record {
        pkt = header_bytes h ++ drop header_len pkt;
        size = header_len;
        code = success;
      })
unfolding control
control_lem h pkt size whole held = ground (arith, write_header_lem h pkt (omega arith))

pub handwave_lem :
    (pkt : List ℕ) (size : ℕ)
    → header_len ≤ size
    → size ≤ length pkt
    → handwave pkt size
      ≡ ret (record {
        pkt = header_bytes header_begin ++ drop header_len pkt;
        size = header_len;
        code = success;
      })
unfolding handwave
handwave_lem pkt size whole held = control_lem header_begin pkt size whole held

pub teardown_lem :
    (pkt : List ℕ) (size : ℕ)
    → header_len ≤ size
    → size ≤ length pkt
    → teardown pkt size
      ≡ ret (record {
        pkt = header_bytes header_end ++ drop header_len pkt;
        size = header_len;
        code = success;
      })
unfolding teardown
teardown_lem pkt size whole held = control_lem header_end pkt size whole held

control-Signals :
    (t : PktType) (h : Header) (pkt : List ℕ) (size : ℕ)
    → InRange h
    → pkt_type (header_bytes h ++ drop header_len pkt) header_len ≡ t
    → size ≤ length pkt
    → Signals t pkt size (control h pkt size)
unfolding control
control-Signals t h pkt size v typed held = elim (Bool-cases (ltb size header_len)) [
  | inl short ↦ record {
    result = _;
    returns = rw short refl;
    cases = inr (omega (tests, short), refl, refl, refl);
  }
  | inr whole ↦
      let written = write_header_lem h pkt (omega (tests, whole, held)) in
      record {
        result = _;
        returns = rw (whole, written) refl;
        cases = inl (
          omega (tests, whole),
          refl,
          refl,
          typed,
          drop-append header_len (header_bytes h) (drop header_len pkt) (length-header_bytes h),
        );
      }
]

-- `hgap_encoder_handwave` and `hgap_encoder_teardown` write a packet that is read as the begin and the
-- end of a transfer, into every buffer that holds a header, and refuse a smaller one untouched.
pub control_packets :
    (pkt : List ℕ) (size : ℕ)
    → size ≤ length pkt
    → Signals begin pkt size (handwave pkt size) × Signals end pkt size (teardown pkt size)
unfolding handwave teardown header_begin header_end
control_packets pkt size held = (
  control-Signals begin header_begin pkt size (omega arith)
      ((pkt_type-header_bytes header_begin (drop header_len pkt) header_len (omega arith)
          (omega arith)).1.1
        refl)
      held,
  control-Signals end header_end pkt size (omega arith)
      ((pkt_type-header_bytes header_end (drop header_len pkt) header_len (omega arith)
          (omega arith)).2.1
        refl)
      held,
)
