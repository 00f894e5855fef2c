-- ===== src/Channel/Indices.antt =====
-- The indices of the ring, and how its contents change with them.
use native.Mathlib.Nat.{mod-eq_of_lt}
use hairgap.Channel.{Channel, next, get}
use hairgap.Channel.Valid.{
  IsValid, cons?, window, used, contents, length-window, window_of_ne_zero, add-mod, sub-mod,
  next-mod, window-set, window-set_outside, window_snoc,
}
use hairgap.Prelude.{
  length, get_elem?, set, suc, ◌+◌, ◌%◌, ◌<◌, ◌≡◌, sym, ap, ap₂, ◌∙◌, ◌≢◌, some, [], ◌∷◌, ◌++◌,
  arith,
}

module _ {A : Type 0} where
  module _ {c : Channel A} (v : IsValid c) where
    open v use {some_slot, small, storage, wr_in, rd_in}

    -- The slot to be written lies `used` slots behind the one to be read.
    pub wr-index : get c c.wr_idx ≡ (c.rd_idx + used c) % c.capacity
    wr-index = ground (
      arith,
      mod-eq_of_lt wr_in,
      sub-mod c.capacity c.wr_idx c.rd_idx wr_in rd_in,
      add-mod c.capacity c.rd_idx (used c) rd_in,
    )

    pub used-lt : used c < c.capacity
    used-lt = ground (arith, sub-mod c.capacity c.wr_idx c.rd_idx wr_in rd_in)

    -- `channel_is_empty` and `channel_is_full` compare indices for the number of elements.
    pub used-eq-zero : (used c ≡ 0 → c.rd_idx ≡ c.wr_idx) × (c.rd_idx ≡ c.wr_idx → used c ≡ 0)
    used-eq-zero = ground (arith, sub-mod c.capacity c.wr_idx c.rd_idx wr_in rd_in)

    pub used-eq-room :
        (used c + 1 ≡ c.capacity → c.rd_idx ≡ next c c.wr_idx)
        × (c.rd_idx ≡ next c c.wr_idx → used c + 1 ≡ c.capacity)
    used-eq-room = ground (
      arith,
      sub-mod c.capacity c.wr_idx c.rd_idx wr_in rd_in,
      next-mod c.capacity c.wr_idx small wr_in,
    )

    pub used_after_write :
        c.rd_idx ≢ next c c.wr_idx → used (record c { wr_idx = next c c.wr_idx }) ≡ suc (used c)
    used_after_write ne = ground (
      arith,
      sub-mod c.capacity c.wr_idx c.rd_idx wr_in rd_in,
      sub-mod c.capacity (next c c.wr_idx) c.rd_idx (omega arith) rd_in,
      next-mod c.capacity c.wr_idx small wr_in,
    )

    pub used_after_read :
        c.rd_idx ≢ c.wr_idx → used (record c { rd_idx = next c c.rd_idx }) + 1 ≡ used c
    used_after_read ne = ground (
      arith,
      sub-mod c.capacity c.wr_idx c.rd_idx wr_in rd_in,
      sub-mod c.capacity c.wr_idx (next c c.rd_idx) wr_in (omega arith),
      next-mod c.capacity c.rd_idx small rd_in,
    )

    pub length-contents : length (contents c) ≡ used c
    length-contents = length-window c.elts c.capacity c.rd_idx (used c) storage rd_in

    pub contents_after_write :
        (x : A)
        → c.rd_idx ≢ next c c.wr_idx
        → contents (record c { elts = set c.elts (get c c.wr_idx) x; wr_idx = next c c.wr_idx })
          ≡ contents c ++ (x ∷ [])
    contents_after_write x ne =
        ap (window (set c.elts (get c c.wr_idx) x) c.capacity c.rd_idx) (used_after_write ne)
        ∙ window-set c.elts c.capacity x (used c) c.rd_idx (get c c.wr_idx) storage rd_in used-lt
            wr-index

    pub contents_before_read :
        c.rd_idx ≢ c.wr_idx
        → contents c
          ≡ cons?
              (get_elem? c.elts (get c c.rd_idx))
              (contents (record c { rd_idx = next c c.rd_idx }))
    contents_before_read ne =
        window_of_ne_zero c.elts c.capacity c.rd_idx (used c) (λ e. ne (used-eq-zero.0 e))
        ∙ ap₂ cons? (ap (get_elem? c.elts) (sym (mod-eq_of_lt rd_in))) (
            ap₂ (window c.elts c.capacity) (ap (λ k. k % c.capacity) (omega arith))
              (omega (arith, used_after_read ne)))

    pub contents_empty : c.rd_idx ≡ c.wr_idx → contents c ≡ []
    contents_empty e = ap (window c.elts c.capacity c.rd_idx) (used-eq-zero.1 e)

    -- A write to the slot behind the contents does not show in them.
    pub contents_kept :
        (x : A)
        → c.rd_idx ≢ next c c.wr_idx
        → contents (record c { elts = set c.elts (get c c.wr_idx) x }) ≡ contents c
    contents_kept x ne =
        window-set_outside c.elts c.capacity x (used c) c.rd_idx (get c c.wr_idx) storage rd_in
          (omega (arith, used_after_write ne, used-lt)) wr-index

    -- Moving the index takes that slot in.
    pub contents_published :
        (x : A)
        → c.rd_idx ≢ next c c.wr_idx
        → get_elem? c.elts (get c c.wr_idx) ≡ some x
        → contents (record c { wr_idx = next c c.wr_idx }) ≡ contents c ++ (x ∷ [])
    contents_published x ne e =
        ap (window c.elts c.capacity c.rd_idx) (used_after_write ne)
        ∙ window_snoc c.elts c.capacity x (used c) c.rd_idx (get c c.wr_idx) storage rd_in used-lt
            wr-index e
