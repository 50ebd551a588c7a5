-- ===== src/CacheV2/Lru2/Moves.antt =====
-- sonnet-cache-v2/store/lru2.go: `adjust` moves one index to an end of the list.
use sonnet_pro.Prelude.{ℕ, ◌≡◌, ◌≢◌, refl, sym, ◌∙◌, arith, List, ◌∷◌, ◌++◌, inl, inr, update}
use sonnet_pro.Cache.Ring.Order.{In}
use sonnet_pro.CacheV2.Lru2.{adjust}
use sonnet_pro.CacheV2.Lru2.Chain.{
  Chain, AreDistinct, Chain-append, Chain-split, Chain-reroot, In-append_left, In-append_right,
  AreDistinct-append, first_In,
}

-- The links run through the list, which is a circle with the sentinel 0 and has no index twice.
pub record IsLinked (t f : ℕ → ℕ) (xs : List ℕ) : Type 0 where
  pub chain : Chain t f 0 xs 0
  pub distinct : AreDistinct xs
  pub positive : (x : ℕ) → In x xs → x ≢ 0

-- The links that `adjust` makes, for an index between `l` and `r`.
abbrev pub moved_f : (ℕ → ℕ) → ℕ → ℕ → ℕ → ℕ → ℕ → ℕ
moved_f f idx l r h = update (update (update f r l) idx 0) h idx

abbrev pub moved_t : (ℕ → ℕ) → ℕ → ℕ → ℕ → ℕ → ℕ → ℕ
moved_t t idx l r h = update (update (update t l r) idx h) 0 idx

pub adjust_eq :
    (idx : ℕ) (f t : ℕ → ℕ)
    → f idx ≢ 0
    → idx ≢ 0
    → adjust idx f t ≡ (moved_f f idx (f idx) (t idx) (t 0), moved_t t idx (f idx) (t idx) (t 0))
unfolding adjust
adjust_eq idx f t some_before pos = ground (arith, some_before, pos)

pub adjust_first : (idx : ℕ) (f t : ℕ → ℕ) → f idx ≡ 0 → adjust idx f t ≡ (f, t)
unfolding adjust
adjust_first idx f t none_before = ground (arith, none_before)

-- What the list's order says of the nodes around `idx`.
record Around (t : ℕ → ℕ) (ys zs : List ℕ) (l idx : ℕ) : Type 0 where
  l_pos : l ≢ 0
  idx_pos : idx ≢ 0
  idx_l : idx ≢ l
  head_pos : t 0 ≢ 0
  head_idx : t 0 ≢ idx
  right_idx : t idx ≢ idx
  right_l : t idx ≢ l
  right_head : t idx ≢ t 0
  ys_other : (y : ℕ) → In y ys → (y ≢ 0) × (y ≢ idx) × (y ≢ l) × (y ≢ t idx)
  zs_other : (z : ℕ) → In z zs → (z ≢ 0) × (z ≢ idx) × (z ≢ l) × (z ≢ t 0)

around :
    (t f : ℕ → ℕ) (ys zs : List ℕ) (l idx : ℕ)
    → IsLinked t f (ys ++ l ∷ idx ∷ zs)
    → Around t ys zs l idx
around t f ys zs l idx h =
    let (before, behind) = Chain-split t f 0 l 0 ys (idx ∷ zs) h.chain in
    let (d_ys, d_tail, apart) = AreDistinct-append ys (l ∷ idx ∷ zs) h.distinct in
    let l_pos = h.positive l (In-append_right l ys (l ∷ idx ∷ zs) (inl refl)) in
    let idx_pos = h.positive idx (In-append_right idx ys (l ∷ idx ∷ zs) (inr (inl refl))) in
    let ys_pos : (y : ℕ) → In y ys → y ≢ 0 =
      λ y i. h.positive y (In-append_left y ys (l ∷ idx ∷ zs) i) in
    let zs_pos : (z : ℕ) → In z zs → z ≢ 0 =
      λ z i. h.positive z (In-append_right z ys (l ∷ idx ∷ zs) (inr (inr i))) in
    let idx_l = d_tail.0 idx (inl refl) in
    let first = first_In t f 0 l ys before in
    let next = first_In t f idx 0 zs behind.2 in
    record {
      l_pos = l_pos;
      idx_pos = idx_pos;
      idx_l = idx_l;
      head_pos = elim first [ inl i ↦ ys_pos (t 0) i | inr e ↦ λ q. l_pos (sym e ∙ q) ];
      head_idx = elim first [
        | inl i ↦ apart (t 0) idx i (inr (inl refl))
        | inr e ↦ λ q. idx_l (sym q ∙ e)
      ];
      right_idx = elim next [ inl i ↦ d_tail.1.0 (t idx) i | inr e ↦ λ q. idx_pos (sym q ∙ e) ];
      right_l = elim next [ inl i ↦ d_tail.0 (t idx) (inr i) | inr e ↦ λ q. l_pos (sym q ∙ e) ];
      right_head = elim first [
        | inl i ↦ elim next [
          | inl j ↦ λ q. apart (t 0) (t idx) i (inr (inr j)) (sym q)
          | inr e ↦ λ q. ys_pos (t 0) i (sym q ∙ e)
        ]
        | inr e ↦ elim next [
          | inl j ↦ λ q. d_tail.0 (t idx) (inr j) (q ∙ e)
          | inr e' ↦ λ q. l_pos (sym e ∙ sym q ∙ e')
        ]
      ];
      ys_other = λ y i. (
        ys_pos y i,
        apart y idx i (inr (inl refl)),
        apart y l i (inl refl),
        elim next [ inl j ↦ apart y (t idx) i (inr (inr j)) | inr e ↦ λ q. ys_pos y i (q ∙ e) ],
      );
      zs_other = λ z i. (
        zs_pos z i,
        d_tail.1.0 z i,
        d_tail.0 z (inr i),
        elim first [
          | inl j ↦ λ q. apart (t 0) z j (inr (inr i)) (sym q)
          | inr e ↦ λ q. d_tail.0 z (inr i) (q ∙ e)
        ],
      );
    }

-- The links that `adjust` makes run through the list with `idx` in front.
pub moved_chain :
    (t f : ℕ → ℕ) (ys zs : List ℕ) (l idx : ℕ)
    → IsLinked t f (ys ++ l ∷ idx ∷ zs)
    → Chain
        (moved_t t idx l (t idx) (t 0))
        (moved_f f idx l (t idx) (t 0))
        0
        (idx ∷ (ys ++ l ∷ zs))
        0
moved_chain t f ys zs l idx h =
    let t' = moved_t t idx l (t idx) (t 0) in
    let f' = moved_f f idx l (t idx) (t 0) in
    let (before, behind) = Chain-split t f 0 l 0 ys (idx ∷ zs) h.chain in
    let (d_ys, d_tail, apart) = AreDistinct-append ys (l ∷ idx ∷ zs) h.distinct in
    let a = around t f ys zs l idx h in
    let l_pos = a.l_pos in
    let idx_pos = a.idx_pos in
    let idx_l = a.idx_l in
    let head_idx = a.head_idx in
    let right_idx = a.right_idx in
    let right_l = a.right_l in
    let right_head = a.right_head in
    (
      ground (arith, idx_pos),
      ground (arith, head_idx, idx_pos),
      Chain-append t' f' idx l 0 ys zs
          (Chain-reroot t f t' f' 0 idx l ys d_ys (λ y i. apart y l i (inl refl))
            (ground (arith, idx_pos)) (ground (arith, head_idx))
            (λ x i. let o = a.ys_other x i in ground (arith, o))
            (λ x n i. elim i [
              | inl j ↦ let o = a.ys_other x j in ground (arith, o, n)
              | inr e ↦ ground (arith, e, n, right_l, idx_l)
            ])
            before)
          (Chain-reroot t f t' f' idx l 0 zs d_tail.1.1 (λ y i. (a.zs_other y i).0)
            (ground (arith, l_pos, idx_l)) (ground (arith, right_idx, right_head))
            (λ x i. let o = a.zs_other x i in ground (arith, o))
            (λ x n i. elim i [
              | inl j ↦ let o = a.zs_other x j in ground (arith, o, n)
              | inr e ↦ ground (arith, e, n, idx_pos, a.head_pos)
            ])
            behind.2),
    )
