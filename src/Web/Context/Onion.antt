-- ===== src/Web/Context/Onion.antt =====
-- sonnet-web/context.go: the order in which `Next` runs the handlers.
use sonnet_pro.Prelude.{
  ◌>>=◌, ℕ, zero, suc, ◌+◌, ◌-◌, ◌≤◌, ◌<◌, List, [], ◌∷◌, ◌≡◌, refl, ap, subst, arith, Option, none,
  some, length, get_elem?,
}
use sonnet_pro.Web.Context.{Handler, plain, wrap, fail, call, loop, next}

-- What the chain means: each handler is the layer around those after it, and a handler that fails
-- is the last to run.
pub onion : {S : Type 0} → List (Handler S) → S → S
onion [] s = s
onion (plain act ∷ hs) s = onion hs (act s)
onion (wrap before after ∷ hs) s = after (onion hs (before s))
onion (fail act ∷ hs) s = act s

get_elem?_beyond {ℓ} : {A : Type ℓ} (xs : List A) (i : ℕ) → length xs ≤ i → get_elem? xs i ≡ none
get_elem?_beyond [] i h = refl
get_elem?_beyond (x ∷ xs) zero h = absurd (omega arith)
get_elem?_beyond (x ∷ xs) (suc i) h = get_elem?_beyond xs i (omega arith)

module _ {S : Type 0} where
  loop_beyond :
      (fuel : ℕ) (hs : List (Handler S)) (k : ℕ) (s : S)
      → 0 < fuel
      → length hs < k
      → loop fuel hs (k, s) ≡ some (k, s)
  unfolding loop
  loop_beyond zero hs k s p h = absurd (omega arith)
  loop_beyond (suc fuel) hs k s p h = rw (get_elem?_beyond hs (k - 1) (omega arith), loop)

  loop_step :
      (fuel : ℕ) (hs : List (Handler S)) (i : ℕ) (h : Handler S) (s : S)
      → get_elem? hs i ≡ some h
      → loop (suc fuel) hs (suc i, s) ≡ (
          call h (length hs) (λ st. loop fuel hs (suc st.0, st.1)) (suc i, s) >>= λ st.
          loop fuel hs (suc st.0, st.1))
  unfolding loop
  loop_step fuel hs i h s e =
      let e' : get_elem? hs (suc i - 1) ≡ some h =
        subst (λ j. get_elem? hs j ≡ some h) (omega arith) e in
      rw (e', loop)

  -- `rest` is what stands in `hs` from the index `i` on.
  pub record IsTail (hs : List (Handler S)) (i : ℕ) (rest : List (Handler S)) : Type 0 where
    pub items : (j : ℕ) → get_elem? hs (i + j) ≡ get_elem? rest j
    pub size : length hs ≡ i + length rest

  IsTail-IsTail :
      {hs : List (Handler S)} {i : ℕ} {h : Handler S} {rest : List (Handler S)}
      → IsTail hs i (h ∷ rest)
      → (get_elem? hs i ≡ some h) × IsTail hs (suc i) rest
  IsTail-IsTail {hs} {i} {h} {rest} t = (
    subst (λ j. get_elem? hs j ≡ some h) (omega arith) (t.items 0),
    record {
      items = λ j. subst (λ k. get_elem? hs k ≡ get_elem? rest j) (omega arith) (t.items (suc j));
      size = omega (arith, t.size);
    },
  )

  -- The loop ends behind the last handler, after the handlers from its index on have run as an onion.
  pub record Ends (hs : List (Handler S)) (s : S) (result : Option (ℕ × S)) : Type 0 where
    pub last : ℕ
    pub behind : length hs < last
    pub value : result ≡ some (last, s)

  loop-onion :
      (hs rest : List (Handler S)) (i fuel : ℕ) (s : S)
      → length rest < fuel
      → IsTail hs i rest
      → Ends hs (onion rest s) (loop fuel hs (suc i, s))
  unfolding onion call
  loop-onion hs rest i zero s h t = absurd (omega arith)
  loop-onion hs [] i (suc fuel) s h t = record {
    last = suc i;
    behind = omega (arith, t.size);
    value = loop_beyond (suc fuel) hs (suc i) s (omega arith) (omega (arith, t.size));
  }
  loop-onion hs (plain act ∷ rest) i (suc fuel) s h t =
      let (at, t') = IsTail-IsTail t in
      rw (loop_step fuel hs i (plain act) s at)
        (loop-onion hs rest (suc i) fuel (act s) (omega arith) t')
  loop-onion hs (wrap before after ∷ rest) i (suc fuel) s h t =
      let (at, t') = IsTail-IsTail t in
      let inner = loop-onion hs rest (suc i) fuel (before s) (omega arith) t' in
      let result = after (onion rest (before s)) in
      rw (loop_step fuel hs i (wrap before after) s at, call, inner.value)
        (record {
          last = suc inner.last;
          behind = omega (arith, inner.behind);
          value =
              loop_beyond fuel hs (suc inner.last) result (omega arith)
                (omega (arith, inner.behind));
        })
  loop-onion hs (fail act ∷ rest) i (suc fuel) s h t =
      let (at, _) = IsTail-IsTail t in
      rw (loop_step fuel hs i (fail act) s at) (record {
        last = suc (suc (length hs));
        behind = omega arith;
        value = loop_beyond fuel hs (suc (suc (length hs))) (act s) (omega arith) (omega arith);
      })

  -- `c.Next()` on a fresh context returns, with fuel for one round more than there are handlers. It
  -- runs the handlers as an onion: each once, in order, the second halves of the wrapping ones in
  -- reverse order, and none after one that fails. The index ends behind the last handler.
  pub next-onion :
      (hs : List (Handler S)) (fuel : ℕ) (s : S)
      → length hs < fuel
      → (last : ℕ) × (length hs < last) × (next fuel hs (0, s) ≡ some (last, onion hs s))
  unfolding next
  next-onion hs fuel s h =
      let ends =
        loop-onion hs hs 0 fuel s h
          (record { items = λ j. ap (get_elem? hs) (omega arith); size = omega arith }) in
      (ends.last, ends.behind, ends.value)
