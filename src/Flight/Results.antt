-- ===== src/Flight/Results.antt =====
-- sonnet-cache/single_flight/single_flight.go: what waiting callers get.
use sonnet_pro.Prelude.Maps.{lookup, lookup-insert, lookup-delete}
use sonnet_pro.Prelude.{
  ℕ, ◌≤◌, ◌≡◌, refl, ap, ◌∙◌, ◌⊎◌, inl, inr, arith, ℕ_discrete, Option, none, some, Text, text_dec,
  update,
}
use sonnet_pro.Flight.{
  Pc, waiting, running, cleaning, returned, Group, new_group, join, start, finish, clean, wake,
  joins, finishes, cleans, wakes, Step, common, starts, Reach, here, later,
}
use sonnet_pro.Flight.Exclusive.{IsSafe, Reach-IsSafe}

-- The call and the result that a caller has.
abbrev pub holds : {R : Type 0} → Pc R → Option (ℕ × R)
holds (cleaning key c r) = some (c, r)
holds (returned key c r) = some (c, r)
holds p = none

module _ {R : Type 0} where
  -- A result belongs to the call, which is set once.
  pub record IsSettled (g : Group R) : Type 0 where
    pub held : (i : ℕ) (c : ℕ) (r : R) → holds (g.pc i) ≡ some (c, r) → g.results c ≡ some r
    pub unset : (i : ℕ) (key : Text) (c : ℕ) → g.pc i ≡ running key c → g.results c ≡ none
    pub fresh : (c : ℕ) → g.next ≤ c → g.results c ≡ none

  new_group-IsSettled : IsSettled new_group
  unfolding new_group
  new_group-IsSettled = record {
    held = λ i c r e. absurd (cc);
    unset = λ i key c e. absurd (cc);
    fresh = λ c le. refl;
  }

  Step-IsSettled : {g h : Group R} → Step g h → IsSafe g → IsSettled g → IsSettled h
  unfolding join start finish clean wake
  Step-IsSettled (starts g i key e free) s t = record {
    held = λ a c r o. ground (arith, t.held a c r);
    unset = λ a k c o. ground (arith, t.unset a k c, t.fresh c);
    fresh = λ c le. t.fresh c (omega arith);
  }
  Step-IsSettled (common (joins g i key d e l)) s t = record {
    held = λ a c r o. ground (arith, t.held a c r);
    unset = λ a k c o. ground (arith, t.unset a k c);
    fresh = t.fresh;
  }
  Step-IsSettled (common (finishes g i key d v e)) s t = record {
    held = λ a c r o. ground (arith, t.held a c r, t.unset i key d);
    unset = λ a k c o. ground (arith, t.unset a k c, s.single a i k key c);
    fresh = λ c le. ground (arith, t.fresh c, s.entered i key d, s.below key d);
  }
  Step-IsSettled (common (cleans g i key d v e)) s t = record {
    held = λ a c r o. ground (arith, t.held a c r, t.held i d v);
    unset = λ a k c o. ground (arith, t.unset a k c);
    fresh = t.fresh;
  }
  Step-IsSettled (common (wakes g i key d v e l)) s t = record {
    held = λ a c r o. ground (arith, t.held a c r);
    unset = λ a k c o. ground (arith, t.unset a k c);
    fresh = t.fresh;
  }

  Reach-IsSettled : {g : Group R} → Reach g → IsSettled g
  Reach-IsSettled here = new_group-IsSettled
  Reach-IsSettled (later r step) = Step-IsSettled step (Reach-IsSafe r) (Reach-IsSettled r)

  -- In every reachable state, callers that have returned from the same call have the same result.
  pub returned_agree :
      (g : Group R) (i j : ℕ) (key key' : Text) (c : ℕ) (r r' : R)
      → Reach g
      → g.pc i ≡ returned key c r
      → g.pc j ≡ returned key' c r'
      → r ≡ r'
  returned_agree g i j key key' c r r' reach e e' =
      let t = Reach-IsSettled reach in ground (arith, t.held i c r, t.held j c r')

  -- A call is done, or some caller is running its function.
  abbrev pub IsLive : Group R → ℕ → Type 0
  IsLive g c =
      ((r : R) × (g.results c ≡ some r)) ⊎ ((j : ℕ) × (key : Text) × (g.pc j ≡ running key c))

  -- The calls that are entered or waited for are live.
  pub record IsWoken (g : Group R) : Type 0 where
    pub entered : (key : Text) (c : ℕ) → lookup text_dec key g.m ≡ some c → IsLive g c
    pub waited : (i : ℕ) (key : Text) (c : ℕ) → g.pc i ≡ waiting key c → IsLive g c

  -- A step of `i`, which is not running, keeps a call live where it leaves the results.
  moved-IsLive :
      (g h : Group R) (i c : ℕ) (p : Pc R)
      → h.results ≡ g.results
      → h.pc ≡ update g.pc i p
      → ((key : Text) → g.pc i ≡ running key c → ⊥)
      → IsLive g c
      → IsLive h c
  moved-IsLive g h i c p same moved busy (inl (r, e)) = inl (r, ap (λ f. f c) same ∙ e)
  moved-IsLive g h i c p same moved busy (inr (j, key, e)) =
      inr (j, key, ap (λ f. f j) moved ∙ ground (arith, busy key))

  finish-IsLive :
      (g : Group R) (i : ℕ) (key : Text) (c d : ℕ) (v : R)
      → g.pc i ≡ running key d
      → IsLive g c
      → IsLive (finish i key d v g) c
  unfolding finish
  finish-IsLive g i key c d v e (inl (r, h)) = elim (ℕ_discrete c d) [
    | yes p ↦ inl (v, ground arith)
    | no p ↦ inl (r, ground arith)
  ]
  finish-IsLive g i key c d v e (inr (j, k, h)) = elim (ℕ_discrete c d) [
    | yes p ↦ inl (v, ground arith)
    | no p ↦ inr (j, k, ground arith)
  ]

  Step-IsWoken : {g h : Group R} → Step g h → IsWoken g → IsWoken h
  unfolding join start clean wake
  Step-IsWoken (starts g i key e free) w =
      let kept : (c : ℕ) → IsLive g c → IsLive (start i key g) c = λ c.
        moved-IsLive g (start i key g) i c (running key g.next) refl refl (λ q r. absurd (cc)) in
      record {
        entered = λ k c l. elim (ℕ_discrete c g.next) [
          | yes p ↦ inr (i, key, ground arith)
          | no p ↦ kept c (w.entered k c (ground (arith, lookup-insert text_dec key k g.next g.m)))
        ];
        waited = λ a k c o. kept c (w.waited a k c (ground arith));
      }
  Step-IsWoken (common (joins g i key d e l)) w =
      let kept : (c : ℕ) → IsLive g c → IsLive (join i key d g) c =
        λ c. moved-IsLive g (join i key d g) i c (waiting key d) refl refl (λ q r. absurd (cc)) in
      record {
        entered = λ k c l'. kept c (w.entered k c l');
        waited = λ a k c o. elim (ℕ_discrete a i) [
          | yes p ↦ let same : c ≡ d = ground arith in kept c (w.entered key c (rw same l))
          | no p ↦ kept c (w.waited a k c (ground arith))
        ];
      }
  Step-IsWoken (common (finishes g i key d v e)) w = record {
    entered = λ k c l. finish-IsLive g i key c d v e (w.entered k c (unfold finish in l));
    waited =
        λ a k c o. finish-IsLive g i key c d v e (w.waited a k c (unfold finish in ground arith));
  }
  Step-IsWoken (common (cleans g i key d v e)) w =
      let kept : (c : ℕ) → IsLive g c → IsLive (clean i key d v g) c = λ c.
        moved-IsLive g (clean i key d v g) i c (returned key d v) refl refl (λ q r. absurd (cc)) in
      record {
        entered =
            λ k c l. kept c (w.entered k c (ground (arith, lookup-delete text_dec key k g.m)));
        waited = λ a k c o. kept c (w.waited a k c (ground arith));
      }
  Step-IsWoken (common (wakes g i key d v e l)) w =
      let kept : (c : ℕ) → IsLive g c → IsLive (wake i key d v g) c = λ c.
        moved-IsLive g (wake i key d v g) i c (returned key d v) refl refl (λ q r. absurd (cc)) in
      record {
        entered = λ k c l'. kept c (w.entered k c l');
        waited = λ a k c o. kept c (w.waited a k c (ground arith));
      }

  new_group-IsWoken : IsWoken new_group
  unfolding new_group lookup
  new_group-IsWoken = record { entered = λ k c e. absurd (cc); waited = λ i k c e. absurd (cc) }

  Reach-IsWoken : {g : Group R} → Reach g → IsWoken g
  Reach-IsWoken here = new_group-IsWoken
  Reach-IsWoken (later r step) = Step-IsWoken step (Reach-IsWoken r)

  -- In every reachable state, the call that a caller waits for is done, or some caller is running its
  -- function.
  pub waiting-IsLive :
      (g : Group R) (i : ℕ) (key : Text) (c : ℕ) → Reach g → g.pc i ≡ waiting key c → IsLive g c
  waiting-IsLive g i key c reach e = (Reach-IsWoken reach).waited i key c e
