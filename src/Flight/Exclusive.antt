-- ===== src/Flight/Exclusive.antt =====
-- sonnet-cache/single_flight/single_flight.go: one execution at a time for a key, and no caller that
-- waits for ever.
use sonnet_pro.Prelude.Maps.{lookup, lookup-insert, lookup-delete}
use sonnet_pro.Prelude.{ℕ, ◌<◌, ◌≡◌, arith, Option, none, some, Text, text_dec}
use sonnet_pro.Flight.{
  Pc, idle, waiting, running, cleaning, Group, new_group, join, start, finish, clean, wake, joins,
  finishes, cleans, wakes, common, starts, Reach, here, later,
}

-- The key and the call that a caller works on.
abbrev pub owns : {R : Type 0} → Pc R → Option (Text × ℕ)
owns (running key c) = some (key, c)
owns (cleaning key c r) = some (key, c)
owns p = none

module _ {R : Type 0} where
  -- What holds in every state of the first version.
  pub record IsSafe (g : Group R) : Type 0 where
    pub entered :
        (i : ℕ) (key : Text) (c : ℕ)
        → owns (g.pc i) ≡ some (key, c)
        → lookup text_dec key g.m ≡ some c
    pub single :
        (i j : ℕ) (key key' : Text) (c : ℕ)
        → owns (g.pc i) ≡ some (key, c)
        → owns (g.pc j) ≡ some (key', c)
        → i ≡ j
    pub below : (key : Text) (c : ℕ) → lookup text_dec key g.m ≡ some c → c < g.next

  new_group-IsSafe : IsSafe new_group
  unfolding new_group lookup
  new_group-IsSafe = record {
    entered = λ i key c e. absurd (cc);
    single = λ i j key key' c e e'. absurd (cc);
    below = λ key c e. absurd (cc);
  }

  join-IsSafe :
      (g : Group R) (i : ℕ) (key : Text) (c : ℕ)
      → g.pc i ≡ idle
      → IsSafe g
      → IsSafe (join i key c g)
  unfolding join
  join-IsSafe g i key c e s = record {
    entered = λ a k d o. ground (arith, s.entered a k d);
    single = λ a b k k' d o o'. ground (arith, s.single a b k k' d);
    below = s.below;
  }

  start-IsSafe :
      (g : Group R) (i : ℕ) (key : Text)
      → g.pc i ≡ idle
      → lookup text_dec key g.m ≡ none
      → IsSafe g
      → IsSafe (start i key g)
  unfolding start
  start-IsSafe g i key e free s = record {
    entered = λ a k d o. ground (arith, s.entered a k d, lookup-insert text_dec key k g.next g.m);
    single = λ a b k k' d o o'.
        ground (
          arith,
          s.single a b k k' d,
          s.entered a k d,
          s.entered b k' d,
          s.below k d,
          s.below k' d,
        );
    below = λ k d l. ground (arith, s.below k d, lookup-insert text_dec key k g.next g.m);
  }

  finish-IsSafe :
      (g : Group R) (i : ℕ) (key : Text) (c : ℕ) (r : R)
      → g.pc i ≡ running key c
      → IsSafe g
      → IsSafe (finish i key c r g)
  unfolding finish
  finish-IsSafe g i key c r e s = record {
    entered = λ a k d o. ground (arith, s.entered a k d, s.entered i key c);
    single = λ a b k k' d o o'.
        ground (arith, s.single a b k k' d, s.single i b key k' c, s.single a i k key c);
    below = s.below;
  }

  clean-IsSafe :
      (g : Group R) (i : ℕ) (key : Text) (c : ℕ) (r : R)
      → g.pc i ≡ cleaning key c r
      → IsSafe g
      → IsSafe (clean i key c r g)
  unfolding clean
  clean-IsSafe g i key c r e s = record {
    entered = λ a k d o. ground (
      arith,
      s.entered a k d,
      s.entered i key c,
      s.single a i k key c,
      lookup-delete text_dec key k g.m,
    );
    single = λ a b k k' d o o'. ground (arith, s.single a b k k' d);
    below = λ k d l. ground (arith, s.below k d, lookup-delete text_dec key k g.m);
  }

  wake-IsSafe :
      (g : Group R) (i : ℕ) (key : Text) (c : ℕ) (r : R)
      → g.pc i ≡ waiting key c
      → IsSafe g
      → IsSafe (wake i key c r g)
  unfolding wake
  wake-IsSafe g i key c r e s = record {
    entered = λ a k d o. ground (arith, s.entered a k d);
    single = λ a b k k' d o o'. ground (arith, s.single a b k k' d);
    below = s.below;
  }

  pub Reach-IsSafe : {g : Group R} → Reach g → IsSafe g
  Reach-IsSafe here = new_group-IsSafe
  Reach-IsSafe (later r (starts g i key e free)) = start-IsSafe g i key e free (Reach-IsSafe r)
  Reach-IsSafe (later r (common (joins g i key c e l))) = join-IsSafe g i key c e (Reach-IsSafe r)
  Reach-IsSafe (later r (common (finishes g i key c v e))) =
      finish-IsSafe g i key c v e (Reach-IsSafe r)
  Reach-IsSafe (later r (common (cleans g i key c v e))) =
      clean-IsSafe g i key c v e (Reach-IsSafe r)
  Reach-IsSafe (later r (common (wakes g i key c v e l))) =
      wake-IsSafe g i key c v e (Reach-IsSafe r)

  -- In every state that callers of the first version reach, two callers that run their function for
  -- the same key are the same caller.
  pub Reach-exclusive :
      (g : Group R) (i j : ℕ) (key : Text) (c d : ℕ)
      → Reach g
      → g.pc i ≡ running key c
      → g.pc j ≡ running key d
      → i ≡ j
  Reach-exclusive g i j key c d reach e e' =
      let s = Reach-IsSafe reach in
      ground (arith, s.entered i key c, s.entered j key d, s.single i j key key c)
