-- ===== src/Flight.antt =====
-- sonnet-cache/single_flight/single_flight.go and sonnet-cache-v2/single_flight/single_flight.go: many
-- callers of `Do` at once. A caller is a number, a call (the shared `call` object) is an identity. A
-- step is what a caller does between two points where another may come in: what happens under the
-- mutex of the first version, and one operation of `sync.Map` of the second. The function `fn` always
-- returns: a panic of it is left out, after which, if its caller recovers, the key stays in the map and the
-- waiters wait for ever.
pub mod Exclusive
pub mod Results
pub mod Racing
use sonnet_pro.Prelude.Maps.{lookup, insert, delete}
use sonnet_pro.Prelude.{ℕ, suc, ◌≡◌, List, [], Bool, Option, none, some, Text, text_dec, update}

-- Where a caller of `Do` stands, with its key. `missed` is between the `Load` and the `Store` of the
-- second version, and `cleaning` between `wg.Done` and the deletion of the key.
pub data Pc (R : Type 0) : Type 0 where
  idle : Pc R
  missed : (key : Text) → Pc R
  waiting : (key : Text) (c : ℕ) → Pc R
  running : (key : Text) (c : ℕ) → Pc R
  cleaning : (key : Text) (c : ℕ) (r : R) → Pc R
  returned : (key : Text) (c : ℕ) (r : R) → Pc R

-- `Group` with the calls that were made: `m`, the `val` and `err` of the calls that are done, the
-- next identity, and the callers.
pub record Group (R : Type 0) : Type 0 where
  pub m : List (Text × ℕ)
  pub results : ℕ → Option R
  pub next : ℕ
  pub pc : ℕ → Pc R

unfoldable pub new_group : {R : Type 0} → Group R
new_group = record { m = []; results = λ c. none; next = 0; pc = λ i. idle }

module _ {R : Type 0} where
  -- `g.m[key]` is there: the caller waits for its call.
  unfoldable pub join : ℕ → Text → ℕ → Group R → Group R
  join i key c g = record g { pc = update g.pc i (waiting key c) }

  -- `c := new(call)`, `g.m[key] = c`.
  unfoldable pub start : ℕ → Text → Group R → Group R
  start i key g = record g {
    m = insert text_dec key g.next g.m;
    next = suc g.next;
    pc = update g.pc i (running key g.next);
  }

  -- `fn` returns `r`: `c.val, c.err = fn()` and `c.wg.Done()`.
  unfoldable pub finish : ℕ → Text → ℕ → R → Group R → Group R
  finish i key c r g = record g {
    results = update g.results c (some r);
    pc = update g.pc i (cleaning key c r);
  }

  -- `delete(g.m, key)`, and the return.
  unfoldable pub clean : ℕ → Text → ℕ → R → Group R → Group R
  clean i key c r g = record g {
    m = delete text_dec key g.m;
    pc = update g.pc i (returned key c r);
  }

  -- `c.wg.Wait()` is over: the caller returns what the call holds.
  unfoldable pub wake : ℕ → Text → ℕ → R → Group R → Group R
  wake i key c r g = record g { pc = update g.pc i (returned key c r) }

  unfoldable pub miss : ℕ → Text → Group R → Group R
  miss i key g = record g { pc = update g.pc i (missed key) }

  -- The steps that the versions have in common.
  pub data Common : Group R → Group R → Type 0 where
    joins :
        (g : Group R) (i : ℕ) (key : Text) (c : ℕ)
        → g.pc i ≡ idle
        → lookup text_dec key g.m ≡ some c
        → Common g (join i key c g)
    finishes :
        (g : Group R) (i : ℕ) (key : Text) (c : ℕ) (r : R)
        → g.pc i ≡ running key c
        → Common g (finish i key c r g)
    cleans :
        (g : Group R) (i : ℕ) (key : Text) (c : ℕ) (r : R)
        → g.pc i ≡ cleaning key c r
        → Common g (clean i key c r g)
    wakes :
        (g : Group R) (i : ℕ) (key : Text) (c : ℕ) (r : R)
        → g.pc i ≡ waiting key c
        → g.results c ≡ some r
        → Common g (wake i key c r g)

  -- The first version: the test and the entry of a new call are under one lock.
  pub data Step : Group R → Group R → Type 0 where
    common : {g h : Group R} → Common g h → Step g h
    starts :
        (g : Group R) (i : ℕ) (key : Text)
        → g.pc i ≡ idle
        → lookup text_dec key g.m ≡ none
        → Step g (start i key g)

  -- The second version: `Load` and `Store` are two steps.
  pub data StepV2 : Group R → Group R → Type 0 where
    common : {g h : Group R} → Common g h → StepV2 g h
    misses :
        (g : Group R) (i : ℕ) (key : Text)
        → g.pc i ≡ idle
        → lookup text_dec key g.m ≡ none
        → StepV2 g (miss i key g)
    stores : (g : Group R) (i : ℕ) (key : Text) → g.pc i ≡ missed key → StepV2 g (start i key g)

  pub data Reach : Group R → Type 0 where
    here : Reach new_group
    later : {g h : Group R} → Reach g → Step g h → Reach h

  pub data ReachV2 : Group R → Type 0 where
    here : ReachV2 new_group
    later : {g h : Group R} → ReachV2 g → StepV2 g h → ReachV2 h
