-- ===== src/Web/Context.antt =====
-- sonnet-web/context.go, logger.go: the chain of handlers of a request. The handlers are the
-- application's functions; of what they do to a context the model keeps the calls of `Next` and of
-- `Fail`, and a state `S` for all else (the writer, the logs). The source's `index`, which starts at
-- -1, is kept as its successor.
pub mod Onion
use sonnet_pro.Prelude.{◌>>=◌, ℕ, zero, suc, ◌+◌, ◌-◌, List, Option, none, some, length, get_elem?}

-- How a handler uses the context: it returns without a call of `Next`; it calls `Next` once,
-- between two actions, as `Logger` does; or it calls `Fail`, then acts.
pub data Handler (S : Type 0) : Type 0 where
  plain : (S → S) → Handler S
  wrap : (S → S) → (S → S) → Handler S
  fail : (S → S) → Handler S

-- `Next` after its `c.index++`, and a handler's body; `next` is the call `c.Next()`, and `count` the
-- number of handlers.
unfoldable pub call :
    {S : Type 0} → Handler S → ℕ → (ℕ × S → Option (ℕ × S)) → ℕ × S → Option (ℕ × S)
call (plain act) count next (k, s) = some (k, act s)
call (wrap before after) count next (k, s) = do (k', s') ← next (k, before s); some (k', after s')
call (fail act) count next (k, s) = some (suc count, act s)

-- The loop of `Next`: `none` means that the fuel ran out.
unfoldable pub loop : {S : Type 0} → ℕ → List (Handler S) → ℕ × S → Option (ℕ × S)
unfolding call
loop zero handlers st = none
loop (suc fuel) handlers (k, s) = elim (get_elem? handlers (k - 1)) [
  | none ↦ some (k, s)
  | some h ↦ do
    (k', s') ← call h (length handlers) (λ st. loop fuel handlers (suc st.0, st.1)) (k, s)
    loop fuel handlers (suc k', s')
]

-- `c.Next()`.
unfoldable pub next : {S : Type 0} → ℕ → List (Handler S) → ℕ × S → Option (ℕ × S)
unfolding loop
next fuel handlers (k, s) = loop fuel handlers (suc k, s)
