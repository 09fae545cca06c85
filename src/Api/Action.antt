-- ===== src/Api/Action.antt =====
-- Calls of a store one after another, where `?` ends the function at an error (crates/gum-api/src/service.rs).
use gum.Prelude.{Option, none, some, String}
use gum.Types.{Result, ok, err}

-- What a function does with the store: its result, and the state that it leaves.
abbrev pub Action : Type 0 → Type 0 → Type 0
Action State A = State → Result A × State

module _ {State A : Type 0} where
  abbrev pub return : A → Action State A
  return a s = (ok a, s)

  -- A call that leaves the state as it is.
  abbrev pub query : (State → Result A) → Action State A
  query f s = (f s, s)

  -- A result that is computed without the store.
  abbrev pub lift : Result A → Action State A
  lift r s = (r, s)

  -- `option.ok_or_else(|| message)?`
  abbrev pub required : String → Option A → Action State A
  required message none s = (err message, s)
  required message (some a) s = (ok a, s)

module _ {State A B : Type 0} where
  abbrev pub continue : Result A × State → (A → Action State B) → Result B × State
  continue (ok a, s) f = f a s
  continue (err e, s) f = (err e, s)

  infixl 5 ◌>>=◌
  abbrev pub ◌>>=◌ : Action State A → (A → Action State B) → Action State B
  (m >>= f) s = continue (m s) f
