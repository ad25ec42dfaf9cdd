-- ===== src/Core/Builder.antt =====
-- packages/core/index.js: the stacks that `middy` keeps, and the calls that register middlewares.
pub mod Order
use middy.Prelude.{
  ◌≡◌, Bool, true, false, ◌||◌, not, Option, none, some, List, [], ◌∷◌, ◌++◌, reverse,
  if◌then◌else◌, is_some,
}
use middy.Core.Engine.{Middleware}

-- The object given to `use`; a key that is absent or falsy is `none`.
pub record MiddlewareObject (V E W : Type 0) : Type 0 where
  pub before : Option (Middleware V E W)
  pub after : Option (Middleware V E W)
  pub on_error : Option (Middleware V E W)

pub record Stacks (V E W : Type 0) : Type 0 where
  pub befores : List (Middleware V E W)
  pub afters : List (Middleware V E W)
  pub on_errors : List (Middleware V E W)

module _ {V E W : Type 0} where
  abbrev pub no_stacks : Stacks V E W
  no_stacks = record { befores = []; afters = []; on_errors = [] }

  -- `if (x) list.push(x)`
  abbrev pub push_if : List (Middleware V E W) → Option (Middleware V E W) → List (Middleware V E W)
  push_if l none = l
  push_if l (some m) = l ++ m ∷ []

  abbrev pub has_hook : MiddlewareObject V E W → Bool
  has_hook o = is_some o.before || is_some o.after || is_some o.on_error

  abbrev pub push_object : Stacks V E W → MiddlewareObject V E W → Stacks V E W
  push_object s o = record {
    befores = push_if s.befores o.before;
    afters = push_if s.afters o.after;
    on_errors = push_if s.on_errors o.on_error;
  }

  -- The loop of `use` over its input; `none` is the throw at an object without a key.
  unfoldable pub collect : List (MiddlewareObject V E W) → Stacks V E W → Option (Stacks V E W)
  collect [] s = some s
  collect (o ∷ os) s = let rest = collect os (push_object s o) in if has_hook o then rest else none

  -- `push(...befores)`, `unshift(...afters.reverse())`, `unshift(...onErrors.reverse())`
  abbrev pub attach : Stacks V E W → Stacks V E W → Stacks V E W
  attach s new = record {
    befores = s.befores ++ new.befores;
    afters = reverse new.afters ++ s.afters;
    on_errors = reverse new.on_errors ++ s.on_errors;
  }

  -- `middy.use`; the throw comes before any stack is written.
  unfoldable pub use_objects : List (MiddlewareObject V E W) → Stacks V E W → Option (Stacks V E W)
  use_objects os s = elim (collect os no_stacks) [ none ↦ none | some new ↦ some (attach s new) ]

  -- `middy.before`
  unfoldable pub add_before : Middleware V E W → Stacks V E W → Stacks V E W
  add_before m s = record s { befores = s.befores ++ m ∷ [] }

  -- `middy.after`
  unfoldable pub add_after : Middleware V E W → Stacks V E W → Stacks V E W
  add_after m s = record s { afters = m ∷ s.afters }

  -- `middy.onError`
  unfoldable pub add_on_error : Middleware V E W → Stacks V E W → Stacks V E W
  add_on_error m s = record s { on_errors = m ∷ s.on_errors }

-- One chained call on the instance.
pub data Registration (V E W : Type 0) : Type 0 where
  use_call : List (MiddlewareObject V E W) → Registration V E W
  before_call after_call on_error_call : Middleware V E W → Registration V E W

module _ {V E W : Type 0} where
  unfoldable pub register : Registration V E W → Stacks V E W → Option (Stacks V E W)
  unfolding use_objects add_before add_after add_on_error
  register (use_call os) s = use_objects os s
  register (before_call m) s = some (add_before m s)
  register (after_call m) s = some (add_after m s)
  register (on_error_call m) s = some (add_on_error m s)

  -- A chain of calls; the first throw ends it.
  unfoldable pub register_all : List (Registration V E W) → Stacks V E W → Option (Stacks V E W)
  register_all [] s = some s
  register_all (r ∷ rs) s = elim (register r s) [ none ↦ none | some s' ↦ register_all rs s' ]
