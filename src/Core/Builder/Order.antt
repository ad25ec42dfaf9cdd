-- ===== src/Core/Builder/Order.antt =====
-- packages/core/index.js: in which order the registered middlewares stand in their stacks.
use middy.Prelude.{
  ◌≡◌, ◌↔◌, refl, sym, ◌∙◌, true, Option, none, some, List, [], ◌∷◌, ◌++◌, reverse, append-nil,
  append_assoc, reverse-append, reverse-cons, arith, All, Bool-cases, inl, inr, Option-cases,
}
use middy.Core.Engine.{Middleware}
use middy.Core.Builder.{
  MiddlewareObject, Stacks, no_stacks, push_if, has_hook, push_object, collect, attach, use_objects,
  add_before, add_after, add_on_error, Registration, use_call, before_call, after_call,
  on_error_call, register, register_all,
}

module _ {V E W : Type 0} where
  abbrev pub one : Option (Middleware V E W) → List (Middleware V E W)
  one none = []
  one (some m) = m ∷ []

  -- The hooks of one kind that some objects hold, in order.
  abbrev pub picks :
      (MiddlewareObject V E W → Option (Middleware V E W))
      → List (MiddlewareObject V E W)
      → List (Middleware V E W)
  picks f [] = []
  picks f (o ∷ os) = one (f o) ++ picks f os

  -- The before, after and onError hooks of a chain of calls, in the order of registration.
  abbrev pub befores_of : List (Registration V E W) → List (Middleware V E W)
  befores_of [] = []
  befores_of (use_call os ∷ rs) = picks (λ o. o.before) os ++ befores_of rs
  befores_of (before_call m ∷ rs) = m ∷ befores_of rs
  befores_of (after_call m ∷ rs) = befores_of rs
  befores_of (on_error_call m ∷ rs) = befores_of rs

  abbrev pub afters_of : List (Registration V E W) → List (Middleware V E W)
  afters_of [] = []
  afters_of (use_call os ∷ rs) = picks (λ o. o.after) os ++ afters_of rs
  afters_of (before_call m ∷ rs) = afters_of rs
  afters_of (after_call m ∷ rs) = m ∷ afters_of rs
  afters_of (on_error_call m ∷ rs) = afters_of rs

  abbrev pub on_errors_of : List (Registration V E W) → List (Middleware V E W)
  on_errors_of [] = []
  on_errors_of (use_call os ∷ rs) = picks (λ o. o.on_error) os ++ on_errors_of rs
  on_errors_of (before_call m ∷ rs) = on_errors_of rs
  on_errors_of (after_call m ∷ rs) = on_errors_of rs
  on_errors_of (on_error_call m ∷ rs) = m ∷ on_errors_of rs

  -- Every object given to `use` has at least one hook.
  abbrev pub HaveHooks : List (Registration V E W) → Type 0
  HaveHooks [] = Unit
  HaveHooks (use_call os ∷ rs) = All (λ o. has_hook o ≡ true) os × HaveHooks rs
  HaveHooks (r ∷ rs) = HaveHooks rs

  push_if-eq :
      (l : List (Middleware V E W)) (o : Option (Middleware V E W)) → push_if l o ≡ l ++ one o
  push_if-eq l none = sym (append-nil l)
  push_if-eq l (some m) = refl

  abbrev gathered : List (MiddlewareObject V E W) → Stacks V E W → Stacks V E W
  gathered os s = record {
    befores = s.befores ++ picks (λ o. o.before) os;
    afters = s.afters ++ picks (λ o. o.after) os;
    on_errors = s.on_errors ++ picks (λ o. o.on_error) os;
  }

  collect_lem :
      (os : List (MiddlewareObject V E W)) (s : Stacks V E W)
      → All (λ o. has_hook o ≡ true) os
      → collect os s ≡ some (gathered os s)
  unfolding collect
  collect_lem [] s _ = simp append-nil
  collect_lem (o ∷ os) s (h, hs) =
      rw h (collect_lem os (push_object s o) hs ∙ simp (push_if-eq, append_assoc))

  collect-none :
      (os : List (MiddlewareObject V E W)) (s : Stacks V E W) {t : Stacks V E W}
      → collect os s ≡ some t
      → All (λ o. has_hook o ≡ true) os
  unfolding collect
  collect-none [] s e = tt
  collect-none (o ∷ os) s e = elim (Bool-cases (has_hook o)) [
    | inl h ↦ (h, collect-none os (push_object s o) (rw h at e))
    | inr h ↦ ground arith
  ]

  abbrev registered : List (Registration V E W) → Stacks V E W → Stacks V E W
  registered rs s = record {
    befores = s.befores ++ befores_of rs;
    afters = reverse (afters_of rs) ++ s.afters;
    on_errors = reverse (on_errors_of rs) ++ s.on_errors;
  }

  use_objects_lem :
      (os : List (MiddlewareObject V E W)) (s : Stacks V E W)
      → All (λ o. has_hook o ≡ true) os
      → use_objects os s ≡ some (attach s (gathered os no_stacks))
  unfolding use_objects
  use_objects_lem os s h = rw (collect_lem os no_stacks h, use_objects)

  register_all_lem :
      (rs : List (Registration V E W)) (s : Stacks V E W)
      → HaveHooks rs
      → register_all rs s ≡ some (registered rs s)
  unfolding register_all register
  register_all_lem [] s _ = simp append-nil
  register_all_lem (use_call os ∷ rs) s (h, hs) =
      rw (use_objects_lem os s h, register_all)
        (register_all_lem rs (attach s (gathered os no_stacks)) hs
          ∙ simp (append_assoc, reverse-append))
  register_all_lem (before_call m ∷ rs) s hs =
      register_all_lem rs (add_before m s) hs ∙ simp append_assoc
  register_all_lem (after_call m ∷ rs) s hs =
      register_all_lem rs (add_after m s) hs ∙ simp (append_assoc, reverse-cons)
  register_all_lem (on_error_call m ∷ rs) s hs =
      register_all_lem rs (add_on_error m s) hs ∙ simp (append_assoc, reverse-cons)

  HaveHooks-of_register_all :
      (rs : List (Registration V E W)) (s : Stacks V E W) {t : Stacks V E W}
      → register_all rs s ≡ some t
      → HaveHooks rs
  unfolding register_all register use_objects
  HaveHooks-of_register_all [] s e = tt
  HaveHooks-of_register_all (use_call os ∷ rs) s {t} e =
      elim (Option-cases (collect os no_stacks)) [
        | inl threw ↦ ground arith
        | inr (new, same) ↦ (
          collect-none os no_stacks same,
          HaveHooks-of_register_all rs (attach s new) {t = t} (ground (arith, same)),
        )
      ]
  HaveHooks-of_register_all (before_call m ∷ rs) s e =
      HaveHooks-of_register_all rs (add_before m s) e
  HaveHooks-of_register_all (after_call m ∷ rs) s e = HaveHooks-of_register_all rs (add_after m s) e
  HaveHooks-of_register_all (on_error_call m ∷ rs) s e =
      HaveHooks-of_register_all rs (add_on_error m s) e

  abbrev in_order : List (Registration V E W) → Stacks V E W
  in_order rs = record {
    befores = befores_of rs;
    afters = reverse (afters_of rs);
    on_errors = reverse (on_errors_of rs);
  }

  register_all_new :
      (rs : List (Registration V E W))
      → HaveHooks rs
      → register_all rs no_stacks ≡ some (in_order rs)
  register_all_new rs h = register_all_lem rs no_stacks h ∙ simp append-nil

  -- A chain of registrations on a new instance succeeds exactly when every object given to `use`
  -- has a hook. The before stack then holds its hooks in the order of registration, the after
  -- and onError stacks theirs in the reverse order.
  pub register_all_iff :
      (rs : List (Registration V E W)) (t : Stacks V E W)
      → (register_all rs no_stacks ≡ some t) ↔ (
          HaveHooks rs
          × (t ≡ record {
            befores = befores_of rs;
            afters = reverse (afters_of rs);
            on_errors = reverse (on_errors_of rs);
          }))
  register_all_iff rs t = (
    λ e. let h = HaveHooks-of_register_all rs no_stacks e in (h, cc (register_all_new rs h)),
    λ p. register_all_new rs p.0 ∙ cc,
  )
