-- ===== src/Prelude/Outcomes.antt =====
-- What a JavaScript call or an awaited promise comes to, and state-passing actions with it.
use mathlib.Core.Path.{◌≡◌, refl}
use mathlib.Core.Logic.{◌⊎◌, inl, inr}

-- `pending` is a call or a promise that never settles.
pub data Outcome (E A : Type 0) : Type 0 where
  ok : A → Outcome E A
  err : E → Outcome E A
  pending : Outcome E A

-- How a promise settles, if it does.
pub data Settlement (E A : Type 0) : Type 0 where
  fulfilled : A → Settlement E A
  rejected : E → Settlement E A

-- The state comes back on every branch: what was written stays written after a throw.
abbrev pub Action : Type 0 → Type 0 → Type 0 → Type 0
Action E S A = S → Outcome E A × S

module _ {E S A : Type 0} where
  abbrev pub pure : A → Action E S A
  pure a s = (ok a, s)

  abbrev pub raise : E → Action E S A
  raise e s = (err e, s)

  abbrev pub hang : Action E S A
  hang s = (pending, s)

  abbrev pub gets : (S → A) → Action E S A
  gets f s = (ok (f s), s)

abbrev pub modify : {E S : Type 0} → (S → S) → Action E S (Unit {0})
modify f s = (ok tt, f s)

module _ {E S A B : Type 0} where
  abbrev pub bind_step : Outcome E A → S → (A → Action E S B) → Outcome E B × S
  bind_step (ok a) s f = f a s
  bind_step (err e) s f = (err e, s)
  bind_step pending s f = (pending, s)

infixl 5 ◌>>=◌ ◌>>◌
abbrev pub ◌>>=◌ : {E S A B : Type 0} → Action E S A → (A → Action E S B) → Action E S B
◌>>=◌ m f s = let (r, s') = m s in bind_step r s' f

abbrev pub ◌>>◌ : {E S A B : Type 0} → Action E S A → Action E S B → Action E S B
◌>>◌ m k = m >>= λ _. k

-- `try { m } catch (e) { f(e) }`
module _ {E S A : Type 0} where
  abbrev pub catch_step : Outcome E A → S → (E → Action E S A) → Outcome E A × S
  catch_step (ok a) s f = (ok a, s)
  catch_step (err e) s f = f e s
  catch_step pending s f = (pending, s)

  abbrev pub try_catch : Action E S A → (E → Action E S A) → Action E S A
  try_catch m f s = let (r, s') = m s in catch_step r s' f

  -- `try { m } finally { f }` for an `f` that only writes.
  abbrev pub finally_step : Outcome E A → S → (S → S) → Outcome E A × S
  finally_step (ok a) s f = (ok a, f s)
  finally_step (err e) s f = (err e, f s)
  finally_step pending s f = (pending, s)

  abbrev pub finally_do : Action E S A → (S → S) → Action E S A
  finally_do m f s = let (r, s') = m s in finally_step r s' f

  -- Runs `m` and keeps how it ended as a value: `try { … } catch (err) { hasError = true }`.
  abbrev pub attempt_step : Outcome E A → S → Outcome E (Settlement E A) × S
  attempt_step (ok a) s = (ok (fulfilled a), s)
  attempt_step (err e) s = (ok (rejected e), s)
  attempt_step pending s = (pending, s)

  abbrev pub attempt : Action E S A → Action E S (Settlement E A)
  attempt m s = let (r, s') = m s in attempt_step r s'

  abbrev pub settle_with : Settlement E A → Action E S A
  settle_with (fulfilled a) = pure a
  settle_with (rejected e) = raise e

abbrev pub Settles : {E A : Type 0} → Outcome E A → Type 0
Settles (ok _) = Unit
Settles (err _) = Unit
Settles pending = ⊥

pub Outcome-cases :
    {E A : Type 0} (o : Outcome E A)
    → ((a : A) × (o ≡ ok a)) ⊎ (((e : E) × (o ≡ err e)) ⊎ (o ≡ pending))
Outcome-cases (ok a) = inl (a, refl)
Outcome-cases (err e) = inr (inl (e, refl))
Outcome-cases pending = inr (inr refl)
