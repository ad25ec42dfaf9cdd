-- ===== src/Core/Stack.antt =====
-- packages/core/index.js: the loop over a middleware stack, against a relation that says how a
-- stack may end.
use middy.Prelude.{
  ◌≡◌, refl, ◌↔◌, ◌≢◌, ap, subst, Option, none, some, List, [], ◌∷◌, ◌++◌, arith, Outcome, ok, err,
  pending,
}
use middy.Core.Engine.{Request, Middleware, Plugin, run_middleware, run_stack, respond_early}

module _ {V E W : Type 0} (plugin : Plugin V E W) where
  -- Each middleware returned `undefined`, threw nothing and left no early response.
  pub data Passed : List (Middleware V E W) → Request V E W → Request V E W → Type 0 where
    done : {q : Request V E W} → Passed [] q q
    more :
        {m : Middleware V E W} {ms : List (Middleware V E W)} {q q' q'' : Request V E W}
        → run_middleware plugin m q ≡ (ok tt, q')
        → q'.early_response ≡ none
        → Passed ms q' q''
        → Passed (m ∷ ms) q q''

  -- How a stack's run may end.
  pub data Ends (ms : List (Middleware V E W)) (q : Request V E W)
      : Outcome E (Unit {0}) → Request V E W → Type 0 where
    -- All middlewares passed.
    passed : {q' : Request V E W} → Passed ms q q' → Ends ms q (ok tt) q'
    -- One after a passed prefix left an early response, and what follows was skipped.
    stopped :
        (pre : List (Middleware V E W)) (m : Middleware V E W) (post : List (Middleware V E W))
        {q₁ q' : Request V E W} {v : Option V}
        → ms ≡ pre ++ m ∷ post
        → Passed pre q q₁
        → run_middleware plugin m q₁ ≡ (ok tt, q')
        → q'.early_response ≡ some v
        → Ends ms q (ok tt) (record q' { response = v })
    -- One after a passed prefix threw or never settled.
    failed :
        (pre : List (Middleware V E W)) (m : Middleware V E W) (post : List (Middleware V E W))
        {q₁ q' : Request V E W} {o : Outcome E (Unit {0})}
        → ms ≡ pre ++ m ∷ post
        → Passed pre q q₁
        → run_middleware plugin m q₁ ≡ (o, q')
        → o ≢ ok tt
        → Ends ms q o q'

  run_stack-append :
      {ms : List (Middleware V E W)} {q q' : Request V E W} (rest : List (Middleware V E W))
      → Passed ms q q'
      → run_stack plugin (ms ++ rest) q ≡ run_stack plugin rest q'
  unfolding run_stack
  run_stack-append rest done = refl
  run_stack-append rest (more e n p) = ground (arith, run_stack-append rest p)

  pub run_stack-Passed :
      {ms : List (Middleware V E W)} {q q' : Request V E W}
      → Passed ms q q'
      → run_stack plugin ms q ≡ (ok tt, q')
  unfolding run_stack
  run_stack-Passed done = refl
  run_stack-Passed (more e n p) = ground (arith, run_stack-Passed p)

  pub run_stack-stopped :
      {pre : List (Middleware V E W)} {q q₁ q' : Request V E W} {v : Option V}
      (m : Middleware V E W) (post : List (Middleware V E W))
      → Passed pre q q₁
      → run_middleware plugin m q₁ ≡ (ok tt, q')
      → q'.early_response ≡ some v
      → run_stack plugin (pre ++ m ∷ post) q ≡ (ok tt, record q' { response = v })
  unfolding run_stack respond_early
  run_stack-stopped m post p e n = rw (run_stack-append (m ∷ post) p) (ground arith)

  pub run_stack-failed :
      {pre : List (Middleware V E W)} {q q₁ q' : Request V E W} {o : Outcome E (Unit {0})}
      (m : Middleware V E W) (post : List (Middleware V E W))
      → Passed pre q q₁
      → run_middleware plugin m q₁ ≡ (o, q')
      → o ≢ ok tt
      → run_stack plugin (pre ++ m ∷ post) q ≡ (o, q')
  unfolding run_stack
  run_stack-failed {o = ok tt} m post p e n = absurd (n refl)
  run_stack-failed {o = err x} m post p e n = rw (run_stack-append (m ∷ post) p) (ground arith)
  run_stack-failed {o = pending} m post p e n = rw (run_stack-append (m ∷ post) p) (ground arith)

  -- A stack's run has only the ends that the relation lists.
  run_stack_sound :
      {ms : List (Middleware V E W)} {q q' : Request V E W} {o : Outcome E (Unit {0})}
      → Ends ms q o q'
      → run_stack plugin ms q ≡ (o, q')
  run_stack_sound (passed p) = run_stack-Passed p
  run_stack_sound (stopped pre m post same p e n) = rw same (run_stack-stopped m post p e n)
  run_stack_sound (failed pre m post same p e n) = rw same (run_stack-failed m post p e n)

  Ends-cons :
      {m : Middleware V E W} {ms : List (Middleware V E W)} {q q' q'' : Request V E W}
      {o : Outcome E (Unit {0})}
      → run_middleware plugin m q ≡ (ok tt, q')
      → q'.early_response ≡ none
      → Ends ms q' o q''
      → Ends (m ∷ ms) q o q''
  Ends-cons {m = m₀} e n (passed p) = passed (more e n p)
  Ends-cons {m = m₀} e n (stopped pre m post same p e' n') =
      stopped (m₀ ∷ pre) m post (ap (λ l. m₀ ∷ l) same) (more e n p) e' n'
  Ends-cons {m = m₀} e n (failed pre m post same p e' n') =
      failed (m₀ ∷ pre) m post (ap (λ l. m₀ ∷ l) same) (more e n p) e' n'

  Ends-round :
      (m : Middleware V E W) (ms : List (Middleware V E W)) (q : Request V E W)
      (o : Outcome E (Unit {0})) (q' : Request V E W) (early : Option (Option V))
      → run_middleware plugin m q ≡ (o, q')
      → q'.early_response ≡ early
      → Ends ms q' (run_stack plugin ms q').0 (run_stack plugin ms q').1
      → Ends (m ∷ ms) q (run_stack plugin (m ∷ ms) q).0 (run_stack plugin (m ∷ ms) q).1
  Ends-round m ms q (err x) q' early e n ih =
      rw (run_stack-failed m ms done e (λ p. cc)) (failed [] m ms refl done e (λ p. cc))
  Ends-round m ms q pending q' early e n ih =
      rw (run_stack-failed m ms done e (λ p. cc)) (failed [] m ms refl done e (λ p. cc))
  Ends-round m ms q (ok tt) q' (some v) e n ih =
      rw (run_stack-stopped m ms done e n) (stopped [] m ms refl done e n)
  Ends-round m ms q (ok tt) q' none e n ih =
      rw (run_stack-append ms (more e n done)) (Ends-cons e n ih)

  run_stack-Ends :
      (ms : List (Middleware V E W)) (q : Request V E W)
      → Ends ms q (run_stack plugin ms q).0 (run_stack plugin ms q).1
  unfolding run_stack
  run_stack-Ends [] q = passed done
  run_stack-Ends (m ∷ ms) q =
      let (o, q') = run_middleware plugin m q in
      Ends-round m ms q o q' q'.early_response refl refl (run_stack-Ends ms q')

  -- A stack's loop comes to an outcome and a request exactly when one of these is so: every
  -- middleware in turn passed; or one after a passed prefix left an early response, which is then
  -- the response, and the rest was skipped; or one after a passed prefix threw or never settled.
  pub run_stack_iff :
      (ms : List (Middleware V E W)) (q q' : Request V E W) (o : Outcome E (Unit {0}))
      → (run_stack plugin ms q ≡ (o, q')) ↔ Ends ms q o q'
  run_stack_iff ms q q' o =
      (λ e. subst (λ p. Ends ms q p.0 p.1) e (run_stack-Ends ms q), run_stack_sound)
