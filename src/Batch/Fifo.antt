-- ===== src/Batch/Fifo.antt =====
-- packages/event-batch-handler/index.js: a FIFO batch stops at its first failure.
use middy.Prelude.{
  ℕ, suc, ◌+◌, ◌≡◌, refl, subst, Bool, true, ◌&&◌, not, none, some, is_some, List, [], ◌∷◌, ◌++◌,
  map, if◌then◌else◌, ok, err, Settlement, fulfilled, rejected, length, arith,
}
use middy.Batch.Handler.{
  Record, RecordHandler, settle, all_rejected, settle_sequential, check_steps, finish_batch,
  handle_fifo,
}

-- The records from `i` on are handled one after the other, with the values `vs`.
pub data Handled {E D W V : Type 0} (run : RecordHandler E D W V)
    : ℕ → List (Record E D) → W → List V → W → Type 0 where
  none_left : {i : ℕ} {w : W} → Handled run i [] w [] w
  handled :
      {i : ℕ} {r : Record E D} {rs : List (Record E D)} {w w₁ w₂ : W} {v : V} {vs : List V}
      → settle run i r w ≡ (ok v, w₁)
      → Handled run (suc i) rs w₁ vs w₂
      → Handled run i (r ∷ rs) w (v ∷ vs) w₂

module _ {E D W V : Type 0} (unprocessed : E) (run : RecordHandler E D W V) where
  settle_sequential-rejected :
      {i : ℕ} {pre : List (Record E D)} {w w₁ w₂ : W} {vs : List V} (r : Record E D)
      (post : List (Record E D)) (e : E)
      → Handled run i pre w vs w₁
      → settle run (i + length pre) r w₁ ≡ (err e, w₂)
      → settle_sequential unprocessed (settle run) i (pre ++ r ∷ post) w
        ≡ (ok (map fulfilled vs ++ rejected e ∷ all_rejected unprocessed post), w₂)
  unfolding settle_sequential
  settle_sequential-rejected {i = i} {w = w} {w₂ = w₂} r post e none_left x =
      let here : settle run i r w ≡ (err e, w₂) =
        subst (λ j. settle run j r w ≡ (err e, w₂)) (omega arith) x in
      ground (arith, here)
  settle_sequential-rejected {i = i} {w₁ = w₁} {w₂ = w₂} r post e (handled {rs = rs} s h) x =
      let later : settle run (suc i + length rs) r w₁ ≡ (err e, w₂) =
        subst (λ j. settle run j r w₁ ≡ (err e, w₂)) (omega arith) x in
      ground (arith, s, settle_sequential-rejected r post e h later)

check_steps-rejected :
    {E D W V : Type 0} {run : RecordHandler E D W V} {i : ℕ} {pre : List (Record E D)} {w w₁ : W}
    {vs : List V} (r : Record E D) (post : List (Record E D)) (e : E) (rest : List (Settlement E V))
    → Handled run i pre w vs w₁
    → check_steps true (pre ++ r ∷ post) (map fulfilled vs ++ rejected e ∷ rest)
      ≡ (if is_some r.parse_error then none else some e)
unfolding check_steps
check_steps-rejected r post e rest none_left = refl
check_steps-rejected r post e rest (handled s h) = check_steps-rejected r post e rest h

-- A FIFO batch, after the records of `pre` have been handled, comes to one that fails, with its
-- handler's error or because its payload did not parse. No later record is handled: the world is
-- left as the failed call left it. Under a durable context a record whose payload did parse fails
-- the batch with its error; else the batch settles, the records before with their values, this one
-- with its error, and each later one as unprocessed.
pub handle_fifo_stops :
    {E D W V : Type 0} {pre : List (Record E D)} {w w₁ w₂ : W} {vs : List V} (unprocessed : E)
    (durable : Bool) (run : RecordHandler E D W V) (r : Record E D) (post : List (Record E D))
    (e : E)
    → Handled run 0 pre w vs w₁
    → settle run (length pre) r w₁ ≡ (err e, w₂)
    → handle_fifo unprocessed durable run (pre ++ r ∷ post) w ≡ (
      (if durable && not (is_some r.parse_error)
          then err e
          else ok (map fulfilled vs ++ rejected e ∷ all_rejected unprocessed post)),
      w₂,
    )
unfolding handle_fifo finish_batch
handle_fifo_stops {pre = pre} {w₁ = w₁} {w₂ = w₂} unprocessed durable run r post e h x =
    let later : settle run (0 + length pre) r w₁ ≡ (err e, w₂) =
      subst (λ j. settle run j r w₁ ≡ (err e, w₂)) (omega arith) x in
    let settled = settle_sequential-rejected unprocessed run r post e h later in
    let checked = check_steps-rejected r post e (all_rejected unprocessed post) h in
    ground (arith, settled, checked)
