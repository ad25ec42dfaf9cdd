-- ===== src/Batch/Pool.antt =====
-- packages/event-batch-handler/index.js: `settleConcurrent`, its workers in any interleaving.
use middy.Prelude.{
  ℕ, zero, suc, ◌≤◌, ◌<◌, ◌≡◌, Option, none, some, List, [], ◌∷◌, ◌++◌, ◌==◌, if◌then◌else◌,
  Settlement,
}

-- The shared counter, the indices of the records that run, the workers between two records, and
-- what is settled.
pub record Pool (E V : Type 0) : Type 0 where
  pub next : ℕ
  pub running : List ℕ
  pub idle : ℕ
  pub settled : ℕ → Option (Settlement E V)

module _ {E V : Type 0} where
  abbrev pub start_pool : ℕ → Pool E V
  start_pool limit = record { next = 0; running = []; idle = limit; settled = λ i. none }

  -- `settled[idx] = …`
  abbrev pub write_settled :
      ℕ → Settlement E V → (ℕ → Option (Settlement E V)) → ℕ → Option (Settlement E V)
  write_settled i x f j = if i == j then some x else f j

  abbrev pub take_next : ℕ → Pool E V → Pool E V
  take_next workers s = record s { next = suc s.next; running = s.next ∷ s.running; idle = workers }

  abbrev pub settle_record : List ℕ → ℕ → Settlement E V → Pool E V → Pool E V
  settle_record others i x s = record s {
    running = others;
    idle = suc s.idle;
    settled = write_settled i x s.settled;
  }

-- `outcome` is what the run of each record settles with, or `none` if it never settles, and `count`
-- is `records.length`. A step is one turn of a worker's loop up to its `await`, or the end of one
-- that was awaited.
pub data Step {E V : Type 0} (count : ℕ) (outcome : ℕ → Option (Settlement E V))
    : Pool E V → Pool E V → Type 0 where
  takes :
      (s : Pool E V) (workers : ℕ)
      → s.idle ≡ suc workers
      → s.next < count
      → Step count outcome s (take_next workers s)
  settles :
      (s : Pool E V) (pre post : List ℕ) (i : ℕ) (x : Settlement E V)
      → s.running ≡ pre ++ i ∷ post
      → outcome i ≡ some x
      → Step count outcome s (settle_record (pre ++ post) i x s)

pub data Steps {E V : Type 0} (count : ℕ) (outcome : ℕ → Option (Settlement E V))
    : Pool E V → Pool E V → Type 0 where
  still : {s : Pool E V} → Steps count outcome s s
  step :
      {s t u : Pool E V}
      → Step count outcome s t
      → Steps count outcome t u
      → Steps count outcome s u

abbrev pub length_steps :
    {E V : Type 0} {count : ℕ} {outcome : ℕ → Option (Settlement E V)} {s t : Pool E V}
    → Steps count outcome s t
    → ℕ
length_steps still = 0
length_steps (step a p) = suc (length_steps p)

-- Every worker has left its loop: `Promise.all` of the workers is fulfilled.
abbrev pub IsDone : {E V : Type 0} → ℕ → Pool E V → Type 0
IsDone count s = (s.running ≡ []) × (count ≤ s.next)

-- The array that is returned.
unfoldable pub settled_list :
    {E V : Type 0} → (ℕ → Option (Settlement E V)) → ℕ → ℕ → List (Option (Settlement E V))
settled_list f from zero = []
settled_list f from (suc n) = f from ∷ settled_list f (suc from) n
