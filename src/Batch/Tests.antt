-- ===== src/Batch/Tests.antt =====
-- packages/event-batch-handler: runs at concrete inputs.
use middy.Prelude.{
  ℕ, ◌≤◌, ◌≡◌, refl, true, false, none, some, List, [], ◌∷◌, ◌==◌, if◌then◌else◌, ok, err,
  Settlement, fulfilled, rejected, arith, ◌⊎◌, ◌*◌, is_some, All, Option,
}
use middy.Batch.Handler.{Record, RecordHandler, settle, handle_fifo}
use middy.Batch.Fifo.{none_left, handled, handle_fifo_stops}
use middy.Batch.Pool.{
  Pool, start_pool, take_next, settle_record, Step, takes, settles, Steps, still, step, IsDone,
  settled_list, length_steps,
}
use middy.Batch.Workers.{workers_settle_in_order, workers_finish}

abbrev message : ℕ → Record ℕ ℕ
message n = record {
  event_source = some "aws:sqs";
  is_fifo_arn = true;
  parse_error = none;
  payload = n;
}

-- Keeps the payloads that it is called with, and fails on 3.
abbrev keep : RecordHandler ℕ ℕ (List ℕ) ℕ
keep i r w = if r.payload == 3 then (err 99, r.payload ∷ w) else (ok r.payload, r.payload ∷ w)

handle_fifo_stops_example :
    handle_fifo 0 false keep (message 1 ∷ message 2 ∷ message 3 ∷ message 4 ∷ []) []
    ≡ (ok (fulfilled 1 ∷ fulfilled 2 ∷ rejected 99 ∷ rejected 0 ∷ []), 3 ∷ 2 ∷ 1 ∷ [])
unfolding settle
handle_fifo_stops_example =
    handle_fifo_stops {vs = 1 ∷ 2 ∷ []} 0 false keep (message 3) (message 4 ∷ []) 99
      (handled {w₁ = 1 ∷ []} {v = 1} refl (handled {w₁ = 2 ∷ 1 ∷ []} {v = 2} refl none_left)) refl

-- Three records, two workers; the second record settles first.
abbrev outcome : ℕ → Option (Settlement ℕ ℕ)
outcome i = if i == 1 then some (rejected 9) else some (fulfilled i)

outcome-settled : (i : ℕ) → is_some (outcome i) ≡ true
outcome-settled i = ground arith

abbrev pool₁ : Pool ℕ ℕ
pool₁ = take_next 1 (start_pool 2)

abbrev pool₂ : Pool ℕ ℕ
pool₂ = take_next 0 pool₁

abbrev pool₃ : Pool ℕ ℕ
pool₃ = settle_record (0 ∷ []) 1 (rejected 9) pool₂

abbrev pool₄ : Pool ℕ ℕ
pool₄ = take_next 0 pool₃

abbrev pool₅ : Pool ℕ ℕ
pool₅ = settle_record (2 ∷ []) 0 (fulfilled 0) pool₄

abbrev pool₆ : Pool ℕ ℕ
pool₆ = settle_record [] 2 (fulfilled 2) pool₅

two_workers : Steps 3 outcome (start_pool 2) pool₂
two_workers =
    step (takes (start_pool 2) 1 refl (omega arith)) (step (takes pool₁ 0 refl (omega arith)) still)

all_turns : Steps 3 outcome (start_pool 2) pool₆
all_turns = step (takes (start_pool 2) 1 refl (omega arith)) (
    step (takes pool₁ 0 refl (omega arith)) (
      step (settles pool₂ [] (0 ∷ []) 1 (rejected 9) refl refl) (
        step (takes pool₃ 0 refl (omega arith)) (
          step (settles pool₄ (2 ∷ []) [] 0 (fulfilled 0) refl refl)
            (step (settles pool₅ [] [] 2 (fulfilled 2) refl refl) still)))))

workers_settle_in_order_example :
    (settled_list pool₆.settled 0 3 ≡ settled_list outcome 0 3)
    × All (λ x. is_some x ≡ true) (settled_list pool₆.settled 0 3)
workers_settle_in_order_example =
    workers_settle_in_order 2 3 outcome pool₆ all_turns (refl, omega arith)

workers_finish_example :
    (length_steps two_workers ≤ 3 * 2)
    × (IsDone 3 pool₂ ⊎ ((t : Pool ℕ ℕ) × Step 3 outcome pool₂ t))
workers_finish_example = workers_finish 2 3 outcome pool₂ two_workers (omega arith) outcome-settled
