-- ===== src/Batch/Handler.antt =====
-- packages/event-batch-handler/index.js: the handler of a batch of records.
use middy.Prelude.{
  ℕ, suc, String, str_eq, Bool, true, false, ◌&&◌, Option, none, some, is_some, List, [], ◌∷◌,
  if◌then◌else◌, Settlement, fulfilled, rejected, Action, pure, raise, ◌>>=◌, attempt,
}

-- A record: its source and its ARN, and what @middy/event-batch-parser left on it when its payload
-- failed to parse.
pub record Record (E D : Type 0) : Type 0 where
  pub event_source : Option String
  pub is_fifo_arn : Bool
  pub parse_error : Option E
  pub payload : D

-- The user's handler of one record, in its world; it is called with the record's index.
abbrev pub RecordHandler : Type 0 → Type 0 → Type 0 → Type 0 → Type 0
RecordHandler E D W V = ℕ → Record E D → Action E W V

module _ {E D : Type 0} where
  -- `isFifo`
  unfoldable pub is_fifo : List (Record E D) → Bool
  is_fifo [] = false
  is_fifo (r ∷ rs) = elim r.event_source [
    | none ↦ false
    | some s ↦ str_eq s "aws:sqs" && r.is_fifo_arn
  ]

module _ {E D V : Type 0} where
  abbrev pub all_rejected : E → List (Record E D) → List (Settlement E V)
  all_rejected e [] = []
  all_rejected e (r ∷ rs) = rejected e ∷ all_rejected e rs

  -- The loop over the settled records under a durable context: the first failure of a step is
  -- thrown, but one of a parse is not, and ends the loop in a FIFO batch.
  unfoldable pub check_steps : Bool → List (Record E D) → List (Settlement E V) → Option E
  check_steps fifo rs [] = none
  check_steps fifo [] (fulfilled v ∷ ss) = check_steps fifo [] ss
  check_steps fifo [] (rejected e ∷ ss) = some e
  check_steps fifo (r ∷ rs) (fulfilled v ∷ ss) = check_steps fifo rs ss
  check_steps fifo (r ∷ rs) (rejected e ∷ ss) =
      let rest = check_steps fifo rs ss in
      if is_some r.parse_error then (if fifo then none else rest) else some e

module _ {E D W V : Type 0} where
  -- `settle`, and `step` under a durable context: a record that failed to parse is not handled.
  unfoldable pub settle : RecordHandler E D W V → RecordHandler E D W V
  settle run i r = elim r.parse_error [ none ↦ run i r | some e ↦ raise e ]

  -- `settleSequential` from the record at `i` on; `unprocessed` is its error.
  unfoldable pub settle_sequential :
      E → RecordHandler E D W V → ℕ → List (Record E D) → Action E W (List (Settlement E V))
  settle_sequential unprocessed run i [] = pure []
  settle_sequential unprocessed run i (r ∷ rs) = attempt (run i r) >>= λ s. elim s [
    | fulfilled v ↦
        settle_sequential unprocessed run (suc i) rs >>= λ rest. pure (fulfilled v ∷ rest)
    | rejected e ↦ pure (rejected e ∷ all_rejected unprocessed rs)
  ]

  unfoldable pub finish_batch :
      Bool → Bool → List (Record E D) → List (Settlement E V) → Action E W (List (Settlement E V))
  unfolding check_steps
  finish_batch durable fifo rs ss =
      if durable
      then (elim (check_steps fifo rs ss) [ none ↦ pure ss | some e ↦ raise e ])
      else pure ss

  -- The handler on a FIFO batch.
  unfoldable pub handle_fifo :
      E → Bool → RecordHandler E D W V → List (Record E D) → Action E W (List (Settlement E V))
  unfolding settle settle_sequential finish_batch
  handle_fifo unprocessed durable run rs =
      settle_sequential unprocessed (settle run) 0 rs >>= finish_batch durable true rs
