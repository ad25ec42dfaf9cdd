-- ===== src/Batch/Reporting.antt =====
-- packages/event-batch-response/index.js: what is reported of a batch.
use middy.Prelude.{
  ℕ, zero, suc, ◌≡◌, refl, ap, String, Bool, true, false, not, Option, none, some, or_default, List,
  [], ◌∷◌, map, arith, Settlement, fulfilled, rejected, if◌then◌else◌,
}
use middy.Batch.Source.{
  BatchRecord, BatchEvent, Source, sqs, kinesis, dynamodb, s3_batch, firehose, kafka, identify,
}
use middy.Batch.Response.{
  Datum, S3Result, FirehoseRecord, undefined, text, bytes, json, Value, plain, object, Codec,
  is_fulfilled, settled, item_failures, failures, s3_entries, s3_entry, firehose_entries,
  firehose_entry, later_snapshots, input_data, kept_data,
}
use middy.Batch.Hooks.{BatchRequest, build_response, after_hook}

-- `settled[i]`, and the records at the indices that satisfy a test.
abbrev pub entry_at :
    {E J : Type 0} → ℕ → List (Settlement E (Value J)) → Option (Settlement E (Value J))
entry_at i [] = none
entry_at zero (s ∷ ss) = some s
entry_at (suc i) (s ∷ ss) = entry_at i ss

abbrev pub records_where : {D : Type 0} → (ℕ → Bool) → List (BatchRecord D) → List (BatchRecord D)
records_where test [] = []
records_where test (r ∷ rs) =
    let rest = records_where (λ i. test (suc i)) rs in if test 0 then r ∷ rest else rest

-- The index has no entry that is fulfilled: it is rejected, or there is none.
abbrev pub is_failed_at : {E J : Type 0} → List (Settlement E (Value J)) → ℕ → Bool
is_failed_at ss i = not (is_fulfilled (entry_at i ss))

module _ {E J D I : Type 0} (id : BatchRecord D → I) where
  failures_lem :
      (rs : List (BatchRecord D)) (ss : List (Settlement E (Value J)))
      → failures id rs ss ≡ map id (records_where (is_failed_at ss) rs)
  unfolding failures
  failures_lem [] ss = refl
  failures_lem (r ∷ rs) [] = ap (λ l. id r ∷ l) (failures_lem rs [])
  failures_lem (r ∷ rs) (fulfilled v ∷ ss) = failures_lem rs ss
  failures_lem (r ∷ rs) (rejected e ∷ ss) = ap (λ l. id r ∷ l) (failures_lem rs ss)

-- The sources whose response lists one identifier for each record that failed.
abbrev pub lists_identifiers : Source → Bool
lists_identifiers sqs = true
lists_identifiers kinesis = true
lists_identifiers dynamodb = true
lists_identifiers kafka = false
lists_identifiers s3_batch = false
lists_identifiers firehose = false

-- Every record with its index, in one list.
abbrev pub at_each : {D X : Type 0} → (ℕ → BatchRecord D → X) → List (BatchRecord D) → List X
at_each f [] = []
at_each f (r ∷ rs) = f 0 r ∷ at_each (λ i. f (suc i)) rs

abbrev pub s3_answer : S3Result → Option String × Option String
s3_answer o = (o.task_id, o.result_code)

abbrev pub firehose_answer : FirehoseRecord → Option String × Option String
firehose_answer o = (o.record_id, o.result)

module _ {E J : Type 0} where
  -- What S3 Batch Operations and Firehose are told of a record, by its own entry.
  abbrev pub s3_verdict : Option (Settlement E (Value J)) → Option String
  s3_verdict none = some "TemporaryFailure"
  s3_verdict (some (rejected e)) = some "TemporaryFailure"
  s3_verdict (some (fulfilled (plain d))) = some "Succeeded"
  s3_verdict (some (fulfilled (object o))) = or_default o.result_code (some "Succeeded")

  abbrev pub firehose_verdict : Option (Settlement E (Value J)) → Option String
  firehose_verdict none = some "ProcessingFailed"
  firehose_verdict (some (rejected e)) = some "ProcessingFailed"
  firehose_verdict (some (fulfilled (plain d))) = some "Ok"
  firehose_verdict (some (fulfilled (object o))) = or_default o.result (some "Ok")

  abbrev pub s3_expected :
      {D : Type 0}
      → List (Settlement E (Value J))
      → ℕ
      → BatchRecord D
      → Option String × Option String
  s3_expected ss i r = (r.task_id, s3_verdict (entry_at i ss))

  abbrev pub firehose_expected :
      {D : Type 0}
      → List (Settlement E (Value J))
      → ℕ
      → BatchRecord D
      → Option String × Option String
  firehose_expected ss i r = (r.record_id, firehose_verdict (entry_at i ss))

module _ {E J : Type 0} (codec : Codec E J) where
  build_response-item_failures :
      (s : Source) (rs failed : List (BatchRecord (Datum J))) (ds : List (Option (Datum J)))
      (e : BatchEvent (Datum J)) (ss : List (Settlement E (Value J)))
      → lists_identifiers s ≡ true
      → failures (identify s) rs ss ≡ map (identify s) failed
      → build_response codec (record { source = s; records = rs; snapshot = ds }) e ss
        ≡ item_failures (map (identify s) failed)
  unfolding build_response
  build_response-item_failures sqs rs failed ds e ss l f = ap item_failures f
  build_response-item_failures kinesis rs failed ds e ss l f = ap item_failures f
  build_response-item_failures dynamodb rs failed ds e ss l f = ap item_failures f
  build_response-item_failures kafka rs failed ds e ss l f = absurd cc
  build_response-item_failures s3_batch rs failed ds e ss l f = absurd cc
  build_response-item_failures firehose rs failed ds e ss l f = absurd cc

  -- An SQS, Kinesis or DynamoDB batch: the after hook reports exactly the records whose entry in
  -- the array is not fulfilled, by their identifiers and in order, wherever they stand; a record
  -- without an entry is one of them.
  pub after_hook_reports :
      (q : BatchRequest E J) (s : Source) (rs : List (BatchRecord (Datum J)))
      (ss : List (Settlement E (Value J))) (ds : List (Option (Datum J)))
      → lists_identifiers s ≡ true
      → q.cached ≡ some (record { source = s; records = rs; snapshot = ds })
      → q.response ≡ settled ss
      → (after_hook codec q).response
        ≡ item_failures (map (identify s) (records_where (is_failed_at ss) rs))
  unfolding after_hook
  after_hook_reports q s rs ss ds l c r =
      let built =
        build_response-item_failures s rs (records_where (is_failed_at ss) rs) ds q.event ss l
          (failures_lem (identify s) rs ss) in
      ground (arith, c, r, built)

  s3_entry_lem :
      (id : Option String) (s : Option (Settlement E (Value J)))
      → ◌≡◌ {A = Option String × Option String}
          ((s3_entry codec id s).task_id, (s3_entry codec id s).result_code)
          (id, s3_verdict s)
  unfolding s3_entry
  s3_entry_lem id none = refl
  s3_entry_lem id (some (rejected e)) = refl
  s3_entry_lem id (some (fulfilled (plain undefined))) = refl
  s3_entry_lem id (some (fulfilled (plain (text t)))) = refl
  s3_entry_lem id (some (fulfilled (plain (bytes b)))) = refl
  s3_entry_lem id (some (fulfilled (plain (json j)))) = refl
  s3_entry_lem id (some (fulfilled (object o))) = ground arith

  firehose_entry_lem :
      (id input : Option String) (s : Option (Settlement E (Value J)))
      → ◌≡◌ {A = Option String × Option String}
          ((firehose_entry codec id input s).record_id, (firehose_entry codec id input s).result)
          (id, firehose_verdict s)
  unfolding firehose_entry
  firehose_entry_lem id input none = refl
  firehose_entry_lem id input (some (rejected e)) = refl
  firehose_entry_lem id input (some (fulfilled (plain d))) = refl
  firehose_entry_lem id input (some (fulfilled (object o))) = ground arith

  s3_entries_lem :
      {D : Type 0} (rs : List (BatchRecord D)) (ss : List (Settlement E (Value J)))
      → map s3_answer (s3_entries codec rs ss) ≡ at_each (s3_expected ss) rs
  unfolding s3_entries identify
  s3_entries_lem [] ss = refl
  s3_entries_lem (r ∷ rs) [] = cc (s3_entries_lem rs [])
  s3_entries_lem (r ∷ rs) (s ∷ ss) = cc (s3_entry_lem r.task_id (some s), s3_entries_lem rs ss)

  firehose_entries_lem :
      (rs : List (BatchRecord (Datum J))) (ds : List (Option (Datum J)))
      (ss : List (Settlement E (Value J)))
      → map firehose_answer (firehose_entries codec rs ds ss) ≡ at_each (firehose_expected ss) rs
  unfolding firehose_entries identify
  firehose_entries_lem [] ds ss = refl
  firehose_entries_lem (r ∷ rs) ds [] = cc (firehose_entries_lem rs (later_snapshots ds) [])
  firehose_entries_lem (r ∷ rs) ds (s ∷ ss) = cc (
    firehose_entry_lem r.record_id (input_data codec (kept_data r ds)) (some s),
    firehose_entries_lem rs (later_snapshots ds) ss,
  )

  -- S3 Batch Operations and Firehose are answered for every record, by its identifier and in
  -- order, with a verdict on the entry at its own index: a record that is rejected or has no entry
  -- is a "TemporaryFailure" or "ProcessingFailed"; one that is fulfilled is "Succeeded" or "Ok",
  -- unless what its handler returned names a code or a result of its own.
  pub every_record_is_answered :
      (rs : List (BatchRecord (Datum J))) (ds : List (Option (Datum J)))
      (ss : List (Settlement E (Value J)))
      → (map s3_answer (s3_entries codec rs ss) ≡ at_each (s3_expected ss) rs)
        × (map firehose_answer (firehose_entries codec rs ds ss)
            ≡ at_each (firehose_expected ss) rs)
  every_record_is_answered rs ds ss = (s3_entries_lem rs ss, firehose_entries_lem rs ds ss)
