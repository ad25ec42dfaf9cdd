-- ===== src/Batch/Hooks.antt =====
-- packages/event-batch-response/index.js: the middleware's hooks.
use middy.Prelude.{
  String, Option, none, some, List, [], ◌∷◌, map, Outcome, ok, err, pending, Settlement, rejected,
}
use middy.Batch.Source.{
  BatchRecord, BatchEvent, Source, sqs, kinesis, dynamodb, kafka, s3_batch, firehose, identify,
  get_records, resolve_batch_source,
}
use middy.Batch.Response.{
  Datum, Value, Codec, Response, absent, settled, item_failures, kafka_failures, s3_results,
  firehose_records, failures, kafka_identifier, s3_entries, firehose_entries,
}

-- `request.internal[pkg]`
pub record Cached (J : Type 0) : Type 0 where
  pub source : Source
  pub records : List (BatchRecord (Datum J))
  pub snapshot : List (Option (Datum J))

pub record BatchRequest (E J : Type 0) : Type 0 where
  pub event : BatchEvent (Datum J)
  pub response : Response E J
  pub error : E
  pub cached : Option (Cached J)

-- Only Firehose takes a snapshot of the data.
abbrev pub snapshot_of :
    {J : Type 0} → Source → List (BatchRecord (Datum J)) → List (Option (Datum J))
snapshot_of firehose rs = map (λ r. r.record_data) rs
snapshot_of _ rs = []

module _ {E J : Type 0} where
  -- The before hook.
  unfoldable pub before_hook : BatchRequest E J → Outcome String (BatchRequest E J)
  unfolding resolve_batch_source get_records
  before_hook q = elim (resolve_batch_source q.event) [
    | ok none ↦ ok q
    | ok (some s) ↦
        let rs = get_records s q.event in
        ok (record q {
          cached = some (record { source = s; records = rs; snapshot = snapshot_of s rs });
        })
    | err x ↦ err x
    | pending ↦ pending
  ]

module _ {E J : Type 0} (codec : Codec E J) where
  -- A source's `buildResponse`.
  unfoldable pub build_response :
      Cached J → BatchEvent (Datum J) → List (Settlement E (Value J)) → Response E J
  unfolding failures s3_entries firehose_entries
  build_response c e ss = elim c.source [
    | kafka ↦ kafka_failures (failures kafka_identifier c.records ss)
    | s3_batch ↦
        s3_results e.invocation_schema_version e.invocation_id (s3_entries codec c.records ss)
    | firehose ↦ firehose_records (firehose_entries codec c.records c.snapshot ss)
    | sqs ↦ item_failures (failures (identify sqs) c.records ss)
    | kinesis ↦ item_failures (failures (identify kinesis) c.records ss)
    | dynamodb ↦ item_failures (failures (identify dynamodb) c.records ss)
  ]

  abbrev pub respond : Option (Cached J) → Response E J → BatchRequest E J → BatchRequest E J
  respond (some c) (settled ss) q = record q { response = build_response c q.event ss }
  respond _ _ q = q

  -- The after hook: a response that is no array stays as it is.
  unfoldable pub after_hook : BatchRequest E J → BatchRequest E J
  unfolding build_response
  after_hook q = respond q.cached q.response q

  abbrev pub rejected_by : E → List (BatchRecord (Datum J)) → List (Settlement E (Value J))
  rejected_by e [] = []
  rejected_by e (r ∷ rs) = rejected e ∷ rejected_by e rs

  abbrev pub fail_all : Option (Cached J) → Response E J → BatchRequest E J → BatchRequest E J
  fail_all (some c) absent q = respond (some c) (settled (rejected_by q.error c.records)) q
  fail_all _ _ q = q

  -- The onError hook: every record settles as rejected with the request's error.
  unfoldable pub on_error_hook : BatchRequest E J → BatchRequest E J
  unfolding build_response
  on_error_hook q = fail_all q.cached q.response q
