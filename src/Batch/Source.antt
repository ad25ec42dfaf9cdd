-- ===== src/Batch/Source.antt =====
-- packages/event-batch-response/index.js: the source of a batch event and its records.
use middy.Prelude.{
  ℕ, String, str_eq, Bool, true, false, ◌&&◌, not, Option, none, some, List, [], ◌∷◌, concat,
  if◌then◌else◌, Outcome, ok, err,
}

-- What is read of a record; `none` is `undefined`. `raw_data` is what an in-place parser kept.
pub record BatchRecord (D : Type 0) : Type 0 where
  pub event_source : Option String
  pub event_source_upper : Option String
  pub message_id : Option String
  pub sequence_number : Option String
  pub dynamodb_sequence_number : Option String
  pub task_id : Option String
  pub record_id : Option String
  pub topic : String
  pub partition : String
  pub offset : ℕ
  pub record_data : Option D
  pub raw_data : Option D

-- A field of the event: `undefined` or `null`, an array of records, an object by its values, of
-- which those that are arrays count, or anything else.
pub data Field (D : Type 0) : Type 0 where
  missing : Field D
  array : List (BatchRecord D) → Field D
  groups : List (Option (List (BatchRecord D))) → Field D
  scalar : Field D

pub record BatchEvent (D : Type 0) : Type 0 where
  pub event_source : Option String
  pub delivery_stream_arn : Bool
  pub invocation_schema_version : Option String
  pub invocation_id : Option String
  pub records_upper : Field D
  pub records : Field D
  pub events : Field D
  pub tasks : Field D

pub data Source : Type 0 where
  sqs kinesis dynamodb kafka s3_batch firehose : Source

-- `sources[eventSource]`
unfoldable pub source_of : String → Option Source
source_of s =
    if str_eq s "aws:sqs"
    then some sqs
    else if str_eq s "aws:kinesis"
    then some kinesis
    else if str_eq s "aws:dynamodb"
    then some dynamodb
    else if str_eq s "aws:kafka"
    then some kafka
    else if str_eq s "SelfManagedKafka"
    then some kafka
    else if str_eq s "aws:s3:batch"
    then some s3_batch
    else if str_eq s "aws:lambda:events"
    then some firehose
    else none

abbrev pub is_nonempty : Option String → Bool
is_nonempty none = false
is_nonempty (some s) = not (str_eq s "")

module _ {D : Type 0} where
  abbrev pub is_array : Field D → Bool
  is_array (array rs) = true
  is_array _ = false

  -- `a ?? b`
  abbrev pub first_present : Field D → Field D → Field D
  first_present missing b = b
  first_present a b = a

  abbrev pub source_of_first : Field D → Option String
  source_of_first (array (r ∷ rs)) = elim r.event_source [
    | none ↦ r.event_source_upper
    | some s ↦ some s
  ]
  source_of_first _ = none

  -- `detectEventSource`
  unfoldable pub detect_event_source : BatchEvent D → Option String
  detect_event_source e =
      if is_nonempty e.event_source
      then e.event_source
      else if e.delivery_stream_arn
      then some "aws:lambda:events"
      else if is_nonempty e.invocation_schema_version && is_array e.tasks
      then some "aws:s3:batch"
      else source_of_first
          (first_present e.records_upper (first_present e.records (first_present e.events e.tasks)))

  -- `resolveBatchSource`; the error is that of an unsupported source, by its name.
  unfoldable pub resolve_batch_source : BatchEvent D → Outcome String (Option Source)
  unfolding detect_event_source source_of
  resolve_batch_source e = elim (detect_event_source e) [
    | none ↦ ok none
    | some s ↦ elim (source_of s) [ none ↦ err s | some source ↦ ok (some source) ]
  ]

  -- `asArray`
  abbrev pub as_array : Field D → List (BatchRecord D)
  as_array (array rs) = rs
  as_array _ = []

  abbrev pub arrays_of : List (Option (List (BatchRecord D))) → List (BatchRecord D)
  arrays_of [] = []
  arrays_of (none ∷ gs) = arrays_of gs
  arrays_of (some rs ∷ gs) = concat (rs ∷ arrays_of gs ∷ [])

  -- `kafkaRecords`: the values of an array of records are no arrays.
  abbrev pub kafka_records : Field D → List (BatchRecord D)
  kafka_records (groups gs) = arrays_of gs
  kafka_records _ = []

  -- A source's `getRecords`.
  unfoldable pub get_records : Source → BatchEvent D → List (BatchRecord D)
  get_records kafka e = kafka_records e.records
  get_records s3_batch e = as_array e.tasks
  get_records firehose e = as_array e.records
  get_records sqs e = as_array e.records_upper
  get_records kinesis e = as_array e.records_upper
  get_records dynamodb e = as_array e.records_upper

  -- A source's `identify`. The one of Kafka has its own shape.
  unfoldable pub identify : Source → BatchRecord D → Option String
  identify sqs r = r.message_id
  identify kinesis r = r.sequence_number
  identify dynamodb r = r.dynamodb_sequence_number
  identify s3_batch r = r.task_id
  identify firehose r = r.record_id
  identify kafka r = none

  -- `flattenBatchRecords`
  unfoldable pub flatten_batch_records : BatchEvent D → Outcome String (List (BatchRecord D))
  unfolding resolve_batch_source get_records
  flatten_batch_records e = elim (resolve_batch_source e) [
    | ok none ↦ ok []
    | ok (some s) ↦ ok (get_records s e)
    | err x ↦ err x
    | Outcome.pending ↦ Outcome.pending
  ]
