-- ===== src/Batch/Response.antt =====
-- packages/event-batch-response/index.js: the responses of a partial batch, and the hooks.
use middy.Prelude.{
  ℕ, String, Bool, true, false, Option, none, some, or_default, List, [], ◌∷◌, if◌then◌else◌,
  Settlement, fulfilled, rejected,
}
use middy.Batch.Source.{BatchRecord, s3_batch, firehose, identify}

-- A value that may go out as Firehose data.
pub data Datum (J : Type 0) : Type 0 where
  undefined : Datum J
  text : String → Datum J
  bytes : List ℕ → Datum J
  json : J → Datum J

-- What a record's handler returns: an object with its keys `resultCode` and `result`, if it has
-- them, or another value.
pub record ResultObject (J : Type 0) : Type 0 where
  pub result_code : Option (Option String)
  pub result_string : Option String
  pub result : Option (Option String)
  pub record_data : Datum J
  pub whole : J

pub data Value (J : Type 0) : Type 0 where
  plain : Datum J → Value J
  object : ResultObject J → Value J

-- Node's Buffer and JSON.stringify, to base64, and the text of a thrown value: the message of an
-- Error, `undefined` and `null` as the empty text, and any other value by String.
pub record Codec (E J : Type 0) : Type 0 where
  pub of_text : String → String
  pub of_bytes : List ℕ → String
  pub of_json : J → String
  pub reason_text : E → String

pub record S3Result : Type 0 where
  pub task_id : Option String
  pub result_code : Option String
  pub result_string : String

pub record FirehoseRecord : Type 0 where
  pub record_id : Option String
  pub result : Option String
  pub record_data : Option String

-- `request.response`: `undefined`, the array of settled records, what the middleware builds, or
-- anything else.
pub data Response (E J : Type 0) : Type 0 where
  absent : Response E J
  settled : List (Settlement E (Value J)) → Response E J
  item_failures : List (Option String) → Response E J
  kafka_failures : List (String × String × ℕ) → Response E J
  s3_results : Option String → Option String → List S3Result → Response E J
  firehose_records : List FirehoseRecord → Response E J
  other : Response E J

module _ {E J : Type 0} where
  abbrev pub is_fulfilled : Option (Settlement E (Value J)) → Bool
  is_fulfilled (some (fulfilled v)) = true
  is_fulfilled (some (rejected e)) = false
  is_fulfilled none = false

  -- `settled[0]` and what comes after it.
  abbrev pub first_entry : List (Settlement E (Value J)) → Option (Settlement E (Value J))
  first_entry [] = none
  first_entry (s ∷ ss) = some s

  abbrev pub later_entries : List (Settlement E (Value J)) → List (Settlement E (Value J))
  later_entries [] = []
  later_entries (s ∷ ss) = ss

  -- The records whose entry is not fulfilled, by an identifier: the loop of
  -- `buildBatchItemFailures` and of `buildKafkaBatchItemFailures`.
  unfoldable pub failures :
      {D I : Type 0}
      → (BatchRecord D → I)
      → List (BatchRecord D)
      → List (Settlement E (Value J))
      → List I
  failures id [] ss = []
  failures id (r ∷ rs) ss =
      let rest = failures id rs (later_entries ss) in
      if is_fulfilled (first_entry ss) then rest else id r ∷ rest

-- `{ partition: `${topic}-${partition}`, offset: Number(offset) }`, by its three parts.
abbrev pub kafka_identifier : {D : Type 0} → BatchRecord D → String × String × ℕ
kafka_identifier r = (r.topic, r.partition, r.offset)

module _ {J : Type 0} where
  -- `snapshot[0]` and what comes after it.
  abbrev pub first_snapshot : List (Option (Datum J)) → Option (Datum J)
  first_snapshot [] = none
  first_snapshot (s ∷ ss) = s

  -- What is kept of a record's data: what the first in-place parser kept, or else the snapshot.
  abbrev pub kept_data : BatchRecord (Datum J) → List (Option (Datum J)) → Option (Datum J)
  kept_data r ds = elim r.raw_data [ none ↦ first_snapshot ds | some d ↦ some d ]

  abbrev pub later_snapshots : List (Option (Datum J)) → List (Option (Datum J))
  later_snapshots [] = []
  later_snapshots (s ∷ ss) = ss

module _ {E J : Type 0} (codec : Codec E J) where
  abbrev pub reason_string : Option E → String
  reason_string none = ""
  reason_string (some e) = codec.reason_text e

  -- `toS3BatchResult`
  unfoldable pub to_s3_batch_result : Option String → Value J → String → Option E → S3Result
  to_s3_batch_result id (object o) code reason = elim o.result_code [
    | some c ↦ record {
      task_id = id;
      result_code = c;
      result_string = or_default o.result_string "";
    }
    | none ↦ record { task_id = id; result_code = some code; result_string = reason_string reason }
  ]
  to_s3_batch_result id (plain (text t)) code reason = record {
    task_id = id;
    result_code = some code;
    result_string = t;
  }
  to_s3_batch_result id (plain d) code reason = record {
    task_id = id;
    result_code = some code;
    result_string = reason_string reason;
  }

  unfoldable pub s3_entry : Option String → Option (Settlement E (Value J)) → S3Result
  unfolding to_s3_batch_result
  s3_entry id (some (fulfilled v)) = to_s3_batch_result id v "Succeeded" none
  s3_entry id (some (rejected e)) =
      to_s3_batch_result id (plain undefined) "TemporaryFailure" (some e)
  s3_entry id none = to_s3_batch_result id (plain undefined) "TemporaryFailure" none

  -- The results of `buildS3BatchResponse`.
  unfoldable pub s3_entries :
      {D : Type 0} → List (BatchRecord D) → List (Settlement E (Value J)) → List S3Result
  unfolding s3_entry
  s3_entries [] ss = []
  s3_entries (r ∷ rs) ss =
      s3_entry (identify s3_batch r) (first_entry ss) ∷ s3_entries rs (later_entries ss)

  -- `encodeFirehoseData`
  unfoldable pub encode_firehose_data : Datum J → Option String → Option String
  encode_firehose_data undefined fallback = fallback
  encode_firehose_data (text t) fallback = some (codec.of_text t)
  encode_firehose_data (bytes b) fallback = some (codec.of_bytes b)
  encode_firehose_data (json j) fallback = some (codec.of_json j)

  -- The original input: a string as it is, and anything else encoded.
  unfoldable pub input_data : Option (Datum J) → Option String
  unfolding encode_firehose_data
  input_data none = none
  input_data (some (text t)) = some t
  input_data (some d) = encode_firehose_data d none

  -- `toFirehoseRecord`
  unfoldable pub to_firehose_record : Option String → Option String → Value J → FirehoseRecord
  unfolding encode_firehose_data
  to_firehose_record id input (object o) = elim o.result [
    | some r ↦ record {
      record_id = id;
      result = r;
      record_data = encode_firehose_data o.record_data input;
    }
    | none ↦ record {
      record_id = id;
      result = some "Ok";
      record_data = encode_firehose_data (json o.whole) input;
    }
  ]
  to_firehose_record id input (plain d) = record {
    record_id = id;
    result = some "Ok";
    record_data = encode_firehose_data d input;
  }

  unfoldable pub firehose_entry :
      Option String → Option String → Option (Settlement E (Value J)) → FirehoseRecord
  unfolding to_firehose_record
  firehose_entry id input (some (fulfilled v)) = to_firehose_record id input v
  firehose_entry id input (some (rejected e)) = record {
    record_id = id;
    result = some "ProcessingFailed";
    record_data = input;
  }
  firehose_entry id input none = record {
    record_id = id;
    result = some "ProcessingFailed";
    record_data = input;
  }

  -- The records of `buildFirehoseResponse`.
  unfoldable pub firehose_entries :
      List (BatchRecord (Datum J))
      → List (Option (Datum J))
      → List (Settlement E (Value J))
      → List FirehoseRecord
  unfolding firehose_entry input_data
  firehose_entries [] ds ss = []
  firehose_entries (r ∷ rs) ds ss =
      firehose_entry (identify firehose r) (input_data (kept_data r ds)) (first_entry ss)
      ∷ firehose_entries rs (later_snapshots ds) (later_entries ss)
