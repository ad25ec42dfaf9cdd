-- ===== src/Batch/ResponseTests.antt =====
-- packages/event-batch-response: runs at concrete inputs.
use middy.Prelude.{
  ℕ, ◌≡◌, refl, String, false, none, some, List, [], ◌∷◌, map, ok, fulfilled, rejected,
}
use middy.Batch.Source.{BatchRecord, BatchEvent, missing, array, sqs, identify}
use middy.Batch.Response.{
  Datum, undefined, text, plain, Codec, Response, absent, settled, item_failures, s3_entries,
  firehose_entries,
}
use middy.Batch.Hooks.{BatchRequest, before_hook, after_hook}
use middy.Batch.Reporting.{s3_answer, firehose_answer, after_hook_reports, every_record_is_answered}

abbrev sample_codec : Codec ℕ ℕ
sample_codec = record {
  of_text = λ t. t;
  of_bytes = λ b. "";
  of_json = λ j. "";
  reason_text = λ e. "failed";
}

abbrev message : String → BatchRecord (Datum ℕ)
message id = record {
  event_source = some "aws:sqs";
  event_source_upper = none;
  message_id = some id;
  sequence_number = none;
  dynamodb_sequence_number = none;
  task_id = some id;
  record_id = some id;
  topic = "";
  partition = "";
  offset = 0;
  record_data = some (text id);
  raw_data = none;
}

abbrev messages : List (BatchRecord (Datum ℕ))
messages = message "a" ∷ message "b" ∷ message "c" ∷ []

abbrev sample_event : BatchEvent (Datum ℕ)
sample_event = record {
  event_source = none;
  delivery_stream_arn = false;
  invocation_schema_version = none;
  invocation_id = none;
  records_upper = array messages;
  records = missing;
  events = missing;
  tasks = missing;
}

abbrev request_with : Response ℕ ℕ → BatchRequest ℕ ℕ
request_with r = record {
  event = sample_event;
  response = r;
  error = 5;
  cached = some (record { source = sqs; records = messages; snapshot = [] });
}

-- The before hook finds the records that the other hooks report on.
before_hook_caches :
    before_hook (record (request_with absent) { cached = none }) ≡ ok (request_with absent)
unfolding before_hook
before_hook_caches = refl

after_hook_reports_example :
    (after_hook sample_codec
      (request_with (settled (rejected 1 ∷ fulfilled (plain undefined) ∷ [])))).response
    ≡ item_failures (some "a" ∷ some "c" ∷ [])
unfolding identify
after_hook_reports_example =
    after_hook_reports sample_codec
      (request_with (settled (rejected 1 ∷ fulfilled (plain undefined) ∷ []))) sqs messages
      (rejected 1 ∷ fulfilled (plain undefined) ∷ []) [] refl refl refl

every_record_is_answered_example :
    (map s3_answer
        (s3_entries sample_codec messages (rejected 1 ∷ fulfilled (plain (text "done")) ∷ []))
      ≡ (some "a", some "TemporaryFailure")
        ∷ (some "b", some "Succeeded")
        ∷ (some "c", some "TemporaryFailure")
        ∷ [])
    × (map firehose_answer (
          firehose_entries sample_codec messages []
            (rejected 1 ∷ fulfilled (plain (text "done")) ∷ []))
        ≡ (some "a", some "ProcessingFailed")
          ∷ (some "b", some "Ok")
          ∷ (some "c", some "ProcessingFailed")
          ∷ [])
every_record_is_answered_example =
    every_record_is_answered sample_codec messages []
      (rejected 1 ∷ fulfilled (plain (text "done")) ∷ [])
