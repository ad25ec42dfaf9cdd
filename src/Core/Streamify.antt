-- ===== src/Core/Streamify.antt =====
-- packages/core/executionModeStreamifyResponse.js: the response written to the Lambda stream.
pub mod Chunks
use middy.Prelude.{
  ℕ, zero, suc, ◌+◌, Bool, true, false, ◌&&◌, not, Option, none, some, List, [], ◌∷◌, ◌++◌, ltb,
  ◌==◌, if◌then◌else◌, length, take, drop, Outcome, Action, pure, raise, hang, gets, modify, ◌>>=◌,
  ◌>>◌,
}

-- What a stream carries: a text as its code units, a view as its bytes, a readable `R`, or a value
-- that cannot be written.
pub data Body (R : Type 0) : Type 0 where
  text : List ℕ → Body R
  view : List ℕ → Body R
  readable : R → Body R
  other : Body R

-- A handler's response: a bare body, or an object with a status code, a body that may be missing
-- and the rest `P`, which becomes the prelude. A missing status code is 0.
pub data StreamResponse (R P : Type 0) : Type 0 where
  bare : Body R → StreamResponse R P
  http : ℕ → Option (Body R) → P → StreamResponse R P

-- What has gone out.
pub data Write (R P : Type 0) : Type 0 where
  prelude : P → Write R P
  chunk : List ℕ → Write R P
  bytes : List ℕ → Write R P
  piped : R → Write R P
  ended : Write R P

-- The stream's answers, which depend on what has gone out.
pub record Sink (E R P : Type 0) : Type 0 where
  pub accepts : List (Write R P) → Bool
  pub drained : List (Write R P) → Outcome E (Unit {0})
  pub destroyed : List (Write R P) → Bool
  pub finished : List (Write R P) → Outcome E (Unit {0})
  pub pipeline : R → List (Write R P) → Outcome E (Unit {0})
  pub invalid_body : E

abbrev pub chunk_size : ℕ
chunk_size = 16384

module _ {E R P : Type 0} (sink : Sink E R P) where
  abbrev pub write : Write R P → Action E (List (Write R P)) (Unit {0})
  write w = modify (λ out. out ++ w ∷ [])

  abbrev pub await_sink :
      (List (Write R P) → Outcome E (Unit {0})) → Action E (List (Write R P)) (Unit {0})
  await_sink answer out = (answer out, out)

  -- `endStream`
  unfoldable pub end_stream : Action E (List (Write R P)) (Unit {0})
  end_stream = do
    gone ← gets sink.destroyed
    if gone then pure tt else write ended
    await_sink sink.finished

  -- The loop of `writeString` from a position on; it runs out of fuel after `fuel` rounds.
  unfoldable pub write_chunks : ℕ → ℕ → ℕ → List ℕ → Action E (List (Write R P)) (Unit {0})
  unfolding end_stream
  write_chunks size zero position body = hang
  write_chunks size (suc fuel) position body = do
    write (chunk (take size (drop position body)))
    accepted ← gets sink.accepts
    let next = position + size
    if not accepted && ltb next (length body) then await_sink sink.drained else pure tt
    if ltb next (length body) then write_chunks size fuel next body else end_stream

  unfoldable pub write_string : List ℕ → Action E (List (Write R P)) (Unit {0})
  unfolding write_chunks
  write_string body = write_chunks chunk_size (suc (length body)) 0 body

  unfoldable pub write_binary : List ℕ → Action E (List (Write R P)) (Unit {0})
  unfolding end_stream
  write_binary body = do write (bytes body); end_stream

  unfoldable pub write_stream : R → Action E (List (Write R P)) (Unit {0})
  write_stream r = do write (piped r); await_sink (sink.pipeline r)

  -- `handlerResponse ?? ""`, or the body of an object with a status code.
  unfoldable pub body_of : Option (StreamResponse R P) → Body R
  body_of none = text []
  body_of (some (bare b)) = b
  body_of (some (http zero b p)) = other
  body_of (some (http (suc n) none p)) = text []
  body_of (some (http (suc n) (some b) p)) = b

  unfoldable pub prelude_of : Option (StreamResponse R P) → Option P
  prelude_of none = none
  prelude_of (some (bare b)) = none
  prelude_of (some (http zero b p)) = none
  prelude_of (some (http (suc n) b p)) = some p

  -- `HttpResponseStream.from(responseStream, prelude)` and the write that flushes it.
  unfoldable pub write_prelude : Option P → Action E (List (Write R P)) (Unit {0})
  write_prelude none = pure tt
  write_prelude (some p) = do write (prelude p); write (chunk [])

  unfoldable pub write_body : Body R → Action E (List (Write R P)) (Unit {0})
  unfolding write_string write_binary write_stream
  write_body (text b) = write_string b
  write_body (view b) = write_binary b
  write_body (readable r) = write_stream r
  write_body other = raise sink.invalid_body

  -- The choice of `writeBody`, before any byte goes out.
  abbrev pub is_writable : Body R → Bool
  is_writable other = false
  is_writable _ = true

  -- The write of a response, from its classification to the end of the stream.
  unfoldable pub write_response :
      Option (StreamResponse R P) → Action E (List (Write R P)) (Unit {0})
  unfolding write_body write_prelude body_of prelude_of
  write_response r =
      if is_writable (body_of r)
      then (do write_prelude (prelude_of r); write_body (body_of r))
      else raise sink.invalid_body
