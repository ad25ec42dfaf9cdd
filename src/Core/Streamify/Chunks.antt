-- ===== src/Core/Streamify/Chunks.antt =====
-- packages/core/executionModeStreamifyResponse.js: `writeString` cuts a text into chunks.
use middy.Prelude.{
  ℕ, zero, suc, ◌+◌, ◌-◌, ◌≤◌, ◌<◌, ◌≡◌, ◌∙◌, true, false, List, [], ◌∷◌, ◌++◌, map, ltb, ltb→le,
  length, take, drop, drop-drop, take-all, concat, take-append-drop, length-take, length-drop,
  append_assoc, append-nil, arith, Outcome, ok, err, All, Bool-cases, inl, inr, some, Option,
}
use middy.Core.Streamify.{
  body_of, other, Write, chunk, ended, prelude, Sink, end_stream, write_chunks, chunk_size,
  write_response, StreamResponse, http, text,
}

-- A stream that drains, is never destroyed and finishes.
pub record IsHealthy {E R P : Type 0} (sink : Sink E R P) : Type 0 where
  pub drains : (out : List (Write R P)) → sink.drained out ≡ ok tt
  pub stands : (out : List (Write R P)) → sink.destroyed out ≡ false
  pub finishes : (out : List (Write R P)) → sink.finished out ≡ ok tt

module _ {E R P : Type 0} (sink : Sink E R P) (healthy : IsHealthy sink) where
  -- The text that is left at a position is written as chunks and the stream is ended.
  abbrev pub Written :
      ℕ → List ℕ → List (Write R P) → Outcome E (Unit {0}) × List (Write R P) → Type 0
  Written size rest out r =
      (cs : List (List ℕ)) × (r ≡ (ok tt, out ++ (map chunk cs ++ ended ∷ [])))
      × (concat cs ≡ rest)
      × All (λ c. length c ≤ size) cs

  end_stream_lem : (out : List (Write R P)) → end_stream sink out ≡ (ok tt, out ++ ended ∷ [])
  unfolding end_stream
  end_stream_lem out = ground (arith, healthy.stands out, healthy.finishes (out ++ ended ∷ []))

  write_chunks_last :
      (size fuel position : ℕ) (body : List ℕ) (out : List (Write R P))
      → ltb (position + size) (length body) ≡ false
      → write_chunks sink size (suc fuel) position body out
        ≡ (ok tt, (out ++ chunk (take size (drop position body)) ∷ []) ++ ended ∷ [])
  unfolding write_chunks
  write_chunks_last size fuel position body out h =
      ground (arith, end_stream_lem (out ++ chunk (take size (drop position body)) ∷ []))

  write_chunks_more :
      (size fuel position : ℕ) (body : List ℕ) (out : List (Write R P))
      → ltb (position + size) (length body) ≡ true
      → write_chunks sink size (suc fuel) position body out
        ≡ write_chunks sink size fuel
            (position + size)
            body
            (out ++ chunk (take size (drop position body)) ∷ [])
  unfolding write_chunks
  write_chunks_more size fuel position body out h =
      ground (arith, healthy.drains (out ++ chunk (take size (drop position body)) ∷ []))

  write_chunks_lem :
      (size fuel position : ℕ) (body : List ℕ) (out : List (Write R P))
      → 0 < size
      → length body - position < fuel
      → Written size (drop position body) out (write_chunks sink size fuel position body out)
  write_chunks_lem size zero position body out pos enough = absurd (omega arith)
  write_chunks_lem size (suc fuel) position body out pos enough =
      elim (Bool-cases (ltb (position + size) (length body))) [
        | inl more ↦
            let first = take size (drop position body) in
            let (cs, e, joined, sized) =
              write_chunks_lem size fuel (position + size) body (out ++ chunk first ∷ []) pos
                (ground arith) in
            (
              first ∷ cs,
              write_chunks_more size fuel position body out more ∙ e ∙ simp append_assoc,
              rw joined (rw (← drop-drop) (take-append-drop size (drop position body))),
              (rw (length-take size (drop position body)) (omega arith), sized),
            )
        | inr last ↦ (
          take size (drop position body) ∷ [],
          write_chunks_last size fuel position body out last ∙ simp append_assoc,
          rw append-nil (
              take-all size (drop position body)
                (omega (arith, ltb→le _ _ last, length-drop position body))),
          (rw (length-take size (drop position body)) (omega arith), tt),
        )
      ]

  -- A text response with a status code, on a stream that stays healthy: the prelude and its flush
  -- go out first, then chunks of at most `chunk_size` code units that join to the text, and then
  -- the end of the stream.
  pub write_response_text :
      (status : ℕ) (body : List ℕ) (p : P) (out : List (Write R P))
      → Written chunk_size body
          (out ++ prelude p ∷ chunk [] ∷ [])
          (write_response sink (some (http (suc status) (some (text body)) p)) out)
  unfolding write_response
  write_response_text status body p out = rw append_cons₂ (
      write_chunks_lem chunk_size (suc (length body)) 0 body
        ((out ++ prelude p ∷ []) ++ chunk [] ∷ []) (omega arith) (omega arith))
    where
      append_cons₂ : out ++ prelude p ∷ chunk [] ∷ [] ≡ (out ++ prelude p ∷ []) ++ chunk [] ∷ []
      append_cons₂ = simp append_assoc

-- A response whose body is no text, no view of bytes and no readable stream is refused before
-- anything goes out, the prelude included.
pub write_response-other :
    {E R P : Type 0} (sink : Sink E R P) (r : Option (StreamResponse R P)) (out : List (Write R P))
    → body_of sink r ≡ other
    → write_response sink r out ≡ (err sink.invalid_body, out)
unfolding write_response
write_response-other sink r out e = ground arith
