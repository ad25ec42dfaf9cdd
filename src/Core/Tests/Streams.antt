-- ===== src/Core/Tests/Streams.antt =====
-- Streamed responses at concrete bodies.
use middy.Prelude.{ℕ, ◌≡◌, refl, false, [], ◌∷◌, ok}
use middy.Core.Streamify.{Sink, chunk, ended, write_chunks, end_stream}
use middy.Core.Streamify.Chunks.{IsHealthy}

abbrev sink : Sink ℕ ℕ ℕ
sink = record {
  accepts = λ out. false;
  drained = λ out. ok tt;
  destroyed = λ out. false;
  finished = λ out. ok tt;
  pipeline = λ r out. ok tt;
  invalid_body = 1;
}

abbrev healthy : IsHealthy sink
healthy = record { drains = λ out. refl; stands = λ out. refl; finishes = λ out. refl }

three_chunks :
    write_chunks sink 2 6 0 (1 ∷ 2 ∷ 3 ∷ 4 ∷ 5 ∷ []) []
    ≡ (ok tt, chunk (1 ∷ 2 ∷ []) ∷ chunk (3 ∷ 4 ∷ []) ∷ chunk (5 ∷ []) ∷ ended ∷ [])
unfolding write_chunks end_stream
three_chunks = refl
