-- ===== src/Contexts/Tests.antt =====
-- packages/core/index.js and packages/util/index.js: nested requests at concrete inputs.
use middy.Prelude.{ℕ, ◌<◌, All, suc, zero, ◌≡◌, refl, none, some, List, [], ◌∷◌, take, arith, ◌++◌}
use middy.Texts.{units}
use middy.Contexts.Heap.{
  Value, undefined, reference, other, Heap, create, read_from, read_flight, read,
}
use middy.Contexts.Requests.{
  middy_context, mark, unmark, middy_request, context_root, context_namespace,
  set_context_namespace, Act, make_object, open_namespace, publish, write, run_act, run_acts,
}
use middy.Contexts.Isolation.{IsOwn, nested_request_isolates}
use middy.Contexts.Inheritance.{IsHeap, nested_request_inherits, reused_context_starts_fresh}

-- The Lambda context at 0, on which a request has published under `s3`, and is in flight.
abbrev published : Heap ℕ
published =
    run_acts 0 (write (units "s3") (units "key") (other 5) ∷ publish (units "id") (other 7) ∷ [])
      (middy_request 0 (create none ∷ [])).1

abbrev outer : Heap ℕ
outer = mark 0 published

abbrev acts : List (Act ℕ)
acts =
    write (units "s3") (units "key") (other 6)
    ∷ publish (units "id") (other 8)
    ∷ open_namespace (units "new")
    ∷ make_object (create none)
    ∷ publish (units "client") (reference 7)
    ∷ write (units "client") (units "key") (other 9)
    ∷ []

abbrev inner : Heap ℕ
inner = run_acts (middy_request 0 outer).0 acts (middy_request 0 outer).1

abbrev outer_objects : Heap ℕ
outer_objects =
    record { proto = none; own = (middy_context, reference 1) ∷ []; in_flight = some (reference 1) }
    ∷ record {
      proto = none;
      own = (units "s3", reference 2) ∷ (units "id", other 7) ∷ [];
      in_flight = none;
    }
    ∷ record { proto = none; own = (units "key", other 5) ∷ []; in_flight = none }
    ∷ []

builds : outer ≡ outer_objects
unfolding run_acts run_act middy_request context_namespace set_context_namespace context_root
    read_from read_flight
builds = refl

abbrev inner_objects : Heap ℕ
inner_objects =
    record { proto = some 0; own = (middy_context, reference 4) ∷ []; in_flight = none }
    ∷ record {
      proto = some 1;
      own =
          (units "s3", reference 5)
          ∷ (units "id", other 8)
          ∷ (units "new", reference 6)
          ∷ (units "client", reference 7)
          ∷ [];
      in_flight = none;
    }
    ∷ record { proto = some 2; own = (units "key", other 6) ∷ []; in_flight = none }
    ∷ record { proto = none; own = []; in_flight = none }
    ∷ record { proto = none; own = (units "key", other 9) ∷ []; in_flight = none }
    ∷ []

nests : inner ≡ outer_objects ++ inner_objects
unfolding run_acts run_act middy_request context_namespace set_context_namespace context_root
    read_from read_flight
nests = refl

above : (n b : ℕ) → n < b → (a : ℕ) → ◌≡◌ {A = Value ℕ} (reference b) (reference a) → n < a
above n b l a e = let d : b ≡ a = cc in omega (arith, d)

acts-AreOwn : All (IsOwn 4) acts
acts-AreOwn = (tt, ((λ a e. absurd cc), (tt, (tt, (above 4 7 (omega arith), (tt, tt))))))

nested_request_isolates_example :
    take 3 (run_acts (middy_request 0 outer_objects).0 acts (middy_request 0 outer_objects).1)
    ≡ outer_objects
unfolding read_from read_flight
nested_request_isolates_example =
    nested_request_isolates 0 1 outer_objects acts refl refl acts-AreOwn

outer-IsHeap : IsHeap outer_objects
outer-IsHeap zero b e = absurd cc
outer-IsHeap (suc zero) b e = absurd cc
outer-IsHeap (suc (suc zero)) b e = absurd cc
outer-IsHeap (suc (suc (suc a))) b e = absurd cc

nested_request_inherits_example :
    (read (middy_request 0 outer_objects).1 (middy_request 0 outer_objects).0 middy_context
      ≡ reference 4)
    × (read (middy_request 0 outer_objects).1 4 (units "s3") ≡ read outer_objects 1 (units "s3"))
unfolding read_from read_flight
nested_request_inherits_example =
    nested_request_inherits 0 1 outer_objects (units "s3") outer-IsHeap (omega arith) refl refl

reused_context_starts_fresh_example :
    let next = middy_request 0 (unmark 0 outer_objects) in
    (read next.1 next.0 middy_context ≡ reference 3) × (read next.1 3 (units "s3") ≡ undefined)
reused_context_starts_fresh_example =
    reused_context_starts_fresh 0 outer_objects (units "s3") (omega arith)
