-- ===== src/Batch/Workers.antt =====
-- packages/event-batch-handler/index.js: what the workers of `settleConcurrent` come to.
use middy.Prelude.{
  ℕ, zero, suc, ◌+◌, ◌-◌, ◌*◌, ◌≤◌, ◌<◌, ◌≡◌, refl, ap, sym, subst, Option, none, some, is_some,
  true, All, List, [], ◌∷◌, ◌++◌, ◌==◌, ltb, Settlement, length, length-append, arith, tests, ◌⊎◌,
  inl, inr, Bool-cases, ==→eq,
}
use middy.Batch.Pool.{
  length_steps, Pool, start_pool, write_settled, take_next, settle_record, Step, takes, settles,
  Steps, still, step, IsDone, settled_list,
}

abbrev Among : ℕ → List ℕ → Type 0
Among i [] = ⊥
Among i (j ∷ js) = (i ≡ j) ⊎ Among i js

Among-remove :
    (i j : ℕ) (pre post : List ℕ) → Among j (pre ++ i ∷ post) → (j ≡ i) ⊎ Among j (pre ++ post)
Among-remove i j [] post m = m
Among-remove i j (k ∷ pre) post (inl e) = inr (inl e)
Among-remove i j (k ∷ pre) post (inr m) = elim (Among-remove i j pre post m) [
  | inl e ↦ inl e
  | inr n ↦ inr (inr n)
]

module _ {E V : Type 0} (limit count : ℕ) (outcome : ℕ → Option (Settlement E V)) where
  -- The run of the record has settled, and the entry holds what it settled with.
  abbrev Holds : ℕ → Option (Settlement E V) → Type 0
  Holds i entry = (entry ≡ outcome i) × (is_some (outcome i) ≡ true)

  -- Every worker is busy or idle, and what was taken runs or is settled.
  record IsSound (s : Pool E V) : Type 0 where
    bound : s.next ≤ count
    workers : length s.running + s.idle ≡ limit
    taken : (i : ℕ) → i < s.next → Among i s.running ⊎ Holds i (s.settled i)

  written :
      (i j : ℕ) (x : Settlement E V) (f : ℕ → Option (Settlement E V))
      → outcome i ≡ some x
      → j ≡ i
      → Holds j (write_settled i x f j)
  written i j x f o e = ground (arith, o, e)

  kept :
      (i j : ℕ) (x : Settlement E V) (f : ℕ → Option (Settlement E V))
      → outcome i ≡ some x
      → Holds j (f j)
      → Holds j (write_settled i x f j)
  kept i j x f o (e, h) = elim (Bool-cases (i == j)) [
    | inl b ↦ written i j x f o (sym (==→eq i j b))
    | inr b ↦ (rw b e, h)
  ]

  start_pool-IsSound : IsSound (start_pool limit)
  start_pool-IsSound = record {
    bound = omega arith;
    workers = omega arith;
    taken = λ i h. absurd (omega arith);
  }

  Step-IsSound : {s t : Pool E V} → Step count outcome s t → IsSound s → IsSound t
  Step-IsSound (takes s workers w n) h = record {
    bound = omega arith;
    workers = omega (arith, w, h.workers);
    taken = λ i l. elim (Bool-cases (ltb i s.next)) [
      | inl before ↦ elim (h.taken i (omega tests)) [ inl m ↦ inl (inr m) | inr e ↦ inr e ]
      | inr new ↦ inl (inl (omega tests))
    ];
  }
  Step-IsSound (settles s pre post i x r o) h = record {
    bound = h.bound;
    workers =
        omega (arith, ap length r, length-append pre (i ∷ post), length-append pre post, h.workers);
    taken = λ j l. elim (h.taken j l) [
      | inl m ↦ elim (Among-remove i j pre post (subst (Among j) r m)) [
        | inl e ↦ inr (written i j x s.settled o e)
        | inr m' ↦ inl m'
      ]
      | inr e ↦ inr (kept i j x s.settled o e)
    ];
  }

  Steps-IsSound : {s t : Pool E V} → Steps count outcome s t → IsSound s → IsSound t
  Steps-IsSound still h = h
  Steps-IsSound (step a p) h = Steps-IsSound p (Step-IsSound a h)

  settled_list-eq :
      (f : ℕ → Option (Settlement E V)) (from n : ℕ)
      → ((i : ℕ) → i < from + n → Holds i (f i))
      → (settled_list f from n ≡ settled_list outcome from n)
        × All (λ x. is_some x ≡ true) (settled_list f from n)
  unfolding settled_list
  settled_list-eq f from zero h = (refl, tt)
  settled_list-eq f from (suc n) h =
      let (e, a) = settled_list-eq f (suc from) n (λ i l. h i (omega arith)) in
      let (d, b) = h from (omega arith) in (cc (d, e), (subst (λ x. is_some x ≡ true) (sym d) b, a))

  IsSound-done :
      (s : Pool E V) → IsSound s → IsDone count s → (i : ℕ) → i < count → Holds i (s.settled i)
  IsSound-done s h d i l = elim (h.taken i (omega (arith, d.1))) [
    | inl m ↦ absurd (subst (Among i) d.0 m)
    | inr e ↦ e
  ]

  -- However the workers interleave: once all have left their loops, the run of every record has
  -- settled, and the array holds what each settled with, in the order of the records.
  pub workers_settle_in_order :
      (s : Pool E V)
      → Steps count outcome (start_pool limit) s
      → IsDone count s
      → (settled_list s.settled 0 count ≡ settled_list outcome 0 count)
        × All (λ x. is_some x ≡ true) (settled_list s.settled 0 count)
  workers_settle_in_order s p d =
      let h = Steps-IsSound p start_pool-IsSound in
      settled_list-eq s.settled 0 count (λ i l. IsSound-done s h d i (omega arith))

  -- At no time do more records run than the limit.
  pub workers_bounded :
      (s : Pool E V) → Steps count outcome (start_pool limit) s → length s.running ≤ limit
  workers_bounded s p = let h = Steps-IsSound p start_pool-IsSound in omega (arith, h.workers)

  abbrev turns_left : Pool E V → ℕ
  turns_left s = (count - s.next) * 2 + length s.running

  Step-turns_left : {s t : Pool E V} → Step count outcome s t → suc (turns_left t) ≡ turns_left s
  Step-turns_left (takes s workers w n) = omega (arith, n)
  Step-turns_left (settles s pre post i x r o) =
      omega (arith, ap length r, length-append pre (i ∷ post), length-append pre post)

  Steps-turns_left :
      {s t : Pool E V} (p : Steps count outcome s t) → length_steps p + turns_left t ≡ turns_left s
  Steps-turns_left still = omega arith
  Steps-turns_left (step a p) = omega (arith, Step-turns_left a, Steps-turns_left p)

  some_settlement :
      (o : Option (Settlement E V)) → is_some o ≡ true → (x : Settlement E V) × (o ≡ some x)
  some_settlement none e = absurd cc
  some_settlement (some x) e = (x, refl)

  -- A pool with a worker is done or takes a turn.
  progress :
      (s : Pool E V) (rs : List ℕ) (idle : ℕ)
      → ((i : ℕ) → is_some (outcome i) ≡ true)
      → s.running ≡ rs
      → s.idle ≡ idle
      → 1 ≤ length rs + idle
      → IsDone count s ⊎ ((t : Pool E V) × Step count outcome s t)
  progress s (i ∷ rs) idle f r w l =
      let (x, o) = some_settlement (outcome i) (f i) in
      inr (settle_record rs i x s, settles s [] rs i x r o)
  progress s [] zero f r w l = absurd (omega arith)
  progress s [] (suc k) f r w l = elim (Bool-cases (ltb s.next count)) [
    | inl more ↦ inr (take_next k s, takes s k w (omega tests))
    | inr no_more ↦ inl (r, omega tests)
  ]

  -- Where the run of every record settles, and the limit is at least one, as the schema asks for,
  -- the workers are never stuck and come to an end: there are at most two turns for each record,
  -- and until all workers have left their loops there is a next turn.
  pub workers_finish :
      (s : Pool E V) (p : Steps count outcome (start_pool limit) s)
      → 1 ≤ limit
      → ((i : ℕ) → is_some (outcome i) ≡ true)
      → (length_steps p ≤ count * 2) × (IsDone count s ⊎ ((t : Pool E V) × Step count outcome s t))
  workers_finish s p l f =
      let h = Steps-IsSound p start_pool-IsSound in
      (
        omega (arith, Steps-turns_left p),
        progress s s.running s.idle f refl refl (omega (arith, h.workers, l)),
      )
