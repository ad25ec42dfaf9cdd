-- ===== src/Util/Client/Attempts.antt =====
-- packages/util/index.js: the attempts that createClientInit returns.
use middy.Prelude.{
  ℕ, ◌+◌, ◌==◌, ◌≡◌, refl, sym, ap, ◌∙◌, ◌<◌, Bool, true, false, inl, inr, Option, none, some, List,
  ◌∷◌, arith, Bool-cases, if◌then◌else◌,
}
use middy.Util.Client.{Memo, is_same, take_credentials, pending_or_new, init_client}
use middy.Util.Client.Past.{
  Past, credentials_of, is_rejected, note_start, call_client, reject_attempt, IsReachable, created,
  called, failed, IsServed, IsSound,
}

is_same→eq : (x y : Option ℕ) → is_same x y ≡ true → x ≡ y
is_same→eq none none e = refl
is_same→eq none (some y) e = absurd cc
is_same→eq (some x) none e = absurd cc
is_same→eq (some x) (some y) e = ground arith

fresh_attempt : (p : Past) → IsSound p → is_rejected p.memo.attempts p.rejected ≡ false
fresh_attempt p s = elim (Bool-cases (is_rejected p.memo.attempts p.rejected)) [
  | inl h ↦ absurd (omega (arith, s.all_started p.memo.attempts h))
  | inr h ↦ h
]

other_rejected :
    (i j : ℕ) (js : List ℕ)
    → (j == i) ≡ false
    → is_rejected i js ≡ false
    → is_rejected i (j ∷ js) ≡ false
other_rejected i j js a b = ground (arith, a, b)

earlier_rejected :
    (i j n : ℕ) (js : List ℕ)
    → j < n
    → (is_rejected i js ≡ true → i < n)
    → is_rejected i (j ∷ js) ≡ true
    → i < n
earlier_rejected i j n js l f e = elim (Bool-cases (j == i)) [
  | inl h ↦ ground (arith, l, h)
  | inr h ↦ f (ground (arith, h, e))
]

not_same : (i j : ℕ) (o : Option ℕ) → is_same o (some j) ≡ false → o ≡ some i → (j == i) ≡ false
not_same i j none e f = absurd cc
not_same i j (some k) e f = ground (arith, e, f)

reject-if :
    (b : Bool) (i : ℕ) (p : Past)
    → is_same p.memo.pending (some i) ≡ b
    → i < p.memo.attempts
    → IsSound p
    → IsSound (record p {
      memo = if b then record p.memo { pending = none } else p.memo;
      rejected = i ∷ p.rejected;
    })
reject-if true i p e l s = record {
  pending_served = λ j f. absurd cc;
  all_started = λ j f. earlier_rejected j i p.memo.attempts p.rejected l (s.all_started j) f;
  pending_started = λ j f. absurd cc;
}
reject-if false i p e l s = record {
  pending_served = λ j f.
      let (a, b) = s.pending_served j f in
      (a, other_rejected j i p.rejected (not_same j i p.memo.pending e f) b);
  all_started = λ j f. earlier_rejected j i p.memo.attempts p.rejected l (s.all_started j) f;
  pending_started = s.pending_started;
}

reject_attempt-IsSound :
    (i : ℕ) (p : Past) → i < p.memo.attempts → IsSound p → IsSound (reject_attempt i p)
unfolding reject_attempt
reject_attempt-IsSound i p l s = reject-if (is_same p.memo.pending (some i)) i p refl l s

take-if :
    (b : Bool) (c : Option ℕ) (p : Past)
    → is_same c p.memo.credentials ≡ b
    → IsSound p
    → let n = if b then p.memo else record p.memo { credentials = c; pending = none } in
      IsSound (record p { memo = n }) × ((n.credentials ≡ c) × (n.attempts ≡ p.memo.attempts))
take-if true c p e s = (s, (sym (is_same→eq c p.memo.credentials e), refl))
take-if false c p e s = (
  record {
    pending_served = λ j f. absurd cc;
    all_started = s.all_started;
    pending_started = λ j f. absurd cc;
  },
  (refl, refl),
)

started_now :
    (i j : ℕ) (c d : Option ℕ) (rows : List (ℕ × Option ℕ))
    → some j ≡ some i
    → d ≡ c
    → credentials_of i ((j, c) ∷ rows) ≡ some d
started_now i j c d rows e f = ground (arith, e, f)

rejected_now :
    (i j : ℕ) (js : List ℕ) → some j ≡ some i → is_rejected j js ≡ false → is_rejected i js ≡ false
rejected_now i j js e f = cc

below_next : (i j : ℕ) → some j ≡ some i → i < j + 1
below_next i j e = ground (arith, e)

note_start-IsSound :
    (o c : Option ℕ) (p : Past) (n : Memo)
    → n.pending ≡ o
    → IsSound (record p { memo = n })
    → n.credentials ≡ c
    → n.attempts ≡ p.memo.attempts
    → IsSound (note_start c o p ((pending_or_new o n).1))
note_start-IsSound (some a) c p n e s f g = s
note_start-IsSound none c p n e s f g = record {
  pending_served = λ j h. (
    started_now j p.memo.attempts c n.credentials p.started (sym (ap some g) ∙ h) f,
    rejected_now j n.attempts p.rejected h (fresh_attempt (record p { memo = n }) s),
  );
  all_started = λ j h. omega (arith, s.all_started j h);
  pending_started = λ j h. below_next j n.attempts h;
}

call_client-IsSound : (c : Option ℕ) (p : Past) → IsSound p → IsSound (call_client c p)
unfolding call_client
call_client-IsSound c p s =
    let (t, (f, g)) = take-if (is_same c p.memo.credentials) c p refl s in
    let n = take_credentials c p.memo in note_start-IsSound n.pending c p n refl t f g

IsReachable-IsSound : {p : Past} → IsReachable p → IsSound p
IsReachable-IsSound created = record {
  pending_served = λ i e. absurd cc;
  all_started = λ i e. absurd cc;
  pending_started = λ i e. absurd cc;
}
IsReachable-IsSound (called {p} c r) = call_client-IsSound c p (IsReachable-IsSound r)
IsReachable-IsSound (failed {p} i l r) = reject_attempt-IsSound i p l (IsReachable-IsSound r)

memo-note_start : (c o : Option ℕ) (p : Past) (m : Memo) → (note_start c o p m).memo ≡ m
memo-note_start c none p m = refl
memo-note_start c (some a) p m = refl

pending-pending_or_new :
    (o : Option ℕ) (m : Memo)
    → m.pending ≡ o
    → ((pending_or_new o m).1).pending ≡ some ((pending_or_new o m).0)
pending-pending_or_new none m e = refl
pending-pending_or_new (some a) m e = e

credentials-pending_or_new :
    (o : Option ℕ) (m : Memo) → ((pending_or_new o m).1).credentials ≡ m.credentials
credentials-pending_or_new none m = refl
credentials-pending_or_new (some a) m = refl

credentials-take_credentials : (c : Option ℕ) (m : Memo) → (take_credentials c m).credentials ≡ c
credentials-take_credentials c m = elim (Bool-cases (is_same c m.credentials)) [
  | inl h ↦ ground (arith, h, is_same→eq c m.credentials h)
  | inr h ↦ ground (arith, h)
]

-- Whatever calls and rejections came before, the attempt that a call returns was started with the
-- credentials of the request, and has not been rejected.
pub returned_attempt_is_live :
    (p : Past) (current : Option ℕ)
    → IsReachable p
    → IsServed ((init_client current p.memo).0) current (call_client current p)
unfolding init_client call_client
returned_attempt_is_live p current r =
    let n = take_credentials current p.memo in
    let found = memo-note_start current n.pending p (pending_or_new n.pending n).1 in
    let s = IsReachable-IsSound (called current r) in
    let (a, b) =
      s.pending_served (pending_or_new n.pending n).0
        (ap (λ m. m.pending) found ∙ pending-pending_or_new n.pending n refl) in
    (
      a
          ∙ ap some (
              ap (λ m. m.credentials) found
              ∙ credentials-pending_or_new n.pending n
              ∙ credentials-take_credentials current p.memo),
      b,
    )
