-- ===== src/Util/Client/Past.antt =====
-- packages/util/index.js: createClientInit over any calls and rejections, with what is to hold.
use middy.Prelude.{
  ℕ, ◌==◌, ◌≡◌, ◌<◌, Bool, true, false, ◌||◌, Option, none, some, List, [], ◌∷◌, if◌then◌else◌,
}
use middy.Util.Client.{Memo, first_memo, take_credentials, init_client, forget_attempt}

-- The closure with its past: the credentials of each attempt, and the attempts that were rejected.
pub record Past : Type 0 where
  pub memo : Memo
  pub started : List (ℕ × Option ℕ)
  pub rejected : List ℕ

abbrev pub credentials_of : ℕ → List (ℕ × Option ℕ) → Option (Option ℕ)
credentials_of i [] = none
credentials_of i ((j, c) ∷ rows) = if j == i then some c else credentials_of i rows

abbrev pub is_rejected : ℕ → List ℕ → Bool
is_rejected i [] = false
is_rejected i (j ∷ js) = j == i || is_rejected i js

-- The past after a call for a request: `createClient` reads the same credentials as the call.
abbrev pub note_start : Option ℕ → Option ℕ → Past → Memo → Past
note_start current (some attempt) p m = record p { memo = m }
note_start current none p m = record p {
  memo = m;
  started = (p.memo.attempts, current) ∷ p.started;
}

unfoldable pub call_client : Option ℕ → Past → Past
unfolding init_client
call_client current p =
    let (i, m) = init_client current p.memo in
    note_start current ((take_credentials current p.memo).pending) p m

unfoldable pub reject_attempt : ℕ → Past → Past
unfolding forget_attempt
reject_attempt i p = record p { memo = forget_attempt i p.memo; rejected = i ∷ p.rejected }

-- The pasts that calls, and rejections of attempts that were started, lead to.
pub data IsReachable : Past → Type 0 where
  created : IsReachable (record { memo = first_memo; started = []; rejected = [] })
  called : {p : Past} (current : Option ℕ) → IsReachable p → IsReachable (call_client current p)
  failed :
      {p : Past} (i : ℕ) → i < p.memo.attempts → IsReachable p → IsReachable (reject_attempt i p)

-- What holds of an attempt that would be returned for the credentials.
abbrev pub IsServed : ℕ → Option ℕ → Past → Type 0
IsServed i current p =
    (credentials_of i p.started ≡ some current) × (is_rejected i p.rejected ≡ false)

pub record IsSound (p : Past) : Type 0 where
  pub pending_served : (i : ℕ) → p.memo.pending ≡ some i → IsServed i p.memo.credentials p
  pub all_started : (i : ℕ) → is_rejected i p.rejected ≡ true → i < p.memo.attempts
  pub pending_started : (i : ℕ) → p.memo.pending ≡ some i → i < p.memo.attempts
