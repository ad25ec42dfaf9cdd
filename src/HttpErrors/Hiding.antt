-- ===== src/HttpErrors/Hiding.antt =====
-- packages/http-error-handler/index.js: which errors a client sees.
use middy.Prelude.{
  ℕ, ◌≡◌, ◌≢◌, refl, ap, ◌∙◌, ◌⊎◌, inl, inr, ◌==◌, ltb, Bool, true, false, ◌||◌, not, Option, none,
  some, or_default, [], ◌∷◌, arith, Bool-cases, if◌then◌else◌,
}
use middy.Texts.{Text}
use middy.Util.Omit.{Value}
use middy.Headers.Fields.{truthy, HttpEvent, is_alb_multi_value, Shape}
use middy.HttpErrors.Codes.{HttpError, reason_phrase, http_error}
use middy.HttpErrors.Handler.{
  ErrorObject, Thrown, object, other, Handled, exposed, fallback_error, HandlerOptions, Answer,
  has_code, code_of, message_of, set_message, default_expose, set_expose, replace_error,
  error_response, log_request, error_handler,
}

-- A status code, and an `expose` that is true, or not set for a code below 500.
abbrev pub Exposes : Option ℕ → Option Bool → Type 0
Exposes code expose =
    (c : ℕ) × ((code ≡ some c)
      × ((c ≢ 0) × ((expose ≡ some true) ⊎ ((expose ≡ none) × (ltb c 500 ≡ true)))))

abbrev pub IsExposable : Thrown → Type 0
IsExposable other = true ≡ false
IsExposable (object o) = Exposes o.status_code o.expose

abbrev is_hidden : Option ℕ → Option Bool → Bool
is_hidden code expose = not (or_default (default_expose code expose) false) || not (has_code code)

is_hidden-none : (x : Option Bool) → is_hidden none x ≡ true
is_hidden-none x = ground arith

is_hidden-some : (c : ℕ) (x : Option Bool) → ¬ Exposes (some c) x → is_hidden (some c) x ≡ true
is_hidden-some c none h = elim (Bool-cases (c == 0)) [
  | inl z ↦ ground (arith, z)
  | inr z ↦ elim (Bool-cases (ltb c 500)) [
    | inl l ↦ absurd (h (c, (refl, ((λ e. ground (arith, z, e)), inr (refl, l)))))
    | inr l ↦ ground (arith, z, l)
  ]
]
is_hidden-some c (some false) h = ground arith
is_hidden-some c (some true) h = elim (Bool-cases (c == 0)) [
  | inl z ↦ ground (arith, z)
  | inr z ↦ absurd (h (c, (refl, ((λ e. ground (arith, z, e)), inl refl))))
]

is_hidden_lem : (code : Option ℕ) (x : Option Bool) → ¬ Exposes code x → is_hidden code x ≡ true
is_hidden_lem none x h = is_hidden-none x
is_hidden_lem (some c) x h = is_hidden-some c x h

error_handler-answer :
    (lower : Text → Text) (o : HandlerOptions) (e : HttpEvent) (request : Value) (t : Thrown)
    (l : Option Value) (h : Handled)
    → log_request lower o request ≡ some l
    → replace_error o.fallback_message (set_expose t) ≡ h
    → error_handler lower o e request t none
      ≡ some (some (record { logged = l; error = h; response = error_response e h }))
unfolding error_handler
error_handler-answer lower o e request t l h a b = ground (arith, a, b)

replace_error-hidden :
    (m : Option Text) (t : Thrown)
    → ¬ IsExposable t
    → replace_error m (set_expose t) ≡ fallback_error m (set_expose t)
unfolding replace_error
replace_error-hidden m other h = refl
replace_error-hidden m (object o) h = ground (arith, is_hidden_lem o.status_code o.expose h)

-- An error that is not exposable - it is no object, has no status code, says that it is not to be
-- exposed, or has a code from 500 on and does not say that it is - leaves no trace in the response:
-- that is the one of the fallback error, whatever the error was. The error itself stays the cause of
-- the fallback error. The logger's value is computed without an error, and there is no response yet.
pub error_handler-hides :
    (lower : Text → Text) (o : HandlerOptions) (e : HttpEvent) (request : Value) (t : Thrown)
    (l : Option Value)
    → ¬ IsExposable t
    → log_request lower o request ≡ some l
    → error_handler lower o e request t none
      ≡ some (
          some (record {
            logged = l;
            error = fallback_error o.fallback_message (set_expose t);
            response = error_response e (fallback_error o.fallback_message other);
          }))
unfolding error_response
error_handler-hides lower o e request t l h a =
    error_handler-answer lower o e request t l (fallback_error o.fallback_message (set_expose t)) a
      (replace_error-hidden o.fallback_message t h)

-- An HttpError as the hook reads it.
abbrev pub known_object : ℕ → Bool → Option Text → ErrorObject
known_object code x phrase = record {
  status_code = some code;
  expose = some x;
  message = phrase;
  headers = none;
}

abbrev pub known : ℕ → Bool → Option Text → Thrown
known code x phrase = object (known_object code x phrase)

abbrev pub error_object : HttpError → Thrown
error_object h = known h.status_code h.expose h.message

abbrev pub response_of : Option (Option Answer) → Option (Option ℕ × Option Text)
response_of none = none
response_of (some none) = none
response_of (some (some a)) = some (a.response.status_code, a.response.body)

body-set_message :
    (m : Option Text) (s : Shape Text) → s.body ≡ none → (set_message (truthy m) s).body ≡ truthy m
body-set_message none s e = e
body-set_message (some []) s e = e
body-set_message (some (c ∷ cs)) s e = refl

status_code-set_message :
    (m : Option Text) (s : Shape Text) → (set_message m s).status_code ≡ s.status_code
status_code-set_message none s = refl
status_code-set_message (some t) s = refl

-- The response before a message is set.
abbrev blank : Handled → Shape Text
blank h = record {
  status_code = code_of h;
  body = none;
  headers = some [];
  multi_value_headers = none;
}

status_code-error_response :
    (e : HttpEvent) (h : Handled) → (error_response e h).status_code ≡ code_of h
unfolding error_response
status_code-error_response e h = elim (Bool-cases (is_alb_multi_value e)) [
  | inl a ↦ ground (arith, a, status_code-set_message (truthy (message_of h)) (blank h))
  | inr a ↦ ground (arith, a, status_code-set_message (truthy (message_of h)) (blank h))
]

body-error_response :
    (e : HttpEvent) (h : Handled) → (error_response e h).body ≡ truthy (message_of h)
unfolding error_response
body-error_response e h = elim (Bool-cases (is_alb_multi_value e)) [
  | inl a ↦ ground (arith, a, body-set_message (message_of h) (blank h) refl)
  | inr a ↦ ground (arith, a, body-set_message (message_of h) (blank h) refl)
]

replace_error-known :
    (m phrase : Option Text) (code : ℕ) (x : Bool)
    → (code == 0) ≡ false
    → replace_error m (known code x phrase)
      ≡ (if x then exposed (known_object code x phrase) else fallback_error m (known code x phrase))
unfolding replace_error
replace_error-known m phrase code true z = ground (arith, z)
replace_error-known m phrase code false z = ground (arith, z)

response_of-known :
    (e : HttpEvent) (m phrase : Option Text) (code : ℕ) (x : Bool) (l : Option Value) (t : Thrown)
    (h : Handled)
    → h ≡ (if x then exposed (known_object code x phrase) else fallback_error m t)
    → response_of (some (some (record { logged = l; error = h; response = error_response e h })))
      ≡ some (if x then (some code, truthy phrase) else (some 500, truthy m))
response_of-known e m phrase code true l t h p =
    ground (arith, p, status_code-error_response e h, body-error_response e h)
response_of-known e m phrase code false l t h p =
    ground (arith, p, status_code-error_response e h, body-error_response e h)

-- An HttpError whose code is not 0 is answered with its code and, as the body, its reason phrase, where
-- `expose` is given as true, or is not given and the code is below 500; otherwise it is answered with
-- 500 and the fallback message. A message that is empty or missing gives no body.
pub http_error-answered :
    (lower : Text → Text) (o : HandlerOptions) (e : HttpEvent) (request : Value) (code : ℕ)
    (expose : Option Bool) (l : Option Value)
    → (code == 0) ≡ false
    → log_request lower o request ≡ some l
    → response_of (error_handler lower o e request (error_object (http_error code expose)) none)
      ≡ some (
          if or_default expose (ltb code 500)
          then (some code, truthy (reason_phrase code))
          else (some 500, truthy o.fallback_message))
unfolding http_error error_response replace_error
http_error-answered lower o e request code expose l z a =
    let x = or_default expose (ltb code 500) in
    let t = known code x (reason_phrase code) in
    ap response_of
      (error_handler-answer lower o e request t l (replace_error o.fallback_message t) a refl)
    ∙ response_of-known e o.fallback_message (reason_phrase code) code x l t
        (replace_error o.fallback_message t)
        (replace_error-known o.fallback_message (reason_phrase code) code x z)
