-- ===== src/Api/Access/Redaction.antt =====
-- api/errors.rs, `error_response`: what an answer tells of an error.
use simple_network_monitor.Prelude.{
  ◌≡◌, ◌≢◌, ◌∙◌, sym, ◌↔◌, ◌⊎◌, ◌≤◌, inl, inr, refl, arith, String, Bool, true, false, not,
}
use simple_network_monitor.Storage.Errors.{
  StorageError, invalid_query, busy, stale_generation, not_found, invalid_data, internal,
}
use simple_network_monitor.Api.Access.{
  ApiError, ErrorAnswer, unauthorized, bad_request, missing, internal_error, storage,
  error_response,
}

-- The errors of the storage that a request brings about.
abbrev pub is_requested : StorageError → Bool
is_requested (invalid_query v) = true
is_requested (not_found v) = true
is_requested busy = false
is_requested stale_generation = false
is_requested (invalid_data v) = false
is_requested (internal v) = false

-- The errors that are the service's own, and no fault of the request.
abbrev pub is_fault : ApiError → Bool
is_fault unauthorized = false
is_fault (bad_request v) = false
is_fault (missing v) = false
is_fault (internal_error v) = true
is_fault (storage e) = not (is_requested e)

abbrev busy_answer : ErrorAnswer
busy_answer = record { code = 503; error = "service busy; retry shortly" }

abbrev fault_answer : ErrorAnswer
fault_answer = record { code = 500; error = "internal server error" }

fault-answered :
    (show : StorageError → String) (e : ApiError)
    → is_fault e ≡ true
    → ((e ≡ storage busy) × (error_response show e ≡ busy_answer))
      ⊎ ((e ≢ storage busy) × (error_response show e ≡ fault_answer))
unfolding error_response
fault-answered show unauthorized h = cc
fault-answered show (bad_request v) h = cc
fault-answered show (missing v) h = cc
fault-answered show (internal_error v) h = inr (λ e. cc, refl)
fault-answered show (storage (invalid_query v)) h = cc
fault-answered show (storage busy) h = inl (refl, refl)
fault-answered show (storage stale_generation) h = inr (λ e. cc, refl)
fault-answered show (storage (not_found v)) h = cc
fault-answered show (storage (invalid_data v)) h = inr (λ e. cc, refl)
fault-answered show (storage (internal v)) h = inr (λ e. cc, refl)

-- Two faults of the service, neither or both of which are a busy storage, are answered alike,
-- whatever data the errors hold and whatever texts are printed for them, and as an error of the
-- server: an answer tells nothing of a fault but whether the storage was busy.
pub error_response-IsRedacted :
    (show show' : StorageError → String) (e e' : ApiError)
    → is_fault e ≡ true
    → is_fault e' ≡ true
    → (e ≡ storage busy) ↔ (e' ≡ storage busy)
    → (error_response show e ≡ error_response show' e') × (500 ≤ (error_response show e).code)
error_response-IsRedacted show show' e e' own own' alike = elim (fault-answered show e own) [
  | inl (is, a) ↦ elim (fault-answered show' e' own') [
    | inl (is', b) ↦ (a ∙ sym b, rw a (omega arith))
    | inr (isnt, b) ↦ absurd (isnt (alike.0 is))
  ]
  | inr (isnt, a) ↦ elim (fault-answered show' e' own') [
    | inl (is', b) ↦ absurd (isnt (alike.1 is'))
    | inr (isnt', b) ↦ (a ∙ sym b, rw a (omega arith))
  ]
]
