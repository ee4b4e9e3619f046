-- ===== src/Error.antt =====
-- src/error.rs: the errors of the service, their HTTP status, code and public message.
pub mod Messages
mod Examples
use vivado_server.Base.{
  ℕ, ◌≡◌, refl, ◌⊎◌, inl, inr, Str, String, codes, leb, ltb, if◌then◌else◌, length, Bool, true,
  false, ◌&&◌, List, [], ◌∷◌, ◌++◌,
}

-- A diagnostic: a fixed text, or a format string with the text or the number that it is given.
pub data Message : Type 0 where
  text : String → Message
  about : String → Str → Message
  counted : String → ℕ → Message

pub data AppError : Type 0 where
  unauthorized invalid_project session_not_found : AppError
  not_found capacity : Message → AppError
  session_not_running : AppError
  conflict project_reupload_required : Message → AppError
  workflow_busy : AppError
  workflow_phase : Message → AppError
  shutting_down : AppError
  precondition_failed bad_request : Message → AppError
  request_timeout payload_too_large : AppError
  internal : Message → AppError

-- `Result<T, AppError>`
pub data Result {ℓ} (A : Type ℓ) : Type ℓ where
  err : AppError → Result A
  ok : A → Result A

-- An early return on a failed test.
abbrev pub guard : Bool → AppError → Result (Unit {0})
guard passed failure = if passed then ok tt else err failure

infixl 5 ◌>>=◌ ◌>>◌
-- The operator `?`.
abbrev pub ◌>>=◌ {ℓ κ} : {A : Type ℓ} {B : Type κ} → Result A → (A → Result B) → Result B
err failure >>= next = err failure
ok value >>= next = next value

abbrev pub ◌>>◌ {κ} : {B : Type κ} → Result (Unit {0}) → Result B → Result B
first >> second = first >>= λ unit. second

unfoldable pub status : AppError → ℕ
status unauthorized = 401
status invalid_project = 400
status (bad_request m) = 400
status request_timeout = 408
status payload_too_large = 413
status session_not_found = 404
status (not_found m) = 404
status (capacity m) = 429
status session_not_running = 409
status (conflict m) = 409
status (project_reupload_required m) = 409
status workflow_busy = 409
status (workflow_phase m) = 409
status (precondition_failed m) = 412
status (internal m) = 500
status shutting_down = 503

-- `StatusCode::is_server_error`
unfoldable pub is_server_error : ℕ → Bool
is_server_error status = leb 500 status && ltb status 600

unfoldable pub code : AppError → String
code unauthorized = "unauthorized"
code invalid_project = "invalid_project"
code session_not_found = "session_not_found"
code (not_found m) = "not_found"
code (capacity m) = "capacity_reached"
code session_not_running = "session_not_running"
code (conflict m) = "sync_conflict"
code (project_reupload_required m) = "project_reupload_required"
code workflow_busy = "workflow_busy"
code (workflow_phase m) = "workflow_phase_conflict"
code shutting_down = "service_shutting_down"
code (precondition_failed m) = "precondition_failed"
code (bad_request m) = "invalid_request"
code request_timeout = "request_timeout"
code payload_too_large = "payload_too_large"
code (internal m) = "internal_error"

-- To split on a result and keep the equation.
pub Result-cases {ℓ} :
    {A : Type ℓ} (r : Result A) → ((e : AppError) × (r ≡ err e)) ⊎ ((a : A) × (r ≡ ok a))
Result-cases (ok a) = inr (a, refl)
Result-cases (err e) = inl (e, refl)
