-- ===== src/Error/Messages.antt =====
-- src/error.rs: the text of an error, and how much of it a client sees.
use vivado_server.Base.{
  ℕ, zero, suc, ◌-◌, ◌≤◌, ◌≡◌, refl, Str, codes, leb, if◌then◌else◌, length, length-append, Bool,
  true, false, [], ◌∷◌, ◌++◌, ◌⊎◌, inl, inr, Bool-cases, arith,
}
use vivado_server.Error.{
  Message, text, about, counted, AppError, unauthorized, invalid_project, session_not_found,
  not_found, capacity, session_not_running, conflict, project_reupload_required, workflow_busy,
  workflow_phase, shutting_down, precondition_failed, bad_request, request_timeout,
  payload_too_large, internal, status, is_server_error,
}

-- `chars().take(n)`
abbrev pub take : ℕ → Str → Str
take zero s = []
take (suc n) [] = []
take (suc n) (c ∷ s) = c ∷ take n s

pub take-length-le : (n : ℕ) (s : Str) → length (take n s) ≤ n
take-length-le zero s = omega arith
take-length-le (suc n) [] = omega arith
take-length-le (suc n) (c ∷ s) = omega (arith, take-length-le n s)

abbrev max_client_message_chars : ℕ
max_client_message_chars = 1_024

truncate_to : ℕ → Str → Str
truncate_to max value = if leb (length value) max then value else take (max - 1) value ++ codes "…"

truncate_to-length : (max : ℕ) (value : Str) → 1 ≤ max → length (truncate_to max value) ≤ max
unfolding truncate_to
truncate_to-length max value h =
    ground (arith, take-length-le (max - 1) value, length-append (take (max - 1) value) (codes "…"))

truncate_message : Str → Str
unfolding truncate_to
truncate_message value = truncate_to max_client_message_chars value

truncate_message-length : (value : Str) → length (truncate_message value) ≤ 1_024
truncate_message-length value =
    unfold truncate_message in truncate_to-length max_client_message_chars value (omega arith)

module _ (decimal : ℕ → Str) where
  -- `format!`, with the argument at the end of the text; `decimal` prints a number.
  render : Message → Str
  render (text m) = codes m
  render (about m s) = codes m ++ s
  render (counted m n) = codes m ++ decimal n

  -- `to_string`, which the `#[error]` attributes define.
  pub to_string : AppError → Str
  unfolding render
  to_string unauthorized = codes "authentication is required"
  to_string invalid_project = codes "invalid project name"
  to_string session_not_found = codes "session not found"
  to_string (not_found m) = codes "not found: " ++ render m
  to_string (capacity m) = codes "capacity reached: " ++ render m
  to_string session_not_running = codes "session is not running"
  to_string (conflict m) = codes "conflict: " ++ render m
  to_string (project_reupload_required m) = codes "project requires a complete upload: " ++ render m
  to_string workflow_busy = codes "another workflow is active"
  to_string (workflow_phase m) = codes "invalid workflow phase: " ++ render m
  to_string shutting_down = codes "service is shutting down"
  to_string (precondition_failed m) = codes "precondition failed: " ++ render m
  to_string (bad_request m) = codes "bad request: " ++ render m
  to_string request_timeout = codes "request body timed out"
  to_string payload_too_large = codes "request body is too large"
  to_string (internal m) = codes "internal error: " ++ render m

  is_internal : AppError → Bool
  is_internal (internal m) = true
  is_internal other = false

  pub client_message : AppError → Str
  unfolding truncate_message is_internal
  client_message e =
      if is_internal e then codes "internal server error" else truncate_message (to_string e)

  -- A client never receives more than 1024 characters, whatever the diagnostic, and nothing of
  -- the diagnostic of an internal error: two of them read alike.
  pub client_message_bounds :
      (e : AppError)
      → (length (client_message e) ≤ 1_024)
        × ((m n : Message) → client_message (internal m) ≡ client_message (internal n))
  unfolding client_message
  client_message_bounds e = (
    elim (Bool-cases (is_internal e)) [
      | inl hidden ↦ rw hidden (omega arith)
      | inr shown ↦ rw shown (truncate_message-length (to_string e))
    ],
    λ m n. refl,
  )

-- The errors that count as failures of the server are the internal ones and a shutdown.
pub is_server_error-status :
    (e : AppError)
    → is_server_error (status e) ≡ true
    → (e ≡ shutting_down) ⊎ ((m : Message) × (e ≡ internal m))
unfolding status is_server_error
is_server_error-status unauthorized h = cc
is_server_error-status invalid_project h = cc
is_server_error-status session_not_found h = cc
is_server_error-status (not_found m) h = cc
is_server_error-status (capacity m) h = cc
is_server_error-status session_not_running h = cc
is_server_error-status (conflict m) h = cc
is_server_error-status (project_reupload_required m) h = cc
is_server_error-status workflow_busy h = cc
is_server_error-status (workflow_phase m) h = cc
is_server_error-status (precondition_failed m) h = cc
is_server_error-status (bad_request m) h = cc
is_server_error-status request_timeout h = cc
is_server_error-status payload_too_large h = cc
is_server_error-status shutting_down h = inl refl
is_server_error-status (internal m) h = inr (m, refl)
