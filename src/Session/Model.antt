-- ===== src/Session/Model.antt =====
-- src/session/model.rs: the states of a session and the records that the session hands out.
use vivado_server.Base.{ℕ, Str, Bool, true, false, Option, List}

pub data SessionStatus : Type 0 where
  running stopping exited terminated failed : SessionStatus

unfoldable pub is_terminal : SessionStatus → Bool
is_terminal SessionStatus.exited = true
is_terminal SessionStatus.terminated = true
is_terminal SessionStatus.failed = true
is_terminal SessionStatus.running = false
is_terminal SessionStatus.stopping = false

pub data TerminationReason : Type 0 where
  process_exited client_requested heartbeat_timeout service_shutdown : TerminationReason
  output_read_failed process_wait_failed process_start_failed : TerminationReason
  input_write_failed workflow_closed : TerminationReason

pub record OutputChunk : Type 0 where
  pub seq : ℕ
  pub timestamp : ℕ
  pub text : Str

pub record OutputResponse : Type 0 where
  pub cursor : ℕ
  pub chunks : List OutputChunk
  pub status : SessionStatus
  pub overrun : Bool
  pub output_truncated : Bool

-- The exit code is an `i32`, which is only ever compared with 0; it is kept as its bit pattern.
pub record SessionInfo : Type 0 where
  pub session_id : ℕ
  pub project : Str
  pub status : SessionStatus
  pub started_at : ℕ
  pub ended_at : Option ℕ
  pub exit_code : Option ℕ
  pub termination_reason : Option TerminationReason
  pub output_truncated : Bool
  pub cleanup_error : Option Str
