-- ===== src/Error/Examples.antt =====
-- src/error.rs: the theorems on single errors.
use vivado_server.Base.{ℕ, ◌≡◌, ◌≤◌, Str, length, []}
use vivado_server.Error.{Message, text, internal, not_found}
use vivado_server.Error.Messages.{client_message, client_message_bounds}

abbrev no_digits : ℕ → Str
no_digits n = []

client_message_bounds_example :
    (length (client_message no_digits (not_found (text "no such project"))) ≤ 1_024)
    × ((m n : Message)
        → client_message no_digits (internal m) ≡ client_message no_digits (internal n))
client_message_bounds_example = client_message_bounds no_digits (not_found (text "no such project"))
