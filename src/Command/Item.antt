-- ===== src/Command/Item.antt =====
-- The data of internal/pipeline/command/queue.go and the commands and acknowledgements of
-- internal/plugin/extensions.go.
use openspace_os_core.Base.{ℕ, ℤ, String, Bool, true, false, Option, str_eq}
use openspace_os_core.Event.{Payload}

pub record Command : Type 0 where
  pub command_id : String
  pub satellite_id : String
  pub command_type : String
  pub parameters : Payload

pub record Ack : Type 0 where
  pub success : Bool
  pub message : String

-- The status strings. `unset` is "", and `other` a string that is none of the constants.
pub data Status : Type 0 where
  unset queued sending acked failed cancelled timeout : Status
  other : String → Status

abbrev pub is_unset : Status → Bool
is_unset unset = true
is_unset _ = false

abbrev pub is_queued : Status → Bool
is_queued queued = true
is_queued _ = false

-- A status that the scheduler leaves alone.
abbrev pub is_final : Status → Bool
is_final acked = true
is_final failed = true
is_final cancelled = true
is_final _ = false

-- `==` on the strings.
unfoldable pub status_eq : Status → Status → Bool
status_eq unset unset = true
status_eq queued queued = true
status_eq sending sending = true
status_eq acked acked = true
status_eq failed failed = true
status_eq cancelled cancelled = true
status_eq timeout timeout = true
status_eq (other s) (other t) = str_eq s t
status_eq _ _ = false

pub record CommandItem : Type 0 where
  pub command : Command
  pub priority : ℤ
  pub status : Status
  pub ack : Option Ack
  pub enqueued_at : ℕ
  pub sent_at : Option ℕ
  pub acked_at : Option ℕ
  pub retry_count : ℕ
  pub error : String
