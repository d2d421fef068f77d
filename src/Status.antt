-- ===== src/Status.antt =====
-- The NTSTATUS values that the driver returns or passes on (driver/src/*.c).
use ghostcom.Base.{ℕ, Bool, true, false}

-- `failure code` is any other failing status, as the framework reports it.
pub data Status : Type 0 where
  success invalid_parameter insufficient_resources device_not_connected : Status
  sharing_violation object_name_collision not_found buffer_too_small : Status
  invalid_device_request : Status
  failure : ℕ → Status

-- NT_SUCCESS
abbrev pub nt_success : Status → Bool
nt_success success = true
nt_success _ = false
