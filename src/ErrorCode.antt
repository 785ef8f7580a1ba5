-- ===== src/ErrorCode.antt =====
-- include/common/error_code.h: the error codes, their texts, and the test for failure.
use Prim.Native.String.{String}
use smart_routine.Prelude.{◌≡◌, ◌↔◌, ◌≢◌, Bool, true, false, arith}

pub data CodeVal : Type 0 where
  success invalid_argument insufficient_resources out_of_memory : CodeVal
  permission_denied address_in_use connection_aborted exceed_buffer_bound : CodeVal

-- `ErrorCode` wraps one `CodeVal`.
abbrev pub ErrorCode : Type 0
ErrorCode = CodeVal

-- `fail`, and the conversion to `bool`.
unfoldable pub fail : ErrorCode → Bool
fail success = false
fail _ = true

-- `CodeValStr[val_]`
unfoldable pub to_string : ErrorCode → String
to_string success = "Success"
to_string invalid_argument = "Invalid Argument"
to_string insufficient_resources = "Insufficient Resources"
to_string out_of_memory = "Out Of Memory"
to_string permission_denied = "Permission Denied"
to_string address_in_use = "Address In Use"
to_string connection_aborted = "Connection Aborted"
to_string exceed_buffer_bound = "Exceed Buffer Bound"

pub fail_iff : (e : ErrorCode) → (fail e ≡ true) ↔ (e ≢ success)
unfolding fail
fail_iff e = ground arith
