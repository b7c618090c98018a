-- ===== src/Errc.antt =====
-- The error codes that the code makes or passes on, and the completion of an operation.
-- A completion handler gets an `error_code` and a value: `ok` is the empty error code with the
-- value, `fail` an error code with the default value. `abort` is a failed `assert`.
use tntpp.Common.{ℕ, Option, none, some}
use tntpp.Iproto.Errors.Code.{TarantoolError}

-- The conditions of `boost::system::errc` that the code uses, an error of the network layer by its
-- number, and an error of the category `tarantool_error`.
pub data ErrorCode : Type 0 where
  not_connected bad_message illegal_byte_sequence state_not_recoverable : ErrorCode
  message_size protocol_error operation_canceled broken_pipe invalid_argument : ErrorCode
  network : ℕ → ErrorCode
  tarantool : TarantoolError → ErrorCode

pub data Result {ℓ} (A : Type ℓ) : Type ℓ where
  ok : A → Result A
  fail : ErrorCode → Result A
  abort : Result A

-- A value computed under assertions.
abbrev pub checked {ℓ} : {A : Type ℓ} → Option A → Result A
checked none = abort
checked (some a) = ok a
