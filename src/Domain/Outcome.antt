-- ===== src/Domain/Outcome.antt =====
-- Error.h, Warning.h, Observation.h and Result.h.
use lx.Base.{ℕ, nat_eq, ℤ, Bool, true, false, List, Bytes}

pub data ErrorCode : Type 0 where
  invalid_argument not_found permission_denied unsupported unavailable io_error : ErrorCode
  protocol_error parse_error operation_failed timeout conflict interrupted : ErrorCode

pub record Error : Type 0 where
  pub code : ErrorCode
  pub message : Bytes
  pub system_error : ℤ
  pub component : Bytes
  pub operation : Bytes

pub record Warning : Type 0 where
  pub code : ErrorCode
  pub message : Bytes
  pub system_error : ℤ
  pub component : Bytes
  pub operation : Bytes

-- `warningFrom` of the services.
abbrev pub warning_from : Error → Warning
warning_from e = record {
  code = e.code;
  message = e.message;
  system_error = e.system_error;
  component = e.component;
  operation = e.operation;
}

pub record Observation (T : Type 0) : Type 0 where
  pub value : T
  pub warnings : List Warning

-- `void`, as in `Result<void>`.
abbrev pub Void : Type 0
Void = Unit

-- `Result<T>`.
pub data Result {ℓ} (T : Type ℓ) : Type ℓ where
  success : T → Result T
  failure : Error → Result T

abbrev pub has_value {ℓ} : {T : Type ℓ} → Result T → Bool
has_value (success t) = true
has_value (failure e) = false

-- an error with `systemError` 0
abbrev pub make_error : ErrorCode → Bytes → Bytes → Bytes → Error
make_error code message component operation = record {
  code = code;
  message = message;
  system_error = ℤ.pos 0;
  component = component;
  operation = operation;
}

-- the position of a code in the enumeration
abbrev pub code_rank : ErrorCode → ℕ
code_rank invalid_argument = 0
code_rank not_found = 1
code_rank permission_denied = 2
code_rank unsupported = 3
code_rank unavailable = 4
code_rank io_error = 5
code_rank protocol_error = 6
code_rank parse_error = 7
code_rank operation_failed = 8
code_rank timeout = 9
code_rank conflict = 10
code_rank interrupted = 11

abbrev pub code_eq : ErrorCode → ErrorCode → Bool
code_eq a b = nat_eq (code_rank a) (code_rank b)
