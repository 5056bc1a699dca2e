-- ===== src/Kern/Status.antt =====
-- src/kernel/include/nuttle/status.h: the status codes. A function that returns 0 or a negated
-- code returns a `Status`; one that returns a number or a negated code returns a `Code`.
use asif_os.Prelude.{Bool, true, false}

pub data Status : Type 0 where
  all_ok eio einvarg enomem ebadpath einvidx enofs efsnotus erdonly eopendir enotask : Status
  etaken eend einvformat : Status

-- ISERR of src/kernel/include/nuttle/error.h
abbrev pub is_err : Status → Bool
is_err all_ok = false
is_err _ = true

pub data Code {ℓ} (A : Type ℓ) : Type ℓ where
  ok : A → Code A
  err : Status → Code A
