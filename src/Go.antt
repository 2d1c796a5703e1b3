-- ===== src/Go.antt =====
-- Go values that every part of the program passes: errors, and the outcome of a call that returns
-- `(T, error)` or panics.
use fuse_video_streamer.Base.{ℕ, Option}

-- The texts that the program gives to `fmt.Errorf`, without the values printed into them.
pub data Failure : Type 0 where
  invalid_seek_position failed_to_create_request failed_to_do_request : Failure
  failed_to_get_partial_content error_closing_body : Failure
  stream_is_closed buffer_is_closed timeout_waiting error_closing_buffer : Failure
  factory_is_closed failed_to_get_video_url : Failure
  service_is_closed client_not_found max_tries_to_unmount : Failure

-- An error: a constant that the program compares with, a text of its own that may wrap another
-- error, or an error of a library, of which nothing is known but which one it is.
pub data GoError : Type 0 where
  enoent eagain enosys : GoError
  eof : GoError
  context_canceled : GoError
  failure : Failure → GoError
  wrapped : Failure → GoError → GoError
  external : ℕ → GoError

-- Run-time panics.
pub data Panic : Type 0 where
  nil_dereference bad_type_assertion slice_out_of_range explicit : Panic

-- `(value, nil)`, `(_, error)`, or no return at all.
pub data Outcome {ℓ} (A : Type ℓ) : Type ℓ where
  ok : A → Outcome A
  err : GoError → Outcome A
  panics : Panic → Outcome A

-- An `error` result whose value is the only result.
abbrev pub Error : Type 0
Error = Option GoError

-- `result, err := call(); if err != nil { return …, err }`
abbrev pub and_then {ℓ κ} : {A : Type ℓ} {B : Type κ} → Outcome A → (A → Outcome B) → Outcome B
and_then (ok a) f = f a
and_then (err e) f = err e
and_then (panics p) f = panics p

-- A call that may wait for other goroutines, under a schedule: it returned, it has not returned
-- yet, or it panicked.
pub data Ended {ℓ} (A : Type ℓ) : Type ℓ where
  returns : A → Ended A
  waits : Ended A
  crashes : Panic → Ended A

-- A call, and what follows its return.
abbrev pub when_returns {ℓ κ} : {A : Type ℓ} {B : Type κ} → Ended A → (A → Ended B) → Ended B
when_returns (returns a) f = f a
when_returns waits f = waits
when_returns (crashes p) f = crashes p
