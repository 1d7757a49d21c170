-- ===== src/Testing.antt =====
-- src/seccompy/testing.py: `probe`, the run of a function in a child under a filter.
pub mod Exit
mod Tests
use seccompy.Base.{
  ℕ, ◌/◌, ◌%◌, Bool, true, false, not, ◌&&◌, Option, none, some, ltb, leb, ◌==◌, if◌then◌else◌,
}
use seccompy.Base.Int.{ℤ, pos, same_int}
use seccompy.Errors.{
  Error, Result, ok, err, seccomp_error, unsupported_error, os_error, runtime_error,
}
use seccompy.Kernel.{Host, Io, pure, raise, lift, ◌>>=◌, ◌>>◌, attempt, os_call, fork, waitpid}
use seccompy.Kernel.Structs.{number_of}
use seccompy.Filter.Object.{Filter}
use seccompy.Filter.Load.{load}

pub record ProbeResult : Type 0 where
  pub is_ok : Bool
  pub errno : ℕ
  pub signal : ℕ

-- How a run of `probe` ends that raises no exception: with its result, or, in the child, with
-- `os._exit`.
pub data Ending : Type 0 where
  returns : ProbeResult → Ending
  exits : ℕ → Ending

-- The `errno` of an exception that is an `OSError`.
abbrev pub errno_of : Error → Option (Option ℕ)
errno_of (seccomp_error e) = some (some e)
errno_of (unsupported_error e) = some e
errno_of (os_error e) = some e
errno_of e = none

-- `code if 0 < code <= 255 else 255`
abbrev pub clamp : ℕ → ℕ
clamp code = if ltb 0 code && leb code 255 then code else 255

-- What the child hands to `os._exit` for an exception with this `errno`.
abbrev pub code_of : Option (Option ℕ) → ℕ
code_of none = 255
code_of (some none) = clamp 1
code_of (some (some code)) = clamp code

-- What it hands to `os._exit`, by how `load` and the function end.
unfoldable pub exit_code : Result (Unit {0}) → ℕ
exit_code (ok _) = 0
exit_code (err e) = code_of (errno_of e)

-- `os.WIFSIGNALED`, `os.WTERMSIG` and `os.WEXITSTATUS` of a status of waitpid(2).
abbrev pub signaled : ℕ → Bool
signaled status = not (status % 128 == 0) && not (status % 128 == 127)

abbrev pub term_signal : ℕ → ℕ
term_signal status = status % 128

abbrev pub exit_status : ℕ → ℕ
exit_status status = status / 256 % 256

-- What `probe` makes of the status.
unfoldable pub result_of : ℕ → ProbeResult
result_of status =
    if signaled status
    then record { is_ok = false; errno = 0; signal = term_signal status }
    else if exit_status status == 0
    then record { is_ok = true; errno = 0; signal = 0 }
    else record { is_ok = false; errno = exit_status status; signal = 0 }

module _ (host : Host) where
  -- `filt.load()` and then `fn()`
  unfoldable pub restricted : ℕ → Filter → Io (Unit {0}) → Io (Unit {0})
  unfolding load
  restricted fuel f fn = load host fuel f >>= λ (g, r). lift r >>= λ l. fn

  -- The child's side: what it hands to `os._exit`, unless a signal kills it before.
  unfoldable pub child : ℕ → Filter → Io (Unit {0}) → Io ℕ
  unfolding restricted exit_code
  child fuel f fn = attempt (restricted fuel f fn) >>= λ r. pure (exit_code r)

  -- Behind fork(2): the child where it returned 0, and otherwise the parent; the status is a C
  -- `int`.
  unfoldable pub dispatch : ℕ → Filter → Io (Unit {0}) → ℤ → Io Ending
  unfolding os_call child result_of number_of
  dispatch fuel f fn pid =
      if same_int pid (pos 0)
      then (child fuel f fn >>= λ code. pure (exits code))
      else (os_call host (waitpid pid 0) >>= λ a. pure (returns (result_of (number_of 4 a.out))))

  -- `probe`
  unfoldable pub probe : ℕ → Filter → Io (Unit {0}) → Io Ending
  unfolding os_call dispatch
  probe fuel f fn =
      if f.loaded
      then raise runtime_error
      else (os_call host fork >>= λ a. dispatch fuel f fn a.ret)
