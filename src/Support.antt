-- ===== src/Support.antt =====
-- src/seccompy/__init__.py: the probes of what the kernel supports.
pub mod Answers
mod Tests
use seccompy.Base.{ℕ, Bool, true, false, ◌==◌, if◌then◌else◌}
use seccompy.Base.Int.{ℤ, pos}
use seccompy.Errors.{Error, seccomp_error, unsupported_error}
use seccompy.Kernel.{Host, Io, pure, raise, ◌>>=◌, catch}
use seccompy.Kernel.Calls.{action_avail, probe_flag, einval}
use seccompy.Filter.Action

-- `except UnsupportedError: return False`
unfoldable pub false_if_unsupported : Error → Io Bool
false_if_unsupported (unsupported_error e) = pure false
false_if_unsupported e = raise e

-- What `action_supported` makes of an exception.
unfoldable pub not_action : Error → Io Bool
not_action (unsupported_error e) = pure false
not_action (seccomp_error e) = if e == einval then pure false else raise (seccomp_error e)
not_action e = raise e

module _ (host : Host) (fuel : ℕ) where
  -- What `supported` makes of an exception: without the probed operation there may still be
  -- filters.
  unfoldable pub second_probe : Error → Io Bool
  unfolding probe_flag false_if_unsupported
  second_probe (unsupported_error e) = catch (probe_flag host fuel (pos 0)) false_if_unsupported
  second_probe (seccomp_error e) = if e == einval then pure true else raise (seccomp_error e)
  second_probe e = raise e

  -- `supported`
  unfoldable pub supported : Io Bool
  unfolding action_avail second_probe
  supported = catch (action_avail host fuel (pos Action.allow) >>= λ ret. pure true) second_probe

  -- `action_supported`
  unfoldable pub action_supported : ℤ → Io Bool
  unfolding action_avail not_action
  action_supported action = catch (action_avail host fuel action >>= λ ret. pure true) not_action

  -- `flag_supported`
  unfoldable pub flag_supported : ℤ → Io Bool
  unfolding probe_flag false_if_unsupported
  flag_supported flag = catch (probe_flag host fuel flag) false_if_unsupported
