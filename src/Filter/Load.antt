-- ===== src/Filter/Load.antt =====
-- src/seccompy/filter.py: `Filter.load` and the refusal to copy a filter.
use seccompy.Base.{ℕ, true, Option, none, some, List, ◌==◌, if◌then◌else◌, bit_and}
use seccompy.Base.Int.{ℤ}
use seccompy.Errors.{Result, ok, err, runtime_error, type_error}
use seccompy.Kernel.{Host, Io, pure, ◌>>=◌, attempt}
use seccompy.Kernel.Calls.{set_no_new_privs, set_mode_filter}
use seccompy.Notify.Listener.{Listener, new_listener}
use seccompy.Filter.Object.{Filter, program}

-- `FilterFlag.NEW_LISTENER`
abbrev pub new_listener_flag : ℕ
new_listener_flag = 8

-- `__copy__` and `__deepcopy__`
unfoldable pub copy : Filter → Result Filter
copy f = err type_error

abbrev pub some_listener : Result Listener → Result (Option Listener)
some_listener (ok l) = ok (some l)
some_listener (err e) = err e

-- What `load` leaves: the filter afterwards, whether it raises or not, and the result.
abbrev pub Loading : Type 0
Loading = Io (Filter × Result (Option Listener))

module _ (host : Host) (fuel : ℕ) where
  -- The end of `load`, with what the installing call returned.
  unfoldable pub attach : Filter → ℤ → Loading
  unfolding new_listener
  attach f ret =
      let g = record f { loaded = true } in
      if bit_and f.flags new_listener_flag == 0
      then pure (g, ok none)
      else (attempt (new_listener host fuel ret) >>= λ l. pure (g, some_listener l))

  unfoldable pub installed : Filter → Result ℤ → Loading
  unfolding attach
  installed f (err e) = pure (f, err e)
  installed f (ok ret) = attach f ret

  -- With the program in hand, or the exception of `program`.
  unfoldable pub compiled : Filter → Result (List ℕ × Filter) → Loading
  unfolding set_mode_filter installed
  compiled f (err e) = pure (f, err e)
  compiled f (ok (p, g)) = attempt (set_mode_filter host fuel p g.flags) >>= installed g

  unfoldable pub permitted : Filter → Result (Unit {0}) → Loading
  unfolding compiled program
  permitted f (err e) = pure (f, err e)
  permitted f (ok _) = compiled f (program host.machine f)

  -- `load`
  unfoldable pub load : Filter → Loading
  unfolding set_no_new_privs permitted
  load f =
      if f.loaded
      then pure (f, err runtime_error)
      else (attempt (set_no_new_privs host fuel) >>= permitted f)
