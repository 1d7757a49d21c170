-- ===== src/Filter/Ending.antt =====
-- src/seccompy/filter.py: `load` ends where the kernel answers.
use seccompy.Base.{ℕ, ◌≡◌, ◌<◌, arith, ap, ◌∙◌, ◌∷◌, true, false, none, List, ◌==◌, bit_and}
use seccompy.Base.Int.{ℤ}
use seccompy.Errors.{Error, Result, ok, err, seccomp_error, unsupported_error}
use seccompy.Kernel.{
  Call, failed, follow, proceed, Log, Host, Io, pure, raise, finished, ◌>>=◌, attempt, catch, close,
  set_inheritable, os_call,
}
use seccompy.Kernel.Calls.{set_no_new_privs, set_mode_filter, notif_sizes}
use seccompy.Kernel.Ends.{
  Ends, Responsive, Ends-pure, Ends-raise, Ends-if, Ends->>=, Ends-attempt, Ends-catch,
  Ends-os_call, Ends-set_no_new_privs, Ends-set_mode_filter, Ends-notif_sizes,
}
use seccompy.Kernel.Calls.{retry, error_of, seccomp, seccomp_nr, call}
use seccompy.Kernel.Retry.{repeated, Interrupted, retry-Interrupted}
use seccompy.Kernel.Install.{IsLoadable, no_new_privs_call, filter_call}
use seccompy.Notify.{expected_sizes, same_sizes}
use seccompy.Notify.Listener.{new_listener, sizes, sizes_of}
use seccompy.Filter.Object.{Filter, program}
use seccompy.Filter.Load.{load, attach, installed, compiled, permitted, new_listener_flag}

module _ (host : Host) (fuel : ℕ) (responsive : Responsive host fuel) where
  Ends-sizes : Ends (sizes host fuel)
  unfolding sizes
  Ends-sizes =
      Ends->>= (notif_sizes host fuel) _ (Ends-notif_sizes host fuel responsive)
        (λ raw. Ends-pure (sizes_of raw))

  Ends-close_and_raise :
      {A : Type 0} (fd : ℤ) (e : Error) → Ends {A = A} (os_call host (close fd) >>= λ a. raise e)
  Ends-close_and_raise fd e =
      Ends->>= (os_call host (close fd)) _ (Ends-os_call host (close fd)) (λ a. Ends-raise e)

  pub Ends-new_listener : (fd : ℤ) → Ends (new_listener host fuel fd)
  unfolding new_listener
  Ends-new_listener fd =
      Ends->>= (catch (sizes host fuel) (λ e. os_call host (close fd) >>= λ a. raise e)) _
        (Ends-catch (sizes host fuel) _ Ends-sizes (Ends-close_and_raise fd))
        (λ kernel.
          Ends-if (same_sizes kernel expected_sizes) _ _
            (Ends->>= (os_call host (set_inheritable fd false)) _
              (Ends-os_call host (set_inheritable fd false))
              (λ a. Ends-pure (record { fd = fd; closed = false })))
            (Ends-close_and_raise fd (unsupported_error none)))

  Ends-attach : (f : Filter) (ret : ℤ) → Ends (attach host fuel f ret)
  unfolding attach
  Ends-attach f ret = Ends-if (bit_and f.flags new_listener_flag == 0) _ _ (Ends-pure _) (
      Ends->>= (attempt (new_listener host fuel ret)) _ (Ends-attempt _ (Ends-new_listener ret))
        (λ l. Ends-pure _))

  Ends-installed : (f : Filter) (r : Result ℤ) → Ends (installed host fuel f r)
  unfolding installed
  Ends-installed f (err e) = Ends-pure _
  Ends-installed f (ok ret) = Ends-attach f ret

  Ends-compiled : (f : Filter) (r : Result (List ℕ × Filter)) → Ends (compiled host fuel f r)
  unfolding compiled
  Ends-compiled f (err e) = Ends-pure _
  Ends-compiled f (ok (p, g)) =
      Ends->>= (attempt (set_mode_filter host fuel p g.flags)) _
        (Ends-attempt _ (Ends-set_mode_filter host fuel responsive p g.flags)) (Ends-installed g)

  Ends-permitted : (f : Filter) (r : Result (Unit {0})) → Ends (permitted host fuel f r)
  unfolding permitted
  Ends-permitted f (err e) = Ends-pure _
  Ends-permitted f (ok _) = Ends-compiled f (program host.machine f)

  -- If signals interrupt every call fewer times in a row than there is fuel, `load` of any filter
  -- ends, whatever calls were made before.
  pub load-Ends : (f : Filter) → Ends (load host fuel f)
  unfolding load
  load-Ends f = Ends-if f.loaded _ _ (Ends-pure _) (
      Ends->>= (attempt (set_no_new_privs host fuel)) _
        (Ends-attempt _ (Ends-set_no_new_privs host fuel responsive)) (Ends-permitted f))

-- Whenever a call is made, the kernel accepts it, behind fewer interruptions than there is fuel.
abbrev pub Accepting : Host → ℕ → Type 0
Accepting host fuel =
    (c : Call) (log : Log)
    → (n : ℕ) × (n < fuel)
      × Interrupted host n c log
      × (failed (host.answer (repeated n c log) c).ret ≡ false)

module _ (host : Host) (fuel nr : ℕ) (accepting : Accepting host fuel)
    (linux : host.is_linux ≡ true) (known : seccomp_nr host ≡ ok nr) where
  -- The loop returns a value.
  abbrev Returns : {A : Type 0} → Io A → Type 0
  Returns {A} m = (log : Log) → (a : A) × (log' : Log) × (m log ≡ finished (ok a) log')

  retry-Returns : (raised : ℕ → Error) (c : Call) → Returns (retry host raised fuel c)
  retry-Returns raised c log =
      let (n, enough, i, good) = accepting c log in
      let a = host.answer (repeated n c log) c in
      (
        a,
        c ∷ repeated n c log,
        retry-Interrupted host raised fuel n c log linux enough i (ground (arith, good))
            ∙ ap (λ r. finished r (c ∷ repeated n c log)) (ground (arith, good)),
      )

  set_no_new_privs-Returns :
      (log : Log) → (log' : Log) × (set_no_new_privs host fuel log ≡ finished (ok tt) log')
  unfolding set_no_new_privs
  set_no_new_privs-Returns log =
      let (a, log', e) = retry-Returns seccomp_error no_new_privs_call log in
      (log', ap (follow (proceed (λ a. pure tt))) e)

  set_mode_filter-Returns :
      (p : List ℕ) (flags : ℕ) → IsLoadable p → Returns (set_mode_filter host fuel p flags)
  unfolding set_mode_filter seccomp call
  set_mode_filter-Returns p flags (n, whole, some_records, few) log =
      let (a, log', e) = retry-Returns error_of (filter_call nr p flags) log in
      (a.ret, log', ground (arith, known, e, whole, some_records, few))

  -- On Linux and a known machine, where the kernel accepts every call, behind fewer interruptions
  -- than there is fuel: a filter that is not loaded, whose program is had and consists of 1 to 4096
  -- whole records, and which asks for no listener, is loaded. `load` returns None, and the filter is
  -- the one that reading `program` leaves, marked as loaded.
  pub load-loaded :
      (f f' : Filter) (p : List ℕ) (log : Log)
      → f.loaded ≡ false
      → program host.machine f ≡ ok (p, f')
      → IsLoadable p
      → bit_and f'.flags new_listener_flag ≡ 0
      → (log' : Log) × (load host fuel f log
          ≡ finished (ok (record f' { loaded = true }, ok none)) log')
  unfolding load permitted compiled installed attach
  load-loaded f f' p log fresh made_by loadable plain =
      let (mid, e) = set_no_new_privs-Returns log in
      let (ret, log', e') = set_mode_filter-Returns p f'.flags loadable mid in
      (log', ground (arith, fresh, made_by, plain, e, e'))
