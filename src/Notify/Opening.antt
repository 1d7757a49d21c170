-- ===== src/Notify/Opening.antt =====
-- src/seccompy/notify.py: the construction of a `Listener`, on every branch.
use seccompy.Base.{
  ℕ, ◌≡◌, refl, ◌⊎◌, inl, inr, true, false, none, some, List, [], ◌∷◌, arith, if◌then◌else◌,
  Bool-cases,
}
use seccompy.Base.Int.{ℤ, pos}
use seccompy.Errors.{Error, Result, ok, err, unsupported_error, os_error}
use seccompy.Kernel.{
  Call, syscall, Answer, Log, Host, Outcome, waiting, finished, Io, pure, raise, lift, ◌>>=◌, catch,
  attempt, follow, proceed, failed, os_call, perform,
}
use seccompy.Kernel
use seccompy.Kernel.Only.{Adds, Only, Only->>=, Only-lift, Only-pure, Only-retry}
use seccompy.Kernel.Calls.{
  error_of, seccomp, call, seccomp_nr, notif_sizes, seccomp_get_notif_sizes,
}
use seccompy.Kernel.Structs.{fields, fill, seccomp_notif_sizes}
use seccompy.Notify.{NotifSizes, expected_sizes, same_sizes}
use seccompy.Notify.Listener.{Listener, new_listener, sizes, sizes_of}

pub data IsSyscall : Call → Type 0 where
  of_nr : (nr : ℕ) (args : List Kernel.Arg) → IsSyscall (syscall nr args)

module _ (host : Host) (fuel : ℕ) where
  Only-seccomp :
      (op : ℕ) (flags : ℤ) (uargs : Kernel.Arg) → Only IsSyscall (seccomp host fuel op flags uargs)
  unfolding seccomp call
  Only-seccomp op flags uargs =
      Only->>= IsSyscall (lift (seccomp_nr host)) _ (Only-lift IsSyscall _)
        (λ nr. Only-retry IsSyscall host _ (of_nr nr _) error_of fuel)

  Only-sizes : Only IsSyscall (sizes host fuel)
  unfolding sizes notif_sizes
  Only-sizes =
      Only->>= IsSyscall _ _
        (Only->>= IsSyscall
          (seccomp host fuel seccomp_get_notif_sizes (pos 0)
            (Kernel.buffer (fill seccomp_notif_sizes [])))
          _
          (Only-seccomp seccomp_get_notif_sizes (pos 0)
            (Kernel.buffer (fill seccomp_notif_sizes [])))
          (λ a. Only-pure IsSyscall (fields seccomp_notif_sizes a.out)))
        (λ raw. Only-pure IsSyscall (sizes_of raw))

  -- The kernel's sizes are those of this library; they could not be had, or differ.
  abbrev pub AreExpected : Log → Log → Type 0
  AreExpected log mid =
      (k : NotifSizes) × (sizes host fuel log ≡ finished (ok k) mid)
      × (same_sizes k expected_sizes ≡ true)

  abbrev pub AreRefused : Log → Log → Type 0
  AreRefused log mid =
      ((e : Error) × (sizes host fuel log ≡ finished (err e) mid))
      ⊎ ((k : NotifSizes) × (sizes host fuel log ≡ finished (ok k) mid)
          × (same_sizes k expected_sizes ≡ false))

  -- What the construction comes to, behind the calls that ask for the sizes.
  pub data Opening (fd : ℤ) (log mid : Log) (r : Result Listener) (log' : Log) : Type 0 where
    opens :
        AreExpected log mid
        → r ≡ ok (record { fd = fd; closed = false })
        → log' ≡ Kernel.set_inheritable fd false ∷ mid
        → Opening fd log mid r log'
    closes :
        (e : Error)
        → AreRefused log mid
        → r ≡ err e
        → log' ≡ Kernel.close fd ∷ mid
        → Opening fd log mid r log'
    leaks :
        (e : Error)
        → AreExpected log mid
        → failed (host.answer mid (Kernel.set_inheritable fd false)).ret ≡ true
        → r ≡ err e
        → log' ≡ Kernel.set_inheritable fd false ∷ mid
        → Opening fd log mid r log'

  -- The construction asks the kernel for its sizes, by system calls alone. If they are those of this
  -- library it makes the descriptor uninheritable and returns the open listener, or raises, with the
  -- descriptor left open, where that call fails; otherwise it closes the descriptor and raises.
  pub new_listener-Opening :
      (fd : ℤ) (log : Log) (r : Result Listener) (log' : Log)
      → new_listener host fuel fd log ≡ finished r log'
      → (mid : Log) × Adds IsSyscall log mid × Opening fd log mid r log'
  unfolding new_listener os_call perform
  new_listener-Opening fd log r log' h = split (sizes host fuel log) refl h
    where
      split :
          (o : Outcome NotifSizes)
          → sizes host fuel log ≡ o
          → follow
              (proceed (λ kernel.
                if same_sizes kernel expected_sizes
                then (os_call host (Kernel.set_inheritable fd false) >>= λ a.
                    pure (record { fd = fd; closed = false }))
                else (os_call host (Kernel.close fd) >>= λ a. raise (unsupported_error none))))
              (follow
                (proceed (λ r'. elim r' [
                  | ok a ↦ pure a
                  | err e ↦ (os_call host (Kernel.close fd) >>= λ a. raise e)
                ]))
                (follow (λ r'. pure r') o))
            ≡ finished r log'
          → (mid : Log) × Adds IsSyscall log mid × Opening fd log mid r log'
      split waiting e h = absurd (cc)
      split (finished (err x) mid) e h = (
        mid,
        Only-sizes.adds log (err x) mid e,
        elim (Bool-cases (failed (host.answer mid (Kernel.close fd)).ret)) [
          | inl bad ↦
              closes (os_error (some (host.answer mid (Kernel.close fd)).errno)) (inl (x, e))
                (ground arith) (ground arith)
          | inr good ↦ closes x (inl (x, e)) (ground arith) (ground arith)
        ],
      )
      split (finished (ok k) mid) e h = (
        mid,
        Only-sizes.adds log (ok k) mid e,
        elim (Bool-cases (same_sizes k expected_sizes)) [
          | inl same ↦
              elim (Bool-cases (failed (host.answer mid (Kernel.set_inheritable fd false)).ret)) [
                | inl bad ↦
                    leaks
                      (os_error (some (host.answer mid (Kernel.set_inheritable fd false)).errno))
                      (k, e, same) bad (ground arith) (ground arith)
                | inr good ↦ opens (k, e, same) (ground arith) (ground arith)
              ]
          | inr other ↦ elim (Bool-cases (failed (host.answer mid (Kernel.close fd)).ret)) [
            | inl bad ↦
                closes (os_error (some (host.answer mid (Kernel.close fd)).errno))
                  (inr (k, e, other)) (ground arith) (ground arith)
            | inr good ↦
                closes (unsupported_error none) (inr (k, e, other)) (ground arith) (ground arith)
          ]
        ],
      )
