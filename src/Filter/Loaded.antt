-- ===== src/Filter/Loaded.antt =====
-- src/seccompy/filter.py: what a successful `load` has asked of the kernel.
use seccompy.Base.{
  ℕ, ◌*◌, ◌<◌, ◌≡◌, ◌≢◌, refl, sym, ◌∙◌, subst, ◌⊎◌, inl, inr, true, false, Option, none, some,
  List, arith, ◌==◌, Bool-cases, bit_and, length,
}
use seccompy.Base.Int.{ℤ}
use seccompy.Errors.{Error, Result, ok, err}
use seccompy.Bpf.Machine.{returned, run_packed}
use seccompy.Syscalls.{audit_arch}
use seccompy.Kernel.{Log, Host, finished, ◌>>=◌, attempt, attempt->>=-eq-ok, finished-injective}
use seccompy.Kernel.Calls.{set_no_new_privs, set_mode_filter, seccomp_nr}
use seccompy.Kernel.Retry.{Accepted, Returned}
use seccompy.Kernel.Install.{
  IsLoadable, no_new_privs_call, filter_call, set_mode_filter-eq-ok, set_no_new_privs-eq-ok,
}
use seccompy.Notify.Listener.{Listener, new_listener}
use seccompy.Filter.Spec.{verdict}
use seccompy.Filter.Cond.{IsBytes}
use seccompy.Filter.Methods.{program-keeps}
use seccompy.Filter.Object.{Filter, program}
use seccompy.Filter.Load.{
  load, attach, installed, compiled, permitted, some_listener, new_listener_flag,
}
use seccompy.Filter.Invariant.{Built, program_returns_verdict}

module _ (host : Host) (fuel : ℕ) where
  -- Behind the call that installed the filter and returned `ret`: if the flags ask for one, a
  -- listener constructed on the descriptor `ret`, and nothing otherwise.
  abbrev pub Attached : ℕ → ℤ → Option Listener → Log → Log → Type 0
  Attached flags ret l log log' =
      ((bit_and flags new_listener_flag ≡ 0) × (l ≡ none) × (log' ≡ log))
      ⊎ ((bit_and flags new_listener_flag ≢ 0)
          × (lis : Listener) × (l ≡ some lis)
          × (new_listener host fuel ret log ≡ finished (ok lis) log'))

  -- The calls of a load that installs `p` with these flags.
  abbrev pub Installs : List ℕ → ℕ → Option Listener → Log → Log → Type 0
  Installs p flags l log log' =
      (nr : ℕ) × (ret : ℤ) × (before : Log) × (installed : Log) × (seccomp_nr host ≡ ok nr)
      × Accepted host no_new_privs_call log before
      × Returned host (filter_call nr p flags) ret before installed
      × Attached flags ret l installed log'

  attach-eq-ok :
      (f g : Filter) (ret : ℤ) (l : Option Listener) (log log' : Log)
      → attach host fuel f ret log ≡ finished (ok (g, ok l)) log'
      → (g ≡ record f { loaded = true }) × Attached f.flags ret l log log'
  unfolding attach
  attach-eq-ok f g ret l log log' h = elim (Bool-cases (bit_and f.flags new_listener_flag == 0)) [
    | inl plain ↦ (ground arith, inl (ground arith, ground arith, ground arith))
    | inr asked ↦
        let (r, mid, e, h') =
          attempt->>=-eq-ok (new_listener host fuel ret) _ log (rw asked at h) in
        let (fd_end, same) = finished-injective h' in
        with_listener r fd_end (subst (λ t. new_listener host fuel ret log ≡ finished r t) same e)
          asked
  ]
    where
      with_listener :
          (r : Result Listener)
          → ◌≡◌ {A = Result (Filter × Result (Option Listener))}
              (ok (record f { loaded = true }, some_listener r))
              (ok (g, ok l))
          → new_listener host fuel ret log ≡ finished r log'
          → (bit_and f.flags new_listener_flag == 0) ≡ false
          → (g ≡ record f { loaded = true }) × Attached f.flags ret l log log'
      with_listener (err x) e q asked = absurd (ground arith)
      with_listener (ok lis) e q asked = (ground arith, inr (ground arith, lis, ground arith, q))

  installed-eq-ok :
      (f g : Filter) (r : Result ℤ) (l : Option Listener) (log log' : Log)
      → installed host fuel f r log ≡ finished (ok (g, ok l)) log'
      → (ret : ℤ) × (r ≡ ok ret)
        × (g ≡ record f { loaded = true })
        × Attached f.flags ret l log log'
  unfolding installed
  installed-eq-ok f g (err e) l log log' h = absurd (ground arith)
  installed-eq-ok f g (ok ret) l log log' h =
      let (same, attached) = attach-eq-ok f g ret l log log' h in (ret, refl, same, attached)

  compiled-eq-ok :
      (f g : Filter) (r : Result (List ℕ × Filter)) (l : Option Listener) (log log' : Log)
      → compiled host fuel f r log ≡ finished (ok (g, ok l)) log'
      → (p : List ℕ) × (f' : Filter) × (r ≡ ok (p, f'))
        × (g ≡ record f' { loaded = true })
        × IsLoadable p
        × ((nr : ℕ) × (ret : ℤ) × (mid : Log) × (seccomp_nr host ≡ ok nr)
            × Returned host (filter_call nr p f'.flags) ret log mid
            × Attached f'.flags ret l mid log')
  unfolding compiled
  compiled-eq-ok f g (err e) l log log' h = absurd (ground arith)
  compiled-eq-ok f g (ok (p, f')) l log log' h =
      let (r, mid, e, h') = attempt->>=-eq-ok (set_mode_filter host fuel p f'.flags) _ log h in
      let (ret, q, same, attached) = installed-eq-ok f' g r l mid log' h' in
      let (loadable, (nr, e', made)) =
        set_mode_filter-eq-ok host fuel p f'.flags log
          (subst (λ t. set_mode_filter host fuel p f'.flags log ≡ finished t mid) q e) in
      (p, f', refl, same, loadable, (nr, ret, mid, e', made, attached))

  permitted-ne-ok :
      (f g : Filter) (x : Error) (l : Option Listener) (log log' : Log)
      → permitted host fuel f (err x) log ≢ finished (ok (g, ok l)) log'
  unfolding permitted
  permitted-ne-ok f g x l log log' h = ground arith

  permitted-ok :
      (f : Filter) (log : Log)
      → permitted host fuel f (ok tt) log ≡ compiled host fuel f (program host.machine f) log
  unfolding permitted
  permitted-ok f log = refl

  load_fresh :
      (f : Filter) (log : Log)
      → f.loaded ≡ false
      → load host fuel f log ≡ (attempt (set_no_new_privs host fuel) >>= permitted host fuel f) log
  unfolding load
  load_fresh f log h = ground arith

  -- A load that succeeds was the first of its filter. It changes the cache and sets `loaded`, and
  -- its calls are these, each perhaps interrupted before: no_new_privs is set, then the program that
  -- `program` returns, of whole records from 1 to 4096, is handed to the kernel with the filter's
  -- flags. Then, if the flags ask for a listener, it is constructed on the descriptor that this call
  -- returned, and is the result; otherwise no more call is made and the result is None.
  pub load-eq-ok :
      (f g : Filter) (l : Option Listener) (log log' : Log)
      → load host fuel f log ≡ finished (ok (g, ok l)) log'
      → (f.loaded ≡ false)
        × ((p : List ℕ) × (f' : Filter) × (program host.machine f ≡ ok (p, f'))
            × (g ≡ record f' { loaded = true })
            × IsLoadable p
            × Installs p f'.flags l log log')
  unfolding load
  load-eq-ok f g l log log' h = elim (Bool-cases f.loaded) [
    | inl again ↦ absurd (ground arith)
    | inr fresh ↦
        let (r, mid, e, h') =
          attempt->>=-eq-ok (set_no_new_privs host fuel) _ log (sym (load_fresh f log fresh) ∙ h) in
        (fresh, with_privs r mid e h')
  ]
    where
      with_privs :
          (r : Result (Unit {0})) (mid : Log)
          → set_no_new_privs host fuel log ≡ finished r mid
          → permitted host fuel f r mid ≡ finished (ok (g, ok l)) log'
          → (p : List ℕ) × (f' : Filter) × (program host.machine f ≡ ok (p, f'))
            × (g ≡ record f' { loaded = true })
            × IsLoadable p
            × Installs p f'.flags l log log'
      with_privs (err x) mid e h' = absurd (permitted-ne-ok f g x l mid log' h')
      with_privs (ok _) mid e h' =
          let (
            p,
            f',
            made,
            same,
            loadable,
            (nr, ret, installed_log, nr_eq, returned_ret, attached),
          ) =
            compiled-eq-ok f g (program host.machine f) l mid log'
              (sym (permitted-ok f mid) ∙ h') in
          (
            p,
            f',
            made,
            same,
            loadable,
            (
              nr,
              ret,
              mid,
              installed_log,
              nr_eq,
              set_no_new_privs-eq-ok host fuel log e,
              returned_ret,
              attached,
            ),
          )

  -- For a filter that the constructor and the methods built: a load that succeeds has handed the
  -- kernel a program, behind no_new_privs, that returns the verdict of the filter's rules on the
  -- machine's architecture, for the bytes of every `struct seccomp_data`, with fuel above the number
  -- of its records.
  pub loaded_program_returns_verdict :
      (f g : Filter) (l : Option Listener) (log log' : Log) (arch : ℕ)
      → Built host.machine f
      → load host fuel f log ≡ finished (ok (g, ok l)) log'
      → audit_arch host.machine ≡ ok arch
      → (p : List ℕ) × Installs p f.flags l log log'
        × ((packet : List ℕ) (room : ℕ)
            → IsBytes packet
            → length p < room * 8
            → run_packed room p packet ≡ returned (verdict arch f.default f.rules packet))
  loaded_program_returns_verdict f g l log log' arch b h native =
      let (_, (p, f', made, _, _, installs)) = load-eq-ok f g l log log' h in
      (
        p,
        subst (λ t. Installs p t l log log') (program-keeps host.machine f f' p made).2 installs,
        λ packet room bytes enough.
            program_returns_verdict host.machine f f' p packet arch room b made native bytes enough,
      )
