-- ===== src/Kernel/Ends.antt =====
-- Which computations end: one rule for each way to build a computation.
use seccompy.Base.{
  ℕ, zero, suc, ◌<◌, ◌≡◌, refl, ap, ◌∙◌, inl, inr, Bool, true, false, not, ◌||◌, none, some, List,
  [], ◌∷◌, arith, ltb, ◌==◌, ◌%◌, ◌/◌, length, if◌then◌else◌, Bool-cases,
}
use seccompy.Errors.{
  Error, Result, ok, err, raise_if, value_error, seccomp_error, unsupported_error, os_error,
  program_not_whole, program_too_long,
}
use seccompy.Kernel.{
  Arg, int, buffer, fprog, Call, prctl, syscall, Answer, Log, Host, finished, Io, pure, raise, lift,
  follow, proceed, ◌>>=◌, attempt, catch, perform, os_call, failed,
}
use seccompy.Base.Int.{ℤ, pos}
use seccompy.Kernel.Structs.{fill, fields, seccomp_notif_sizes}
use seccompy.Kernel.Calls.{
  retry, error_of, call, seccomp, seccomp_nr, set_no_new_privs, set_mode_filter, notif_sizes,
  max_insns, pr_set_no_new_privs, seccomp_set_mode_filter, seccomp_get_notif_sizes,
}
use seccompy.Kernel.Retry.{is_interrupt, repeated, Interrupted, retry-Interrupted}

-- However often it is run, `m` ends, with a value or an exception.
pub record Ends {ℓ} {A : Type ℓ} (m : Io A) : Type ℓ where
  pub ends : (log : Log) → (r : Result A) × (log' : Log) × (m log ≡ finished r log')

pub Ends-lift {ℓ} : {A : Type ℓ} (r : Result A) → Ends (lift r)
Ends-lift r = record { ends = λ log. (r, log, refl) }

pub Ends-pure {ℓ} : {A : Type ℓ} (a : A) → Ends (pure a)
Ends-pure a = Ends-lift (ok a)

pub Ends-raise {ℓ} : {A : Type ℓ} (e : Error) → Ends (raise {A = A} e)
Ends-raise e = Ends-lift (err e)

pub Ends-if {ℓ} : {A : Type ℓ} (b : Bool) (m n : Io A) → Ends m → Ends n → Ends (if b then m else n)
Ends-if true m n p q = p
Ends-if false m n p q = q

follow-Ends {ℓ κ} :
    {A : Type ℓ} {B : Type κ} (m : Io A) (k : Result A → Io B)
    → Ends m
    → ((r : Result A) → Ends (k r))
    → (log : Log) → (s : Result B) × (log' : Log) × (follow k (m log) ≡ finished s log')
follow-Ends m k p q log =
    let (r, mid, e) = p.ends log in
    let (s, log', e') = (q r).ends mid in (s, log', ap (follow k) e ∙ e')

pub Ends-attempt {ℓ} : {A : Type ℓ} (m : Io A) → Ends m → Ends (attempt m)
Ends-attempt m p = record { ends = follow-Ends m (λ r. pure r) p Ends-pure }

pub Ends->>= {ℓ κ} :
    {A : Type ℓ} {B : Type κ} (m : Io A) (k : A → Io B)
    → Ends m
    → ((a : A) → Ends (k a))
    → Ends (m >>= k)
Ends->>= {A} {B} m k p q = record { ends = follow-Ends m (proceed k) p rest }
  where
    rest : (r : Result A) → Ends (proceed k r)
    rest (ok a) = q a
    rest (err e) = Ends-raise e

pub Ends-catch {ℓ} :
    {A : Type ℓ} (m : Io A) (handler : Error → Io A)
    → Ends m
    → ((e : Error) → Ends (handler e))
    → Ends (catch m handler)
Ends-catch {A} m handler p q = Ends->>= (attempt m) _ (Ends-attempt m p) handled
  where
    handled : (r : Result A) → Ends (elim r [ ok a ↦ pure a | err e ↦ handler e ])
    handled (ok a) = Ends-pure a
    handled (err e) = q e

module _ (host : Host) where
  pub Ends-perform : (c : Call) → Ends (perform host c)
  unfolding perform
  Ends-perform c = record { ends = λ log. (ok (host.answer log c), c ∷ log, refl) }

  pub Ends-os_call : (c : Call) → Ends (os_call host c)
  unfolding os_call
  Ends-os_call c =
      Ends->>= (perform host c) _ (Ends-perform c)
        (λ a. Ends-if (failed a.ret) _ _ (Ends-raise (os_error (some a.errno))) (Ends-pure a))

  -- Whenever a call is made, signals interrupt it fewer times in a row than there is fuel.
  abbrev pub Responsive : ℕ → Type 0
  Responsive fuel =
      (c : Call) (log : Log)
      → (n : ℕ) × (n < fuel)
        × Interrupted host n c log
        × (is_interrupt (host.answer (repeated n c log) c) ≡ false)

  retry_off_linux :
      (raised : ℕ → Error) (fuel n : ℕ) (c : Call) (log : Log)
      → host.is_linux ≡ false
      → n < fuel
      → (r : Result Answer) × (log' : Log) × (retry host raised fuel c log ≡ finished r log')
  unfolding retry
  retry_off_linux raised zero n c log foreign h = absurd (omega (arith, h))
  retry_off_linux raised (suc fuel) n c log foreign h =
      (err (unsupported_error none), log, ground (arith, foreign))

  pub Ends-retry :
      (raised : ℕ → Error) (fuel : ℕ) (c : Call) → Responsive fuel → Ends (retry host raised fuel c)
  Ends-retry raised fuel c responsive = record {
    ends = λ log.
        let (n, enough, i, last) = responsive c log in
        elim (Bool-cases host.is_linux) [
          | inl linux ↦ (_, _, retry-Interrupted host raised fuel n c log linux enough i last)
          | inr foreign ↦ retry_off_linux raised fuel n c log foreign enough
        ];
  }

  module _ (fuel : ℕ) (responsive : Responsive fuel) where
    pub Ends-seccomp : (op : ℕ) (flags : ℤ) (uargs : Arg) → Ends (seccomp host fuel op flags uargs)
    unfolding seccomp call
    Ends-seccomp op flags uargs =
        Ends->>= (lift (seccomp_nr host)) _ (Ends-lift (seccomp_nr host)) (λ nr.
          Ends-retry error_of fuel (syscall nr (int (pos op) ∷ int flags ∷ uargs ∷ [])) responsive)

    pub Ends-set_no_new_privs : Ends (set_no_new_privs host fuel)
    unfolding set_no_new_privs
    Ends-set_no_new_privs =
        Ends->>= (retry host seccomp_error fuel (prctl pr_set_no_new_privs (1 ∷ 0 ∷ 0 ∷ 0 ∷ []))) _
          (Ends-retry seccomp_error fuel _ responsive) (λ a. Ends-pure tt)

    pub Ends-set_mode_filter : (p : List ℕ) (flags : ℕ) → Ends (set_mode_filter host fuel p flags)
    unfolding set_mode_filter
    Ends-set_mode_filter p flags =
        Ends->>=
          (lift
            (raise_if (not (length p % 8 == 0) || length p == 0) (value_error program_not_whole)))
          _ (Ends-lift _)
          (λ u.
            Ends->>= (lift (raise_if (ltb max_insns (length p / 8)) (value_error program_too_long)))
              _ (Ends-lift _)
              (λ v.
                Ends->>=
                  (seccomp host fuel seccomp_set_mode_filter (pos flags) (fprog (length p / 8) p)) _
                  (Ends-seccomp _ _ _) (λ a. Ends-pure a.ret)))

    pub Ends-notif_sizes : Ends (notif_sizes host fuel)
    unfolding notif_sizes
    Ends-notif_sizes =
        Ends->>=
          (seccomp host fuel seccomp_get_notif_sizes (pos 0) (buffer (fill seccomp_notif_sizes [])))
          _ (Ends-seccomp _ _ _) (λ a. Ends-pure (fields seccomp_notif_sizes a.out))
