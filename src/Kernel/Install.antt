-- ===== src/Kernel/Install.antt =====
-- src/seccompy/_syscall.py: what `set_mode_filter` and `set_no_new_privs` ask of the kernel.
use seccompy.Base.{
  ℕ, ◌*◌, ◌/◌, ◌%◌, ◌≤◌, ◌<◌, ◌≡◌, ap, subst, inl, inr, not, ◌||◌, List, [], ◌∷◌, arith, ltb, ◌==◌,
  Bool-cases, length,
}
use seccompy.Base.Int.{ℤ, pos}
use seccompy.Errors.{
  Reason, ok, err, ok-injective, raise_if, raise_if-eq-ok, value_error, seccomp_error,
  program_not_whole, program_too_long,
}
use seccompy.Kernel.{
  Arg, int, fprog, Call, syscall, prctl, Answer, Log, Host, finished, >>=-eq-ok, lift->>=-eq-ok,
  finished-injective,
}
use seccompy.Kernel.Calls.{
  error_of, call, seccomp_nr, seccomp, set_no_new_privs, set_mode_filter, max_insns,
  pr_set_no_new_privs, seccomp_set_mode_filter,
}
use seccompy.Kernel.Retry.{Accepted, Returned, retry-Accepted, retry-eq-ok}

-- The length of a program that the kernel may take: whole records, at least one and at most 4096.
abbrev pub IsLoadable : List ℕ → Type 0
IsLoadable p = (n : ℕ) × (length p ≡ n * 8) × (0 < n) × (n ≤ max_insns)

abbrev pub no_new_privs_call : Call
no_new_privs_call = prctl pr_set_no_new_privs (1 ∷ 0 ∷ 0 ∷ 0 ∷ [])

abbrev pub filter_call : ℕ → List ℕ → ℕ → Call
filter_call nr p flags =
    syscall nr (int (pos seccomp_set_mode_filter) ∷ int (pos flags) ∷ fprog (length p / 8) p ∷ [])

module _ (host : Host) where
  module _ (fuel : ℕ) where
    -- A program that the kernel cannot take raises a `ValueError`, and no call is made.
    pub set_mode_filter-invalid :
        (p : List ℕ) (flags : ℕ) (log : Log)
        → ¬ IsLoadable p
        → (r : Reason) × (set_mode_filter host fuel p flags log
            ≡ finished (err (value_error r)) log)
    unfolding set_mode_filter
    set_mode_filter-invalid p flags log unfit = elim (Bool-cases (length p % 8 == 0)) [
      | inr part ↦ (program_not_whole, ground arith)
      | inl whole ↦ elim (Bool-cases (length p == 0)) [
        | inl empty ↦ (program_not_whole, ground arith)
        | inr full ↦ elim (Bool-cases (ltb max_insns (length p / 8))) [
          | inl long ↦ (program_too_long, ground arith)
          | inr short ↦ absurd (unfit (length p / 8, ground arith, ground arith, ground arith))
        ]
      ]
    ]

    seccomp-eq-ok :
        (op : ℕ) (flags : ℤ) (uargs : Arg) (log : Log) {a : Answer} {log' : Log}
        → seccomp host fuel op flags uargs log ≡ finished (ok a) log'
        → (nr : ℕ) × (seccomp_nr host ≡ ok nr)
          × Returned host (syscall nr (int (pos op) ∷ int flags ∷ uargs ∷ [])) a.ret log log'
    unfolding seccomp call
    seccomp-eq-ok op flags uargs log h =
        let (nr, e, h') = lift->>=-eq-ok (seccomp_nr host) _ log h in
        let c = syscall nr (int (pos op) ∷ int flags ∷ uargs ∷ []) in
        let (n, i, made, last, good) = retry-eq-ok host error_of fuel c log h' in
        (nr, e, (n, i, made, ap (λ (t : Answer). t.ret) last, good))

    -- A success: the program was loadable, the last call handed it to the kernel, and the value is
    -- what the kernel returned.
    pub set_mode_filter-eq-ok :
        (p : List ℕ) (flags : ℕ) (log : Log) {ret : ℤ} {log' : Log}
        → set_mode_filter host fuel p flags log ≡ finished (ok ret) log'
        → IsLoadable p
          × ((nr : ℕ) × (seccomp_nr host ≡ ok nr)
              × Returned host (filter_call nr p flags) ret log log')
    unfolding set_mode_filter seccomp call
    set_mode_filter-eq-ok p flags log {ret} {log'} h =
        let (_, e₁, h₁) =
          lift->>=-eq-ok (raise_if (not (length p % 8 == 0) || length p == 0) _) _ log h in
        let (_, e₂, h₂) = lift->>=-eq-ok (raise_if (ltb max_insns (length p / 8)) _) _ log h₁ in
        let whole = raise_if-eq-ok (not (length p % 8 == 0) || length p == 0) _ e₁ in
        let short = raise_if-eq-ok (ltb max_insns (length p / 8)) _ e₂ in
        let uargs = fprog (length p / 8) p in
        let (a, mid, e₃, h₃) =
          >>=-eq-ok (seccomp host fuel seccomp_set_mode_filter (pos flags) uargs) _ log h₂ in
        let (nr, e₄, made) = seccomp-eq-ok seccomp_set_mode_filter (pos flags) uargs log e₃ in
        (
          (length p / 8, ground (arith, whole), ground (arith, whole), ground (arith, short)),
          (
            nr,
            e₄,
            subst (λ z. Returned host (filter_call nr p flags) z log log')
                (ok-injective (finished-injective h₃).0)
                (subst (Returned host (filter_call nr p flags) a.ret log) (finished-injective h₃).1
                  made),
          ),
        )

    pub set_no_new_privs-eq-ok :
        (log : Log) {log' : Log}
        → set_no_new_privs host fuel log ≡ finished (ok tt) log'
        → Accepted host no_new_privs_call log log'
    unfolding set_no_new_privs
    set_no_new_privs-eq-ok log {log'} h =
        (retry-Accepted host seccomp_error fuel no_new_privs_call (λ a. tt) log h).0
