-- ===== src/Support/Answers.antt =====
-- src/seccompy/__init__.py: what the probes say, by what the kernel answers.
use seccompy.Base.{
  ℕ, zero, suc, ◌≡◌, ◌<◌, ◌⊎◌, inl, inr, ap, ◌∙◌, Bool, true, false, not, ◌&&◌, ◌||◌, Option, none,
  some, [], ◌∷◌, arith, ◌==◌, if◌then◌else◌, Option-cases, lookup, string_eq,
}
use seccompy.Base.Int.{ℤ, pos}
use seccompy.Errors.{Error, Result, ok, err, or_raise, seccomp_error, unsupported_error}
use seccompy.Kernel.{
  Arg, int, null, buffer, Call, syscall, Answer, Log, Host, lift, follow, proceed, finished, failed,
}
use seccompy.Kernel.Structs.{bytes_of, wrap}
use seccompy.Kernel.Calls.{
  retry, error_of, seccomp_nr, call, seccomp, action_avail, probe_flag, probed, einval, enosys,
  eopnotsupp, efault, eacces, seccomp_set_mode_filter, seccomp_get_action_avail, sys_seccomp,
}
use seccompy.Kernel.Retry.{is_interrupt, settle, repeated, Interrupted, retry-Interrupted}
use seccompy.Filter.Action
use seccompy.Support.{
  false_if_unsupported, not_action, second_probe, supported, action_supported, flag_supported,
}

-- What the last answer says of an action, and of a flag.
abbrev pub action_answer : Answer → Result Bool
action_answer a =
    if not (failed a.ret)
    then ok true
    else if a.errno == einval || (a.errno == enosys || a.errno == eopnotsupp)
    then ok false
    else err (seccomp_error a.errno)

abbrev pub flag_answer : Answer → Result Bool
flag_answer a =
    if not (failed a.ret) || (a.errno == efault || a.errno == eacces)
    then ok true
    else if a.errno == einval || (a.errno == enosys || a.errno == eopnotsupp)
    then ok false
    else err (seccomp_error a.errno)

module _ (host : Host) (fuel : ℕ) where
  -- The next `n` answers to the call are interruptions, and the one behind them, `a`, is none.
  pub record Answers (n : ℕ) (c : Call) (log : Log) (a : Answer) : Type 0 where
    pub linux : host.is_linux ≡ true
    pub enough : n < fuel
    pub interrupted : Interrupted host n c log
    pub last : host.answer (repeated n c log) c ≡ a
    pub settled : is_interrupt a ≡ false

  abbrev pub seccomp_call : ℕ → ℕ → ℤ → Arg → Call
  seccomp_call nr op flags uargs = syscall nr (int (pos op) ∷ int flags ∷ uargs ∷ [])

  seccomp-Answers :
      (nr op : ℕ) (flags : ℤ) (uargs : Arg) (n : ℕ) (log : Log) (a : Answer)
      → seccomp_nr host ≡ ok nr
      → Answers n (seccomp_call nr op flags uargs) log a
      → seccomp host fuel op flags uargs log
        ≡ finished
            (settle error_of a)
            (seccomp_call nr op flags uargs ∷ repeated n (seccomp_call nr op flags uargs) log)
  unfolding seccomp call
  seccomp-Answers nr op flags uargs n log a known w =
      let c = seccomp_call nr op flags uargs in
      ap
        (λ (r : Result ℕ).
          follow (proceed (λ nr. call host fuel nr (int (pos op) ∷ int flags ∷ uargs ∷ [])))
            (lift r log))
        known
      ∙ retry-Interrupted host error_of fuel n c log w.linux w.enough w.interrupted
          (ap is_interrupt w.last ∙ w.settled)
      ∙ ap (λ b. finished (settle error_of b) (c ∷ repeated n c log)) w.last

  abbrev pub action_call : ℕ → ℤ → Call
  action_call nr action =
      seccomp_call nr seccomp_get_action_avail (pos 0) (buffer (bytes_of 4 (wrap 32 action)))

  -- On Linux and a known machine: `action_supported` is made by one call, which is repeated while
  -- signals interrupt it, given fuel for that. It is true if the kernel accepts, false for EINVAL,
  -- ENOSYS and EOPNOTSUPP, and raises for any other errno.
  pub action_supported-Answers :
      (nr : ℕ) (action : ℤ) (n : ℕ) (log : Log) (a : Answer)
      → seccomp_nr host ≡ ok nr
      → Answers n (action_call nr action) log a
      → action_supported host fuel action log
        ≡ finished
            (action_answer a)
            (action_call nr action ∷ repeated n (action_call nr action) log)
  unfolding action_supported action_avail not_action error_of
  action_supported-Answers nr action n log a known w = ground (
    arith,
    seccomp-Answers nr seccomp_get_action_avail (pos 0) (buffer (bytes_of 4 (wrap 32 action))) n log
        a known w,
  )

  abbrev pub flag_call : ℕ → ℤ → Call
  flag_call nr flag = seccomp_call nr seccomp_set_mode_filter flag null

  -- On Linux and a known machine: `flag_supported` is made by one call, with a NULL program, which is
  -- repeated while signals interrupt it, given fuel for that. It is true if the kernel accepts or
  -- says EFAULT or EACCES, false for EINVAL, ENOSYS and EOPNOTSUPP, and raises for any other errno.
  pub flag_supported-Answers :
      (nr : ℕ) (flag : ℤ) (n : ℕ) (log : Log) (a : Answer)
      → seccomp_nr host ≡ ok nr
      → Answers n (flag_call nr flag) log a
      → flag_supported host fuel flag log
        ≡ finished (flag_answer a) (flag_call nr flag ∷ repeated n (flag_call nr flag) log)
  unfolding flag_supported probe_flag probed false_if_unsupported error_of
  flag_supported-Answers nr flag n log a known w =
      ground (arith, seccomp-Answers nr seccomp_set_mode_filter flag null n log a known w)

  abbrev lacks_operation : Answer → Bool
  lacks_operation a = failed a.ret && (a.errno == enosys || a.errno == eopnotsupp)

  abbrev filters_answer : Answer → Result Bool
  filters_answer a =
      if not (failed a.ret) || a.errno == einval then ok true else err (seccomp_error a.errno)

  -- The calls behind the first probe and behind the second.
  abbrev first_log : ℕ → ℕ → Log → Log
  first_log nr n log =
      action_call nr (pos Action.allow) ∷ repeated n (action_call nr (pos Action.allow)) log

  abbrev second_log : ℕ → ℕ → ℕ → Log → Log
  second_log nr n m log =
      flag_call nr (pos 0) ∷ repeated m (flag_call nr (pos 0)) (first_log nr n log)

  second_probe-Answers :
      (nr : ℕ) (m : ℕ) (log : Log) (b : Answer) (o : Option ℕ)
      → seccomp_nr host ≡ ok nr
      → Answers m (flag_call nr (pos 0)) log b
      → second_probe host fuel (unsupported_error o) log
        ≡ finished (flag_answer b) (flag_call nr (pos 0) ∷ repeated m (flag_call nr (pos 0)) log)
  unfolding second_probe flag_supported
  second_probe-Answers nr m log b o known w = flag_supported-Answers nr (pos 0) m log b known w

  -- On Linux and a known machine: `supported` asks for the action ALLOW and is true if the kernel
  -- accepts or says EINVAL. If the answer is ENOSYS or EOPNOTSUPP it probes the flags 0, and is what
  -- that probe says; any other errno it raises. Interrupted calls are repeated, given fuel for that.
  pub supported-Answers :
      (nr n m : ℕ) (log : Log) (a b : Answer)
      → seccomp_nr host ≡ ok nr
      → Answers n (action_call nr (pos Action.allow)) log a
      → Answers m (flag_call nr (pos 0)) (first_log nr n log) b
      → supported host fuel log ≡ (
          if lacks_operation a
          then finished (flag_answer b) (second_log nr n m log)
          else finished (filters_answer a) (first_log nr n log))
  unfolding supported action_avail second_probe error_of
  supported-Answers nr n m log a b known w v = ground (
    arith,
    seccomp-Answers nr seccomp_get_action_avail (pos 0)
        (buffer (bytes_of 4 (wrap 32 (pos Action.allow)))) n log a known w,
    second_probe-Answers nr m (first_log nr n log) b (some a.errno) known v,
  )

  -- A machine without seccomp numbers, or a system that is not Linux, with fuel for one round.
  abbrev pub CannotCall : Type 0
  CannotCall =
      (seccomp_nr host ≡ err (unsupported_error none)) ⊎ ((host.is_linux ≡ false) × (0 < fuel))

  seccomp_nr-cases :
      (seccomp_nr host ≡ err (unsupported_error none)) ⊎ ((nr : ℕ) × (seccomp_nr host ≡ ok nr))
  unfolding seccomp_nr
  seccomp_nr-cases = elim (Option-cases (lookup host.machine sys_seccomp)) [
    | inl none_found ↦ inl (ap (λ o. or_raise o (unsupported_error none)) none_found)
    | inr (nr, found) ↦ inr (nr, ap (λ o. or_raise o (unsupported_error none)) found)
  ]

  retry-foreign :
      (raised : ℕ → Error) (fuel : ℕ) (c : Call) (log : Log)
      → host.is_linux ≡ false
      → 0 < fuel
      → retry host raised fuel c log ≡ finished (err (unsupported_error none)) log
  unfolding retry
  retry-foreign raised zero c log foreign h = absurd (omega (arith, h))
  retry-foreign raised (suc fuel) c log foreign h = ground (arith, foreign)

  seccomp-CannotCall :
      (op : ℕ) (flags : ℤ) (uargs : Arg) (log : Log)
      → CannotCall
      → seccomp host fuel op flags uargs log ≡ finished (err (unsupported_error none)) log
  unfolding seccomp call
  seccomp-CannotCall op flags uargs log (inl unknown) = ground (arith, unknown)
  seccomp-CannotCall op flags uargs log (inr (foreign, some_fuel)) = elim seccomp_nr-cases [
    | inl unknown ↦ ground (arith, unknown)
    | inr (nr, known) ↦ ground (
      arith,
      known,
      retry-foreign error_of fuel (seccomp_call nr op flags uargs) log foreign some_fuel,
    )
  ]

  -- On a machine without seccomp numbers, or on a system that is not Linux with fuel for one round,
  -- all three probes return false for every argument, and make no call.
  pub probes_without_seccomp :
      (action flag : ℤ) (log : Log)
      → CannotCall
      → (supported host fuel log ≡ finished (ok false) log)
        × (action_supported host fuel action log ≡ finished (ok false) log)
        × (flag_supported host fuel flag log ≡ finished (ok false) log)
  unfolding supported action_supported flag_supported action_avail probe_flag probed
      false_if_unsupported not_action second_probe
  probes_without_seccomp action flag log cannot = (
    ground (
      arith,
      seccomp-CannotCall seccomp_get_action_avail (pos 0)
          (buffer (bytes_of 4 (wrap 32 (pos Action.allow)))) log cannot,
      seccomp-CannotCall seccomp_set_mode_filter (pos 0) null log cannot,
    ),
    ground (
      arith,
      seccomp-CannotCall seccomp_get_action_avail (pos 0) (buffer (bytes_of 4 (wrap 32 action))) log
          cannot,
    ),
    ground (arith, seccomp-CannotCall seccomp_set_mode_filter flag null log cannot),
  )
