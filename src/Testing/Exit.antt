-- ===== src/Testing/Exit.antt =====
-- src/seccompy/testing.py: what the parent learns of how the child ended.
use seccompy.Base.{
  ℕ, ◌+◌, ◌*◌, ◌^◌, ◌≡◌, ◌≤◌, ◌<◌, ◌⊎◌, inl, inr, refl, sym, ap, ap₂, ◌∙◌, subst, Bool, true, false,
  ◌&&◌, Option, none, some, [], ◌∷◌, arith, ltb, leb, ◌==◌, if◌then◌else◌, Bool-cases,
}
use seccompy.Base.Int.{ℤ, pos, same_int}
use seccompy.Errors.{Error, Result, ok, err, ok-injective, runtime_error}
use seccompy.Kernel.{
  Call, fork, waitpid, Log, Host, Io, raise, pure, ◌>>=◌, finished, finished-injective, failed,
  perform, os_call, attempt->>=-eq-ok, >>=-eq-ok,
}
use seccompy.Kernel.Structs.{bytes_of, number_of}
use seccompy.Kernel.Bytes.{number_of-bytes_of}
use seccompy.Filter.Object.{Filter}
use seccompy.Testing.{
  ProbeResult, errno_of, code_of, exit_code, result_of, restricted, child, dispatch, probe, returns,
  exits,
}

-- A child that ran to its end, that raised an exception, and that a signal killed.
abbrev pub completed : ProbeResult
completed = record { is_ok = true; errno = 0; signal = 0 }

abbrev pub raised_errno : ℕ → ProbeResult
raised_errno n = record { is_ok = false; errno = n; signal = 0 }

abbrev pub killed_by : ℕ → ProbeResult
killed_by s = record { is_ok = false; errno = 0; signal = s }

-- What the parent should learn: the end of the child, with the errno of an `OSError` if it is one
-- from 1 to 255.
pub data Learns : Result (Unit {0}) → ProbeResult → Type 0 where
  of_completion : (u : Unit {0}) → Learns (ok u) completed
  of_errno :
      (e : Error) (n : ℕ)
      → errno_of e ≡ some (some n)
      → 0 < n
      → n ≤ 255
      → Learns (err e) (raised_errno n)
  of_other_errno :
      (e : Error) (n : ℕ)
      → errno_of e ≡ some (some n)
      → ((n ≡ 0) ⊎ (255 < n))
      → Learns (err e) (raised_errno 255)
  of_no_errno : (e : Error) → errno_of e ≡ some none → Learns (err e) (raised_errno 1)
  of_exception : (e : Error) → errno_of e ≡ none → Learns (err e) (raised_errno 255)

-- The status of a child that exits with a code of 8 bits, and of one that a signal kills.
abbrev pub exited : ℕ → ℕ
exited code = code * 256

abbrev pub killed : ℕ → Bool → ℕ
killed s core = s + (if core then 128 else 0)

exit_code-le : (r : Result (Unit {0})) → exit_code r ≤ 255
unfolding exit_code
exit_code-le (ok u) = omega arith
exit_code-le (err e) = code_le (errno_of e)
  where
    code_le : (o : Option (Option ℕ)) → code_of o ≤ 255
    code_le none = omega arith
    code_le (some none) = omega arith
    code_le (some (some n)) = ground arith

result_of-exited :
    (code : ℕ)
    → code ≤ 255
    → result_of (exited code) ≡ (if code == 0 then completed else raised_errno code)
unfolding result_of
result_of-exited code h = ground arith

result_of-Learns : (r : Result (Unit {0})) → Learns r (result_of (exited (exit_code r)))
unfolding exit_code
result_of-Learns r =
    subst (Learns r) (sym (result_of-exited (exit_code r) (exit_code-le r))) (learned r)
  where
    of_err :
        (e : Error) (o : Option (Option ℕ))
        → errno_of e ≡ o
        → Learns (err e) (if code_of o == 0 then completed else raised_errno (code_of o))
    of_err e none same = of_exception e same
    of_err e (some none) same = of_no_errno e same
    of_err e (some (some n)) same = elim (Bool-cases (ltb 0 n && leb n 255)) [
      | inl fits ↦
          subst (Learns (err e)) (ground arith) (of_errno e n same (ground arith) (ground arith))
      | inr alias ↦ subst (Learns (err e)) (ground arith) (of_other_errno e n same (ground arith))
    ]

    learned :
        (r : Result (Unit {0}))
        → Learns r (if exit_code r == 0 then completed else raised_errno (exit_code r))
    learned (ok u) = of_completion u
    learned (err e) = of_err e (errno_of e) refl

result_of-killed : (s : ℕ) (core : Bool) → 0 < s → s < 127 → result_of (killed s core) ≡ killed_by s
unfolding result_of
result_of-killed s true low high = ground arith
result_of-killed s false low high = ground arith

module _ (host : Host) (fuel : ℕ) (f : Filter) (fn : Io (Unit {0})) where
  dispatch-exits :
      (pid : ℤ) (log : Log) (code : ℕ) {end : Log}
      → dispatch host fuel f fn pid log ≡ finished (ok (exits code)) end
      → child host fuel f fn log ≡ finished (ok code) end
  unfolding dispatch
  dispatch-exits pid log code {end} h = by_test (same_int pid (pos 0)) h
    where
      by_test :
          (b : Bool)
          → (if b
                then (child host fuel f fn >>= λ code. pure (exits code))
                else (os_call host (waitpid pid 0) >>= λ a.
                    pure (returns (result_of (number_of 4 a.out)))))
              log
            ≡ finished (ok (exits code)) end
          → child host fuel f fn log ≡ finished (ok code) end
      by_test true h =
          let (code', mid, e, q) = >>=-eq-ok (child host fuel f fn) _ log h in
          let (same, last) = finished-injective q in
          let same_code : code' ≡ code = cc in e ∙ ap₂ (λ c t. finished (ok c) t) same_code last
      by_test false h =
          let (a, mid, e, q) = >>=-eq-ok (os_call host (waitpid pid 0)) _ log h in absurd (cc)

  -- A run that ends in `os._exit` is the child's.
  probe-exits :
      (log : Log) (code : ℕ) {end : Log}
      → f.loaded ≡ false
      → probe host fuel f fn log ≡ finished (ok (exits code)) end
      → child host fuel f fn (fork ∷ log) ≡ finished (ok code) end
  unfolding probe os_call perform
  probe-exits log code {end} fresh h =
      let (a, mid, e, q) =
        >>=-eq-ok (os_call host fork) (λ a. dispatch host fuel f fn a.ret) log
          (sym (
              ap
                (λ b.
                  (if b
                      then raise runtime_error
                      else (os_call host fork >>= λ a. dispatch host fuel f fn a.ret))
                    log)
                fresh)
            ∙ h) in
      let at_fork : mid ≡ fork ∷ log = ground (arith, e) in
      dispatch-exits a.ret (fork ∷ log) code
        (subst (λ t. dispatch host fuel f fn a.ret t ≡ finished (ok (exits code)) end) at_fork q)

module _ (host : Host) (fuel : ℕ) (f : Filter) (fn : Io (Unit {0})) where
  module _ (log : Log) where
    -- The calls of a probe whose fork gave this process id.
    abbrev forked : Log
    forked = fork ∷ log

    abbrev wait_call : Call
    wait_call = waitpid (host.answer log fork).ret 0

    -- The fork and the wait succeed, and the wait gives this status.
    pub record Waited (status : ℕ) : Type 0 where
      pub fresh : f.loaded ≡ false
      pub forks : failed (host.answer log fork).ret ≡ false
      pub is_parent : same_int (host.answer log fork).ret (pos 0) ≡ false
      pub waits : failed (host.answer forked wait_call).ret ≡ false
      pub out : (host.answer forked wait_call).out ≡ bytes_of 4 status
      pub status_lt : status < 2 ^ 32

    probe-Waited :
        (status : ℕ)
        → Waited status
        → probe host fuel f fn log ≡ finished (ok (returns (result_of status))) (wait_call ∷ forked)
    unfolding probe dispatch os_call perform
    probe-Waited status w = ground (
      arith,
      w.fresh,
      w.forks,
      w.is_parent,
      w.waits,
      w.out,
      number_of-bytes_of 4 status [] (omega (arith, w.status_lt)),
    )

    -- If `probe` of a filter not loaded ends in the child, on a host of its own, with `os._exit`, and in
    -- the parent the fork and the wait succeed and give that exit status, then `probe` returns to the
    -- parent what the end of the load and of the function in the child says: completion, the errno of
    -- an `OSError` from 1 to 255, 255 for any other errno or exception, and 1 for an `OSError` without
    -- errno.
    pub probe-Learns :
        (inner : Host) (begin end : Log) (code : ℕ)
        → probe inner fuel f fn begin ≡ finished (ok (exits code)) end
        → Waited (exited code)
        → (r : Result (Unit {0})) × (p : ProbeResult) × (restricted inner fuel f fn (fork ∷ begin)
            ≡ finished r end)
          × Learns r p
          × (probe host fuel f fn log ≡ finished (ok (returns p)) (wait_call ∷ forked))
    unfolding child
    probe-Learns inner begin end code h w =
        let run = probe-exits inner fuel f fn begin code w.fresh h in
        let (r, mid, e, q) = attempt->>=-eq-ok (restricted inner fuel f fn) _ (fork ∷ begin) run in
        let (same, last) = finished-injective q in
        (
          r,
          result_of (exited code),
          subst (λ t. restricted inner fuel f fn (fork ∷ begin) ≡ finished r t) last e,
          subst (λ t. Learns r (result_of (exited t))) (ok-injective same) (result_of-Learns r),
          probe-Waited (exited code) w,
        )

    -- If a signal from 1 to 126 killed the child, with or without a core dump, and the fork and the
    -- wait succeed and give that status, `probe` returns that signal and no errno to the parent.
    pub probe-killed :
        (s : ℕ) (core : Bool)
        → 0 < s
        → s < 127
        → Waited (killed s core)
        → probe host fuel f fn log ≡ finished (ok (returns (killed_by s))) (wait_call ∷ forked)
    probe-killed s core low high w =
        subst (λ t. probe host fuel f fn log ≡ finished (ok (returns t)) (wait_call ∷ forked))
          (result_of-killed s core low high) (probe-Waited (killed s core) w)
