-- ===== src/Kernel/Retry.antt =====
-- src/seccompy/_syscall.py: the loop that makes an interrupted call again.
use seccompy.Base.{
  ℕ, zero, suc, ◌<◌, ◌≡◌, refl, sym, ◌∙◌, subst, inl, inr, Bool, true, false, ◌&&◌, none, ◌∷◌,
  arith, ◌==◌, if◌then◌else◌, Bool-cases,
}
use seccompy.Errors.{Error, Result, ok, err, unsupported_error, ok-injective}
use seccompy.Kernel.{
  Call, Answer, Log, Host, finished, pure, ◌>>=◌, failed, >>=-eq-ok, finished-injective,
}
use seccompy.Base.Int.{ℤ}
use seccompy.Kernel.Calls.{retry, eintr}

-- The answer says that a signal interrupted the call.
abbrev pub is_interrupt : Answer → Bool
is_interrupt a = failed a.ret && a.errno == eintr

-- What a call's last answer comes to.
abbrev pub settle : (ℕ → Error) → Answer → Result Answer
settle raised a = if failed a.ret then err (raised a.errno) else ok a

-- A call made `n` times.
abbrev pub repeated : ℕ → Call → Log → Log
repeated zero c log = log
repeated (suc n) c log = repeated n c (c ∷ log)

module _ (host : Host) where
  -- The next `n` answers to the call are interruptions.
  abbrev pub Interrupted : ℕ → Call → Log → Type 0
  Interrupted zero c log = Unit
  Interrupted (suc n) c log = (is_interrupt (host.answer log c) ≡ true) × Interrupted n c (c ∷ log)

  -- On Linux, a call that signals interrupt `n` times, with fuel for more rounds than that, is made
  -- `n + 1` times and nothing else is, and comes to what the last answer says: its value, or the
  -- exception for its errno.
  pub retry-Interrupted :
      (raised : ℕ → Error) (fuel n : ℕ) (c : Call) (log : Log)
      → host.is_linux ≡ true
      → n < fuel
      → Interrupted n c log
      → is_interrupt (host.answer (repeated n c log) c) ≡ false
      → retry host raised fuel c log
        ≡ finished (settle raised (host.answer (repeated n c log) c)) (c ∷ repeated n c log)
  unfolding retry
  retry-Interrupted raised zero n c log linux h i last = absurd (omega arith)
  retry-Interrupted raised (suc fuel) zero c log linux h i last = ground arith
  retry-Interrupted raised (suc fuel) (suc n) c log linux h i last =
      ground (arith, i.0, retry-Interrupted raised fuel n c (c ∷ log) linux (omega arith) i.1 last)

  -- The two ways in which a loop ends.
  pub data Retried (raised : ℕ → Error) (c : Call) (log : Log) (r : Result Answer) (log' : Log)
      : Type 0 where
    no_linux :
        host.is_linux ≡ false
        → r ≡ err (unsupported_error none)
        → log' ≡ log
        → Retried raised c log r log'
    answered :
        host.is_linux ≡ true
        → (n : ℕ) (a : Answer) → Interrupted n c log
        → log' ≡ c ∷ repeated n c log
        → host.answer (repeated n c log) c ≡ a
        → is_interrupt a ≡ false
        → r ≡ settle raised a
        → Retried raised c log r log'

  -- A call's loop that ends has done so in one of two ways. Off Linux it has made no call and raises
  -- an `UnsupportedError`. On Linux it has made its call any number of times that were interrupted,
  -- then once more with an answer that is no interruption, and its result is what that answer says.
  pub retry-Retried :
      (raised : ℕ → Error) (fuel : ℕ) (c : Call) (log : Log) (r : Result Answer) (log' : Log)
      → retry host raised fuel c log ≡ finished r log'
      → Retried raised c log r log'
  unfolding retry
  retry-Retried raised zero c log r log' h = absurd (cc)
  retry-Retried raised (suc fuel) c log r log' h = elim (Bool-cases host.is_linux) [
    | inr foreign ↦ no_linux foreign (ground arith) (ground arith)
    | inl linux ↦ elim (Bool-cases (is_interrupt (host.answer log c))) [
      | inr last ↦ answered linux 0 (host.answer log c) tt (ground arith) refl last (ground arith)
      | inl again ↦
          once_more linux again (retry-Retried raised fuel c (c ∷ log) r log' (ground arith))
    ]
  ]
    where
      once_more :
          host.is_linux ≡ true
          → is_interrupt (host.answer log c) ≡ true
          → Retried raised c (c ∷ log) r log'
          → Retried raised c log r log'
      once_more linux again (no_linux foreign e q) = absurd (cc)
      once_more linux again (answered _ n a i q e last p) =
          answered linux (suc n) a (again, i) q e last p

  -- A loop that returns a value has made its call, and no other, until an answer was no failure.
  pub retry-eq-ok :
      (raised : ℕ → Error) (fuel : ℕ) (c : Call) (log : Log) {a : Answer} {log' : Log}
      → retry host raised fuel c log ≡ finished (ok a) log'
      → (n : ℕ) × Interrupted n c log
        × (log' ≡ c ∷ repeated n c log)
        × (host.answer (repeated n c log) c ≡ a)
        × (failed a.ret ≡ false)
  retry-eq-ok raised fuel c log {a} {log'} h =
      of_Retried (retry-Retried raised fuel c log (ok a) log' h)
    where
      of_Retried :
          Retried raised c log (ok a) log'
          → (n : ℕ) × Interrupted n c log
            × (log' ≡ c ∷ repeated n c log)
            × (host.answer (repeated n c log) c ≡ a)
            × (failed a.ret ≡ false)
      of_Retried (no_linux foreign e q) = absurd (cc)
      of_Retried (answered linux n b i q e last p) =
          let same : (failed b.ret ≡ false) × (b ≡ a) = settled b p in
          (n, i, q, e ∙ same.1, subst (λ t. failed t.ret ≡ false) same.1 same.0)
        where
          settled : (b : Answer) → ok a ≡ settle raised b → (failed b.ret ≡ false) × (b ≡ a)
          settled b p = elim (Bool-cases (failed b.ret)) [
            | inl bad ↦ absurd (ground arith)
            | inr good ↦ (good, ground arith)
          ]

  -- The call `c` was made, interrupted any number of times before, and the kernel accepted it.
  abbrev pub Accepted : Call → Log → Log → Type 0
  Accepted c log log' =
      (n : ℕ) × Interrupted n c log
      × (log' ≡ c ∷ repeated n c log)
      × (failed (host.answer (repeated n c log) c).ret ≡ false)

  -- The same, with the value that the kernel returned.
  abbrev pub Returned : Call → ℤ → Log → Log → Type 0
  Returned c ret log log' =
      (n : ℕ) × Interrupted n c log
      × (log' ≡ c ∷ repeated n c log)
      × ((host.answer (repeated n c log) c).ret ≡ ret)
      × (failed ret ≡ false)

  -- A loop whose value is passed on.
  pub retry-Accepted {ℓ} :
      {B : Type ℓ} (raised : ℕ → Error) (fuel : ℕ) (c : Call) (k : Answer → B) (log : Log) {b : B}
      {log' : Log}
      → (retry host raised fuel c >>= λ a. pure (k a)) log ≡ finished (ok b) log'
      → Accepted c log log'
        × ((a : Answer) × (k a ≡ b) × (mid : Log) × (host.answer mid c ≡ a) × (log' ≡ c ∷ mid))
  retry-Accepted raised fuel c k log {b} {log'} h =
      let (a, mid, e, q) = >>=-eq-ok (retry host raised fuel c) _ log h in
      let (n, i, made, last, good) = retry-eq-ok raised fuel c log e in
      let (same, end) = finished-injective q in
      (
        (n, i, sym end ∙ made, subst (λ t. failed t.ret ≡ false) (sym last) good),
        (a, ok-injective same, repeated n c log, last, sym end ∙ made),
      )
