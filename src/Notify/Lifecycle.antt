-- ===== src/Notify/Lifecycle.antt =====
-- src/seccompy/notify.py: the life of a `Listener` and of its descriptor.
use seccompy.Base.{
  ℕ, ◌≡◌, refl, sym, ap, ◌∙◌, ◌⊎◌, inl, inr, true, false, not, [], ◌∷◌, arith, Bool-cases,
}
use seccompy.Errors.{Result, ok, err}
use seccompy.Kernel.{
  Call, Answer, Log, Host, Outcome, waiting, finished, Io, pure, raise, lift, ◌>>=◌, catch, failed,
  finished-injective,
}
use seccompy.Kernel
use seccompy.Kernel.Only.{Only, Adds, Only-lift}
use seccompy.Notify.Listener.{Listener}
use seccompy.Notify.Listener
use seccompy.Notify.Uses.{
  Use, fileno, recv, respond, addfd, valid, set_flags, enter, copy, close, exit, del, step,
  is_closing, after,
}
use seccompy.Notify.Quiet.{
  IsOwn, Quiet-recv, Quiet-respond, Quiet-addfd, Quiet-valid, Quiet-set_flags,
}

module _ (host : Host) (fuel : ℕ) (l : Listener) where
  -- What a call does to the calls made and to the listener.
  abbrev pub Keeps : Result Listener → Log → Log → Type 0
  Keeps r log log' = (after l r ≡ l) × Adds (IsOwn l) log log'

  quiet-Keeps {ℓ} :
      {A : Type ℓ} (m : Io A) (log : Log) (r : Result Listener) (log' : Log)
      → Only (IsOwn l) m
      → (m >>= λ _. pure l) log ≡ finished r log'
      → Keeps r log log'
  quiet-Keeps {A} m log r log' q h = split (m log) refl h
    where
      split :
          (o : Outcome A)
          → m log ≡ o
          → Kernel.follow (Kernel.proceed (λ _. pure l)) o ≡ finished r log'
          → Keeps r log log'
      split waiting e h = absurd (cc)
      split (finished (err x) mid) e h =
          let (same, end) = finished-injective h in
          (ap (after l) (sym same), q.adds log (err x) log' (e ∙ ap (λ t. finished (err x) t) end))
      split (finished (ok a) mid) e h =
          let (same, end) = finished-injective h in
          (ap (after l) (sym same), q.adds log (ok a) log' (e ∙ ap (λ t. finished (ok a) t) end))

  enter-Keeps :
      (log : Log) (r : Result Listener) (log' : Log)
      → Listener.enter host l log ≡ finished r log'
      → Keeps r log log'
  unfolding Listener.enter
  enter-Keeps log r log' h = elim (Bool-cases l.closed) [
    | inl shut ↦ (ground arith, ([], tt, ground arith))
    | inr open_ ↦ (ground arith, ([], tt, ground arith))
  ]

  pub step-Keeps :
      (u : Use) (log : Log) (r : Result Listener) (log' : Log)
      → is_closing u ≡ false
      → step host fuel u l log ≡ finished r log'
      → Keeps r log log'
  unfolding step
  step-Keeps fileno log r log' no_close h =
      quiet-Keeps (lift (Listener.fileno l)) log r log' (Only-lift (IsOwn l) _) h
  step-Keeps recv log r log' no_close h = quiet-Keeps _ log r log' (Quiet-recv host fuel l) h
  step-Keeps (respond id error val flags) log r log' no_close h =
      quiet-Keeps _ log r log' (Quiet-respond host fuel l id error val flags) h
  step-Keeps (addfd id fd flags newfd newfd_flags) log r log' no_close h =
      quiet-Keeps _ log r log' (Quiet-addfd host fuel l id fd flags newfd newfd_flags) h
  step-Keeps (valid id) log r log' no_close h =
      quiet-Keeps _ log r log' (Quiet-valid host fuel l id) h
  step-Keeps (set_flags flags) log r log' no_close h =
      quiet-Keeps _ log r log' (Quiet-set_flags host fuel l flags) h
  step-Keeps enter log r log' no_close h = enter-Keeps log r log' h
  step-Keeps copy log r log' no_close h =
      let (same, end) = finished-injective h in (ap (after l) (sym same), ([], tt, sym end))
  step-Keeps close log r log' no_close h = absurd (cc)
  step-Keeps exit log r log' no_close h = absurd (cc)
  step-Keeps del log r log' no_close h = absurd (cc)

  -- What closing does: nothing to a closed listener; otherwise one call, after which the listener is
  -- closed unless the kernel failed it.
  abbrev pub Closes : Result Listener → Log → Log → Type 0
  Closes r log log' =
      ((l.closed ≡ true) × (after l r ≡ l) × (log' ≡ log))
      ⊎ ((l.closed ≡ false)
          × (log' ≡ Kernel.close l.fd ∷ log)
          × (after l r
              ≡ record l { closed = not (failed (host.answer log (Kernel.close l.fd)).ret) }))

  close-Closes :
      (log : Log) (r : Result Listener) (log' : Log)
      → Listener.close_listener host l log ≡ finished r log'
      → Closes r log log'
  unfolding Listener.close_listener Kernel.os_call Kernel.perform
  close-Closes log r log' h = elim (Bool-cases l.closed) [
    | inl shut ↦ inl (shut, ground arith, ground arith)
    | inr opened ↦ elim (Bool-cases (failed (host.answer log (Kernel.close l.fd)).ret)) [
      | inl bad ↦ inr (opened, ground arith, ground arith)
      | inr good ↦ inr (opened, ground arith, ground arith)
    ]
  ]

  del-Closes :
      (log : Log) (r : Result Listener) (log' : Log)
      → Listener.del host l log ≡ finished r log'
      → Closes r log log'
  unfolding Listener.del Listener.close_listener Kernel.os_call Kernel.perform
  del-Closes log r log' h = elim (Bool-cases l.closed) [
    | inl shut ↦ inl (shut, ground arith, ground arith)
    | inr opened ↦ elim (Bool-cases (failed (host.answer log (Kernel.close l.fd)).ret)) [
      | inl bad ↦ inr (opened, ground arith, ground arith)
      | inr good ↦ inr (opened, ground arith, ground arith)
    ]
  ]

  pub step-Closes :
      (u : Use) (log : Log) (r : Result Listener) (log' : Log)
      → is_closing u ≡ true
      → step host fuel u l log ≡ finished r log'
      → Closes r log log'
  unfolding step Listener.exit
  step-Closes close log r log' c h = close-Closes log r log' h
  step-Closes exit log r log' c h = close-Closes log r log' h
  step-Closes del log r log' c h = del-Closes log r log' h
  step-Closes _ log r log' c h = absurd (cc)
