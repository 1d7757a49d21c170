-- ===== src/Notify/Session.antt =====
-- src/seccompy/notify.py: a `Listener` from its construction on, through any calls of its methods.
use seccompy.Base.{
  ℕ, ◌+◌, ◌≡◌, refl, sym, ap, ◌∙◌, subst, inl, inr, Bool, true, false, not, ◌&&◌, List, [], ◌∷◌,
  ◌++◌, arith, if◌then◌else◌, All, Bool-cases,
}
use seccompy.Base.Int.{ℤ, same_int, same_int_self}
use seccompy.Errors.{Result, ok, ok-injective}
use seccompy.Kernel.{
  Call, syscall, set_inheritable, Answer, Log, Host, Outcome, waiting, finished, Io, pure, raise,
  ◌>>=◌, catch, attempt, failed, finished-injective, attempt->>=-eq-ok, >>=-eq-ok,
}
use seccompy.Kernel
use seccompy.Notify.Listener.{Listener, new_listener}
use seccompy.Notify.Uses.{Use, step, is_closing, after}
use seccompy.Notify.Opening.{
  IsSyscall, of_nr, Opening, opens, leaks, closes as closes_fd, new_listener-Opening,
}
use seccompy.Notify.Quiet.{IsOwn, of_fd}
use seccompy.Notify.Lifecycle.{step-Keeps, step-Closes}

-- The call closes the descriptor.
abbrev pub is_close : ℤ → Call → Bool
is_close fd (Kernel.close z) = same_int z fd
is_close fd _ = false

module _ (host : Host) where
  -- How often the descriptor was closed, failures not counted.
  unfoldable pub closes : ℤ → Log → ℕ
  closes fd [] = 0
  closes fd (c ∷ log) =
      (if is_close fd c && not (failed (host.answer log c).ret) then 1 else 0) + closes fd log

  closes-Adds :
      (P : Call → Type 0) (fd : ℤ)
      → ((c : Call) → P c → is_close fd c ≡ false)
      → (cs : List Call) (log : Log) → All P cs
      → closes fd (cs ++ log) ≡ closes fd log
  unfolding closes
  closes-Adds P fd out [] log q = refl
  closes-Adds P fd out (c ∷ cs) log q = ground (arith, out c q.0, closes-Adds P fd out cs log q.1)

  IsOwn-is_close : (l : Listener) (c : Call) → IsOwn l c → is_close l.fd c ≡ false
  IsOwn-is_close l _ (of_fd request arg e) = refl

  module _ (fuel : ℕ) where
    -- The states of a listener on `fd` that was constructed where the calls were `start`, and the
    -- calls made by then: a method may be called at any time, whatever came of the last one.
    pub data Session (fd : ℤ) (start : Log) : Listener → Log → Type 0 where
      opened :
          (l : Listener) (log : Log)
          → new_listener host fuel fd start ≡ finished (ok l) log
          → Session fd start l log
      used :
          (l : Listener) (log : Log) (u : Use) (r : Result Listener) (log' : Log)
          → Session fd start l log
          → step host fuel u l log ≡ finished r log'
          → Session fd start (after l r) log'

    -- Where every call but `close` leads from a state in which it was closed as often as this says.
    abbrev closed_times : Listener → ℕ
    closed_times l = if l.closed then 1 else 0

    abbrev Counts : ℤ → Log → Listener → Log → Type 0
    Counts fd start l log = (l.fd ≡ fd) × (closes fd log ≡ closes fd start + closed_times l)

    -- A closed listener makes no call any more and stays as it is, whatever method is called.
    pub closed_listener_makes_no_call :
        (l : Listener) (u : Use) (log : Log) (r : Result Listener) (log' : Log)
        → l.closed ≡ true
        → step host fuel u l log ≡ finished r log'
        → (log' ≡ log) × (after l r ≡ l)
    closed_listener_makes_no_call l u log r log' shut h = elim (Bool-cases (is_closing u)) [
      | inl c ↦ elim (step-Closes host fuel l u log r log' c h) [
        | inl (_, same, end) ↦ (end, same)
        | inr (unclosed, _, _) ↦ absurd (cc)
      ]
      | inr no_close ↦
          let (same, (cs, own, end)) = step-Keeps host fuel l u log r log' no_close h in
          (end ∙ none_own cs own, same)
    ]
      where
        none_own : (cs : List Call) → All (IsOwn l) cs → cs ++ log ≡ log
        none_own [] own = refl
        none_own (c ∷ cs) own = absurd (not_own own.0)
          where
            not_own : {c : Call} → IsOwn l c → ⊥
            not_own (of_fd request arg e) = cc

    step-Counts :
        (fd : ℤ) (start : Log) (l : Listener) (log : Log) (u : Use) (r : Result Listener)
        (log' : Log)
        → Counts fd start l log
        → step host fuel u l log ≡ finished r log'
        → Counts fd start (after l r) log'
    unfolding closes
    step-Counts fd start l log u r log' (same_fd, count) h = elim (Bool-cases (is_closing u)) [
      | inl c ↦ elim (step-Closes host fuel l u log r log' c h) [
        | inl (shut, same, end) ↦
            subst (λ t. Counts fd start t log') (sym same) (same_fd, ap (closes fd) end ∙ count)
        | inr (unclosed, end, same) ↦
            subst (λ t. Counts fd start t log') (sym same)
              (
                same_fd,
                ap (closes fd) end
                    ∙ subst
                        (λ t.
                          closes fd (Kernel.close t ∷ log)
                          ≡ closes fd start
                            + (if not (failed (host.answer log (Kernel.close t)).ret)
                                then 1
                                else 0))
                        (sym same_fd) (one_more unclosed),
              )
      ]
      | inr no_close ↦
          let (same, (cs, own, end)) = step-Keeps host fuel l u log r log' no_close h in
          subst (λ t. Counts fd start t log') (sym same)
            (
              same_fd,
              ap (closes fd) end
                  ∙ closes-Adds (IsOwn l) fd
                      (subst (λ t. (c : Call) → IsOwn l c → is_close t c ≡ false) same_fd
                        (IsOwn-is_close l))
                      cs log own
                  ∙ count,
            )
    ]
      where
        one_more :
            l.closed ≡ false
            → closes fd (Kernel.close fd ∷ log)
              ≡ closes fd start
                + (if not (failed (host.answer log (Kernel.close fd)).ret) then 1 else 0)
        one_more unclosed = ground (arith, same_int_self fd, count)

    IsSyscall-is_close : (fd : ℤ) (c : Call) → IsSyscall c → is_close fd c ≡ false
    IsSyscall-is_close fd _ (of_nr nr args) = refl

    opened-Counts :
        (fd : ℤ) (start : Log) (l : Listener) (log : Log)
        → new_listener host fuel fd start ≡ finished (ok l) log
        → Counts fd start l log
    unfolding closes
    opened-Counts fd start l log h =
        let (mid, (cs, all, made), opening) =
          new_listener-Opening host fuel fd start (ok l) log h in
        of_Opening mid opening
          (ap (closes fd) made ∙ closes-Adds IsSyscall fd (IsSyscall-is_close fd) cs start all)
      where
        of_Opening :
            (mid : Log)
            → Opening host fuel fd start mid (ok l) log
            → closes fd mid ≡ closes fd start
            → Counts fd start l log
        of_Opening mid (opens e same end) count =
            subst (λ t. Counts fd start t log) (sym (ok-injective same))
              (refl, ground (arith, ap (closes fd) end))
        of_Opening mid (closes_fd x e same end) count = absurd (cc)
        of_Opening mid (leaks x e bad same end) count = absurd (cc)

    -- At any time of a session on `fd` the listener's descriptor is `fd`, and since the session's
    -- start it has been closed once if the listener is closed, and not at all if it is open; a close
    -- that the kernel fails does not count.
    pub Session-closed_once :
        (fd : ℤ) (start : Log) (l : Listener) (log : Log)
        → Session fd start l log
        → (l.fd ≡ fd) × (closes fd log ≡ closes fd start + (if l.closed then 1 else 0))
    Session-closed_once fd start l log (opened _ _ h) = opened-Counts fd start l log h
    Session-closed_once fd start _ log (used l before u r _ s h) =
        step-Counts fd start l before u r log (Session-closed_once fd start l before s) h
