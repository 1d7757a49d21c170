-- ===== src/Kernel/Only.antt =====
-- Which calls a computation makes: one rule for each way to build a computation.
use mathlib.Core.List.{append_assoc}
use seccompy.Base.{
  ℕ, zero, suc, ◌≡◌, refl, sym, ap, ◌∙◌, Bool, true, false, some, List, [], ◌∷◌, ◌++◌, All,
  All-append, if◌then◌else◌,
}
use seccompy.Errors.{Error, Result, ok, err, os_error}
use seccompy.Kernel.{
  Call, Answer, Log, Host, Outcome, waiting, finished, Io, pure, raise, lift, follow, proceed,
  ◌>>=◌, attempt, catch, perform, os_call, finished-injective, failed,
}
use seccompy.Kernel.Calls.{retry}
use seccompy.Kernel.Retry.{repeated, Retried, no_linux, answered, retry-Retried}

module _ (P : Call → Type 0) where
  -- The later log adds calls that satisfy `P`.
  abbrev pub Adds : Log → Log → Type 0
  Adds log log' = (cs : List Call) × All P cs × (log' ≡ cs ++ log)

  Adds-trans : (a b c : Log) → Adds a b → Adds b c → Adds a c
  Adds-trans a b c (cs, p, e) (ds, q, d) = (
    ds ++ cs,
    All-append P ds cs q p,
    d ∙ ap (λ (t : Log). ds ++ t) e ∙ sym (append_assoc ds cs a),
  )

  -- However `m` ends, the calls that it has made satisfy `P`.
  pub record Only {ℓ} {A : Type ℓ} (m : Io A) : Type ℓ where
    pub adds : (log : Log) (r : Result A) (log' : Log) → m log ≡ finished r log' → Adds log log'

  pub Only-lift {ℓ} : {A : Type ℓ} (r : Result A) → Only (lift r)
  Only-lift r = record { adds = λ log s log' h. ([], tt, sym (finished-injective h).1) }

  pub Only-pure {ℓ} : {A : Type ℓ} (a : A) → Only (pure a)
  Only-pure a = Only-lift (ok a)

  pub Only-raise {ℓ} : {A : Type ℓ} (e : Error) → Only (raise {A = A} e)
  Only-raise e = Only-lift (err e)

  pub Only-if {ℓ} :
      {A : Type ℓ} (b : Bool) (m n : Io A) → Only m → Only n → Only (if b then m else n)
  Only-if true m n p q = p
  Only-if false m n p q = q

  follow-Adds {ℓ κ} :
      {A : Type ℓ} {B : Type κ} (o : Outcome A) (k : Result A → Io B) (log : Log) (s : Result B)
      (log' : Log)
      → ((r : Result A) (mid : Log) → o ≡ finished r mid → Adds log mid)
      → ((r : Result A) → Only (k r))
      → follow k o ≡ finished s log'
      → Adds log log'
  follow-Adds waiting k log s log' p q h = absurd (cc)
  follow-Adds (finished r mid) k log s log' p q h =
      Adds-trans log mid log' (p r mid refl) ((q r).adds mid s log' h)

  pub Only-attempt {ℓ} : {A : Type ℓ} (m : Io A) → Only m → Only (attempt m)
  Only-attempt m p = record {
    adds = λ log s log' h. follow-Adds (m log) (λ r. pure r) log s log' (p.adds log) Only-pure h;
  }

  pub Only->>= {ℓ κ} :
      {A : Type ℓ} {B : Type κ} (m : Io A) (k : A → Io B)
      → Only m
      → ((a : A) → Only (k a))
      → Only (m >>= k)
  Only->>= {A} {B} m k p q = record {
    adds = λ log s log' h. follow-Adds (m log) (proceed k) log s log' (p.adds log) rest h;
  }
    where
      rest : (r : Result A) → Only (proceed k r)
      rest (ok a) = q a
      rest (err e) = Only-raise e

  pub Only-catch {ℓ} :
      {A : Type ℓ} (m : Io A) (handler : Error → Io A)
      → Only m
      → ((e : Error) → Only (handler e))
      → Only (catch m handler)
  Only-catch {A} m handler p q = Only->>= (attempt m) _ (Only-attempt m p) handled
    where
      handled : (r : Result A) → Only (elim r [ ok a ↦ pure a | err e ↦ handler e ])
      handled (ok a) = Only-pure a
      handled (err e) = q e

  module _ (host : Host) (c : Call) (p : P c) where
    repeated-Adds : (n : ℕ) (log : Log) → Adds log (repeated n c log)
    repeated-Adds zero log = ([], tt, refl)
    repeated-Adds (suc n) log =
        Adds-trans log (c ∷ log) _ (c ∷ [], (p, tt), refl) (repeated-Adds n (c ∷ log))

    pub Only-retry : (raised : ℕ → Error) (fuel : ℕ) → Only (retry host raised fuel c)
    Only-retry raised fuel = record {
      adds = λ log r log' h. of_Retried log r log' (retry-Retried host raised fuel c log r log' h);
    }
      where
        of_Retried :
            (log : Log) (r : Result Answer) (log' : Log)
            → Retried host raised c log r log'
            → Adds log log'
        of_Retried log r log' (no_linux foreign e q) = ([], tt, q)
        of_Retried log r log' (answered linux n a i q e last s) =
            let (cs, all, made) = repeated-Adds n log in
            (c ∷ cs, (p, all), q ∙ ap (λ (t : Log). c ∷ t) made)

    pub Only-perform : Only (perform host c)
    unfolding perform
    Only-perform = record { adds = λ log r log' h. (c ∷ [], (p, tt), sym (finished-injective h).1) }

    pub Only-os_call : Only (os_call host c)
    unfolding os_call
    Only-os_call =
        Only->>= (perform host c) _ Only-perform
          (λ a. Only-if (failed a.ret) _ _ (Only-raise (os_error (some a.errno))) (Only-pure a))
