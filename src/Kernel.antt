-- ===== src/Kernel.antt =====
-- src/seccompy/_syscall.py: the calls into libc and the kernel. This module has the calls, what the
-- kernel answers, and computations that make calls.
pub mod Structs
pub mod Bytes
pub mod Calls
pub mod Retry
pub mod Only
pub mod Ends
pub mod Install
pub mod Tests
use Prim.Native.String.{String}
use seccompy.Base.{
  ℕ, ◌≡◌, refl, Bool, true, false, Option, none, some, List, [], ◌∷◌, ◌==◌, if◌then◌else◌,
}
use seccompy.Base.Int.{ℤ, pos, negsuc}
use seccompy.Errors.{Error, Result, ok, err, os_error}

-- An argument of a system call: an integer, NULL, a pointer to a structure with these bytes, or a
-- pointer to a `struct sock_fprog` with this length and this program behind its pointer.
pub data Arg : Type 0 where
  int : ℤ → Arg
  null : Arg
  buffer : List ℕ → Arg
  fprog : ℕ → List ℕ → Arg

-- The calls that leave the program. The last four are those of the `os` module.
pub data Call : Type 0 where
  syscall : ℕ → List Arg → Call
  prctl : ℕ → List ℕ → Call
  ioctl : ℤ → ℕ → List ℕ → Call
  close : ℤ → Call
  set_inheritable : ℤ → Bool → Call
  fork : Call
  waitpid : ℤ → ℕ → Call

-- What a call returns, the `errno` that it leaves, and what the buffer of its pointer argument holds
-- afterwards.
pub record Answer : Type 0 where
  pub ret : ℤ
  pub errno : ℕ
  pub out : List ℕ

-- The calls made so far, the latest first.
abbrev pub Log : Type 0
Log = List Call

-- What the program runs on. The kernel may answer a call by all that happened before it.
pub record Host : Type 0 where
  pub machine : String
  pub is_linux : Bool
  pub answer : Log → Call → Answer

-- A computation that makes calls ends with a result and the calls made. `waiting` is a loop that has
-- no fuel left.
pub data Outcome {ℓ} (A : Type ℓ) : Type ℓ where
  waiting : Outcome A
  finished : Result A → Log → Outcome A

abbrev pub Io {ℓ} : Type ℓ → Type ℓ
Io A = Log → Outcome A

abbrev pub pure {ℓ} : {A : Type ℓ} → A → Io A
pure a log = finished (ok a) log

abbrev pub raise {ℓ} : {A : Type ℓ} → Error → Io A
raise e log = finished (err e) log

-- A computation that makes no call.
abbrev pub lift {ℓ} : {A : Type ℓ} → Result A → Io A
lift r log = finished r log

abbrev pub proceed {ℓ κ} : {A : Type ℓ} {B : Type κ} → (A → Io B) → Result A → Io B
proceed k (err e) = raise e
proceed k (ok a) = k a

abbrev pub follow {ℓ κ} : {A : Type ℓ} {B : Type κ} → (Result A → Io B) → Outcome A → Outcome B
follow k waiting = waiting
follow k (finished r log) = k r log

infixl 5 ◌>>=◌ ◌>>◌
abbrev pub ◌>>=◌ {ℓ κ} : {A : Type ℓ} {B : Type κ} → Io A → (A → Io B) → Io B
◌>>=◌ m k log = follow (proceed k) (m log)

abbrev pub ◌>>◌ {ℓ} : {B : Type ℓ} → Io (Unit {0}) → Io B → Io B
m >> k = m >>= λ _. k

-- `try`: the exception as a value.
abbrev pub attempt {ℓ} : {A : Type ℓ} → Io A → Io (Result A)
attempt m log = follow (λ r. pure r) (m log)

-- `try: … except Exception as e: handler`
abbrev pub catch {ℓ} : {A : Type ℓ} → Io A → (Error → Io A) → Io A
catch m handler = attempt m >>= λ r. elim r [ ok a ↦ pure a | err e ↦ handler e ]

-- `ret == -1`
abbrev pub failed : ℤ → Bool
failed (pos n) = false
failed (negsuc n) = n == 0

unfoldable pub perform : Host → Call → Io Answer
perform host c log = finished (ok (host.answer log c)) (c ∷ log)

-- A call of the `os` module raises an `OSError` where it fails.
unfoldable pub os_call : Host → Call → Io Answer
unfolding perform
os_call host c =
    perform host c >>= λ a. if failed a.ret then raise (os_error (some a.errno)) else pure a

-- Inversion of a bind that ends well, and of a bind that ends.
pub >>=-eq-ok {ℓ κ} :
    {A : Type ℓ} {B : Type κ} (m : Io A) (k : A → Io B) (log : Log) {b : B} {log' : Log}
    → (m >>= k) log ≡ finished (ok b) log'
    → (a : A) × (mid : Log) × (m log ≡ finished (ok a) mid) × (k a mid ≡ finished (ok b) log')
>>=-eq-ok {A} {B} m k log {b} {log'} h = split (m log) refl h
  where
    split :
        (o : Outcome A)
        → m log ≡ o
        → follow (proceed k) o ≡ finished (ok b) log'
        → (a : A) × (mid : Log) × (m log ≡ finished (ok a) mid) × (k a mid ≡ finished (ok b) log')
    split waiting e h = cc
    split (finished (err x) mid) e h = cc
    split (finished (ok a) mid) e h = (a, mid, e, h)

pub finished-injective {ℓ} :
    {A : Type ℓ} {r s : Result A} {log log' : Log}
    → finished r log ≡ finished s log'
    → (r ≡ s) × (log ≡ log')
finished-injective h = (cc, cc)

-- Inversion of a bind of a computation that makes no call.
pub lift->>=-eq-ok {ℓ κ} :
    {A : Type ℓ} {B : Type κ} (r : Result A) (k : A → Io B) (log : Log) {b : B} {log' : Log}
    → (lift r >>= k) log ≡ finished (ok b) log'
    → (a : A) × (r ≡ ok a) × (k a log ≡ finished (ok b) log')
lift->>=-eq-ok (err e) k log h = cc
lift->>=-eq-ok (ok a) k log h = (a, refl, h)

-- Inversion of a bind on an attempt.
pub attempt->>=-eq-ok {ℓ κ} :
    {A : Type ℓ} {B : Type κ} (m : Io A) (k : Result A → Io B) (log : Log) {b : B} {log' : Log}
    → (attempt m >>= k) log ≡ finished (ok b) log'
    → (r : Result A) × (mid : Log) × (m log ≡ finished r mid) × (k r mid ≡ finished (ok b) log')
attempt->>=-eq-ok {A} {B} m k log {b} {log'} h = split (m log) refl h
  where
    split :
        (o : Outcome A)
        → m log ≡ o
        → follow (proceed k) (follow (λ r. pure r) o) ≡ finished (ok b) log'
        → (r : Result A) × (mid : Log) × (m log ≡ finished r mid) × (k r mid ≡ finished (ok b) log')
    split waiting e h = cc
    split (finished r mid) e h = (r, mid, e, h)
