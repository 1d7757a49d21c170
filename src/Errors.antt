-- ===== src/Errors.antt =====
-- src/seccompy/errors.py and the exceptions that the code raises, as values.
use seccompy.Base.{
  ℕ, ◌≡◌, refl, Bool, true, false, Option, none, some, ◌⊎◌, inl, inr, ◌≤◌, arith, leb,
  if◌then◌else◌,
}
use seccompy.Base.Int.{ℤ, pos, negsuc}

-- What a `ValueError` says.
pub data Reason : Type 0 where
  not_u32 : Reason
  not_jump_opcode : Reason
  undefined_label : Reason
  label_out_of_range : Reason
  not_converged : Reason
  backward_jump : Reason
  ja_out_of_range : Reason
  jump_out_of_range : Reason
  ja_without_target : Reason
  not_cmp_op : Reason
  index_out_of_range : Reason
  value_out_of_range : Reason
  mask_out_of_range : Reason
  bits_outside_mask : Reason
  mask_without_masked_eq : Reason
  syscall_out_of_range : Reason
  unknown_syscall : Reason
  unknown_syscall_number : Reason
  default_out_of_range : Reason
  flags_out_of_range : Reason
  errno_out_of_range : Reason
  message_out_of_range : Reason
  program_not_whole : Reason
  program_too_long : Reason
  pid_out_of_range : Reason
  id_out_of_range : Reason
  return_value_out_of_range : Reason
  response_flags_out_of_range : Reason
  continue_with_result : Reason
  fd_out_of_range : Reason
  newfd_without_setfd : Reason
  addfd_flags_out_of_range : Reason
  newfd_flags_not_cloexec : Reason
  fd_flags_out_of_range : Reason
  listener_closed : Reason

-- The exceptions. `SeccompError` and its subclass `UnsupportedError` are `OSError`s: they carry an
-- errno, the second only where a system call failed. `os_error` is an `OSError` of the `os` module or
-- of a caller's function, and `other_error` any other exception of a caller's function. The rest are
-- Python's own.
pub data Error : Type 0 where
  value_error : Reason → Error
  seccomp_error : ℕ → Error
  unsupported_error : Option ℕ → Error
  os_error : Option ℕ → Error
  other_error : Error
  runtime_error : Error
  type_error : Error
  struct_error : Error
  key_error : Error
  index_error : Error

pub data Result {ℓ} (A : Type ℓ) : Type ℓ where
  err : Error → Result A
  ok : A → Result A

infixl 5 ◌>>=◌ ◌>>◌
abbrev pub ◌>>=◌ {ℓ κ} : {B : Type κ} {A : Type ℓ} → Result A → (A → Result B) → Result B
err e >>= k = err e
ok a >>= k = k a

abbrev pub ◌>>◌ {ℓ} : {B : Type ℓ} → Result (Unit {0}) → Result B → Result B
m >> k = m >>= λ _. k

-- `if c: raise e`
abbrev pub raise_if : Bool → Error → Result (Unit {0})
raise_if true e = err e
raise_if false e = ok tt

-- A value that may be missing, with the exception raised then.
abbrev pub or_raise {ℓ} : {A : Type ℓ} → Option A → Error → Result A
or_raise none e = err e
or_raise (some a) e = ok a

-- Inversion of a successful bind.
pub >>=-eq-ok {ℓ κ} :
    {A : Type ℓ} {B : Type κ} (m : Result A) (k : A → Result B) {b : B}
    → (m >>= k) ≡ ok b
    → (a : A) × (m ≡ ok a) × (k a ≡ ok b)
>>=-eq-ok (err e) k h = cc
>>=-eq-ok (ok a) k h = (a, refl, h)

pub Result-cases {ℓ} :
    {A : Type ℓ} (r : Result A) → ((a : A) × (r ≡ ok a)) ⊎ ((e : Error) × (r ≡ err e))
Result-cases (ok a) = inl (a, refl)
Result-cases (err e) = inr (e, refl)

pub ok-injective {ℓ} : {A : Type ℓ} {a b : A} → ok a ≡ ok b → a ≡ b
ok-injective h = cc

-- An integer from 0 to `n`, or the exception.
abbrev pub bounded : ℤ → ℕ → Result ℕ → Result ℕ
bounded (pos k) n e = if leb k n then ok k else e
bounded (negsuc k) n e = e

pub bounded-le : (z : ℤ) (n : ℕ) (e : Error) (k : ℕ) → bounded z n (err e) ≡ ok k → k ≤ n
bounded-le (pos j) n e k h = ground arith
bounded-le (negsuc j) n e k h = absurd (cc)

pub bounded-eq : (z : ℤ) (n : ℕ) (e : Error) (k : ℕ) → bounded z n (err e) ≡ ok k → z ≡ pos k
bounded-eq (pos j) n e k h = ground arith
bounded-eq (negsuc j) n e k h = absurd (cc)

pub raise_if-eq-ok : (b : Bool) (e : Error) → raise_if b e ≡ ok tt → b ≡ false
raise_if-eq-ok true e h = absurd (cc)
raise_if-eq-ok false e h = refl
