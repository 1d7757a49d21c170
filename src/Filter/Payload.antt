-- ===== src/Filter/Payload.antt =====
-- src/seccompy/filter.py: the actions that the methods of `Filter` attach, as the kernel takes them
-- apart: the action in the high 16 bits, its data in the low 16.
use seccompy.Base.{ℕ, ◌+◌, ◌*◌, ◌^◌, ◌<◌, ◌≡◌, ◌↔◌, refl, sym, ap, ◌∙◌, arith, bit_or}
use seccompy.Base.Int.{ℤ, pos}
use seccompy.Base.Bits.{bit_or_disjoint}
use seccompy.Errors.{
  Error, Result, ok, err, bounded, bounded-le, bounded-eq, >>=-eq-ok, ok-injective, value_error,
  ◌>>=◌, errno_out_of_range, message_out_of_range,
}
use seccompy.Filter.Object.{Method, action_of, ret_data}

-- The high half of the constant SECCOMP_RET_* of linux/seccomp.h that a method is for.
abbrev pub class_of : Method → ℕ
class_of Method.allow = 0x7FFF
class_of Method.kill = 0x8000
class_of Method.kill_thread = 0
class_of Method.trap = 3
class_of (Method.errno e) = 5
class_of (Method.trace e) = 0x7FF0
class_of Method.log = 0x7FFC
class_of Method.notify = 0x7FC0

-- The data that a method is given.
abbrev pub IsData : Method → ℕ → Type 0
IsData (Method.errno e) d = e ≡ pos d
IsData (Method.trace e) d = e ≡ pos d
IsData _ d = d ≡ 0

-- The action is of the method's class and has its data, of 16 bits.
abbrev pub IsAction : Method → ℕ → Type 0
IsAction m n = (d : ℕ) × IsData m d × (d < 2 ^ 16) × (n ≡ class_of m * 2 ^ 16 + d)

payload :
    (c : ℕ) (e : ℤ) (x : Error) (n : ℕ)
    → ((bounded e ret_data (err x) >>= λ k. ok (bit_or (c * 2 ^ 16) k)) ≡ ok n)
      ↔ ((d : ℕ) × (e ≡ pos d) × (d < 2 ^ 16) × (n ≡ c * 2 ^ 16 + d))
payload c e x n = (attached, attaches)
  where
    attached :
        (bounded e ret_data (err x) >>= λ k. ok (bit_or (c * 2 ^ 16) k)) ≡ ok n
        → (d : ℕ) × (e ≡ pos d) × (d < 2 ^ 16) × (n ≡ c * 2 ^ 16 + d)
    attached h =
        let (k, e₁, h₁) = >>=-eq-ok (bounded e ret_data (err x)) _ h in
        let low : k < 2 ^ 16 = omega (arith, bounded-le e ret_data x k e₁) in
        (k, bounded-eq e ret_data x k e₁, low, sym (ok-injective h₁) ∙ bit_or_disjoint 16 c k low)

    attaches :
        (d : ℕ) × (e ≡ pos d) × (d < 2 ^ 16) × (n ≡ c * 2 ^ 16 + d)
        → (bounded e ret_data (err x) >>= λ k. ok (bit_or (c * 2 ^ 16) k)) ≡ ok n
    attaches (d, given, low, same) = ground (arith, given, bit_or_disjoint 16 c d low)

plain :
    (c n : ℕ)
    → (◌≡◌ {A = Result ℕ} (ok (c * 2 ^ 16)) (ok n))
      ↔ ((d : ℕ) × (d ≡ 0) × (d < 2 ^ 16) × (n ≡ c * 2 ^ 16 + d))
plain c n = (
  (λ h. (0, refl, omega arith, omega (arith, ok-injective h))),
  (λ (d, none, low, same). ap (λ (t : ℕ). ok t) (omega arith)),
)

-- For every method and number: the method attaches the number as its action exactly if its high 16
-- bits are the method's constant of linux/seccomp.h and its low 16 bits are the errno or the message
-- that was given, which fits them, or zero where the method is given none.
pub action_of-IsAction : (m : Method) (n : ℕ) → (action_of m ≡ ok n) ↔ IsAction m n
unfolding action_of
action_of-IsAction Method.allow n = plain 0x7FFF n
action_of-IsAction Method.kill n = plain 0x8000 n
action_of-IsAction Method.kill_thread n = plain 0 n
action_of-IsAction Method.trap n = plain 3 n
action_of-IsAction (Method.errno e) n = payload 5 e (value_error errno_out_of_range) n
action_of-IsAction (Method.trace e) n = payload 0x7FF0 e (value_error message_out_of_range) n
action_of-IsAction Method.log n = plain 0x7FFC n
action_of-IsAction Method.notify n = plain 0x7FC0 n
