-- ===== src/Base/Bits.antt =====
-- Bitwise conjunction of numbers split into a high and a low part.
use Prim.Native.Nat.{
  ℕ, zero, suc, ◌+◌, ◌*◌, ◌/◌, ◌%◌, ◌^◌, ◌≤◌, ◌<◌, min, max, bit_and, bit_or, bit_and-bitwise,
  bit_or-bitwise, digits,
}
use mathlib.Core.Path.{◌≡◌, refl, ap}
use native.Mathlib.Nat.{pow-suc}
use native.Mathlib.Omega.{arith}

-- The recursion on digits that `bit_and` stands for, with room for more digits than there are.
abbrev conj : ℕ → ℕ → ℕ → ℕ
conj room a b = digits (λ d. zero) min room a b

conj_room : (n m a b : ℕ) → a ≤ n → a ≤ m → conj n a b ≡ conj m a b
conj_room zero zero zero b p q = refl
conj_room zero (suc m) zero b p q = refl
conj_room (suc n) zero zero b p q = refl
conj_room (suc n) (suc m) zero b p q = refl
conj_room zero m (suc a) b p q = absurd (omega arith)
conj_room (suc n) zero (suc a) b p q = absurd (omega arith)
conj_room (suc n) (suc m) (suc a) b p q =
    omega (arith, conj_room n m (suc a / 2) (b / 2) (omega arith) (omega arith))

zero-bit_and : (b : ℕ) → bit_and 0 b ≡ 0
zero-bit_and b = bit_and-bitwise 0 b

-- The lowest digit, and the rest.
bit_and_peel : (a b : ℕ) → bit_and a b ≡ bit_and (a / 2) (b / 2) * 2 + min (a % 2) (b % 2)
bit_and_peel zero b = omega (arith, zero-bit_and b, zero-bit_and (b / 2))
bit_and_peel (suc a) b = omega (
  arith,
  bit_and-bitwise (suc a) b,
  bit_and-bitwise (suc a / 2) (b / 2),
  conj_room a (suc a / 2) (suc a / 2) (b / 2) (omega arith) (omega arith),
)

bit_and_below : (n a b : ℕ) → a ≤ n → (bit_and a b ≤ a) × (bit_and a b ≤ b)
bit_and_below n zero b h = omega (arith, zero-bit_and b)
bit_and_below zero (suc a) b h = absurd (omega arith)
bit_and_below (suc n) (suc a) b h =
    omega (arith, bit_and_peel (suc a) b, bit_and_below n (suc a / 2) (b / 2) (omega arith))

pub bit_and-le : (a b : ℕ) → (bit_and a b ≤ a) × (bit_and a b ≤ b)
bit_and-le a b = bit_and_below a a b (omega arith)

pub bit_and-zero : (a : ℕ) → bit_and a 0 ≡ 0
bit_and-zero a = omega (arith, bit_and-le a 0)

double : (q k : ℕ) → q * 2 ^ suc k ≡ 2 * (q * 2 ^ k)
double q k = omega (arith, ap (λ (t : ℕ). q * t) (pow-suc 2 k))

-- High parts meet high parts, low parts meet low parts.
pub bit_and_parts :
    (k a b x y : ℕ)
    → x < 2 ^ k
    → y < 2 ^ k
    → bit_and (a * 2 ^ k + x) (b * 2 ^ k + y) ≡ bit_and a b * 2 ^ k + bit_and x y
bit_and_parts zero a b zero zero p q = ground (arith, zero-bit_and 0)
bit_and_parts zero a b (suc x) y p q = absurd (omega arith)
bit_and_parts zero a b x (suc y) p q = absurd (omega arith)
bit_and_parts (suc k) a b x y p q = ground (
  arith,
  bit_and_peel (a * 2 ^ suc k + x) (b * 2 ^ suc k + y),
  bit_and_peel x y,
  double a k,
  double b k,
  double (bit_and a b) k,
  pow-suc 2 k,
  bit_and_parts k a b (x / 2) (y / 2) (omega (arith, pow-suc 2 k)) (omega (arith, pow-suc 2 k)),
)

disj-le : (room a b : ℕ) → digits (λ d. d) max room a b ≤ a + b
disj-le zero a b = omega arith
disj-le (suc room) zero b = omega arith
disj-le (suc room) (suc a) b = omega (arith, disj-le room (suc a / 2) (b / 2))

pub bit_or-le : (a b : ℕ) → bit_or a b ≤ a + b
bit_or-le a b = omega (arith, bit_or-bitwise a b, disj-le a a b)

disj_room : (n m a b : ℕ) → a ≤ n → a ≤ m → digits (λ d. d) max n a b ≡ digits (λ d. d) max m a b
disj_room zero zero zero b p q = refl
disj_room zero (suc m) zero b p q = refl
disj_room (suc n) zero zero b p q = refl
disj_room (suc n) (suc m) zero b p q = refl
disj_room zero m (suc a) b p q = absurd (omega arith)
disj_room (suc n) zero (suc a) b p q = absurd (omega arith)
disj_room (suc n) (suc m) (suc a) b p q =
    omega (arith, disj_room n m (suc a / 2) (b / 2) (omega arith) (omega arith))

zero-bit_or : (b : ℕ) → bit_or 0 b ≡ b
zero-bit_or b = bit_or-bitwise 0 b

bit_or_peel : (a b : ℕ) → bit_or a b ≡ bit_or (a / 2) (b / 2) * 2 + max (a % 2) (b % 2)
bit_or_peel zero b = omega (arith, zero-bit_or b, zero-bit_or (b / 2))
bit_or_peel (suc a) b = omega (
  arith,
  bit_or-bitwise (suc a) b,
  bit_or-bitwise (suc a / 2) (b / 2),
  disj_room a (suc a / 2) (suc a / 2) (b / 2) (omega arith) (omega arith),
)

bit_or_zero_below : (n a : ℕ) → a ≤ n → bit_or a 0 ≡ a
bit_or_zero_below n zero h = zero-bit_or 0
bit_or_zero_below zero (suc a) h = absurd (omega arith)
bit_or_zero_below (suc n) (suc a) h =
    omega (arith, bit_or_peel (suc a) 0, bit_or_zero_below n (suc a / 2) (omega arith))

-- A high part and a low part do not meet.
pub bit_or_disjoint : (k a x : ℕ) → x < 2 ^ k → bit_or (a * 2 ^ k) x ≡ a * 2 ^ k + x
bit_or_disjoint zero a zero p = ground (arith, bit_or_zero_below a a (omega arith))
bit_or_disjoint zero a (suc x) p = absurd (omega arith)
bit_or_disjoint (suc k) a x p = ground (
  arith,
  bit_or_peel (a * 2 ^ suc k) x,
  double a k,
  pow-suc 2 k,
  bit_or_disjoint k a (x / 2) (omega (arith, pow-suc 2 k)),
)
