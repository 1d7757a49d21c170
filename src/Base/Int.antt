-- ===== src/Base/Int.antt =====
-- Python's integers where the source checks for negative ones, and list indexing by them.
use Prim.Native.Nat.{ℕ, zero, suc, ◌+◌, ◌-◌}
use mathlib.Core.Bool.{Bool, false}
use mathlib.Core.List.{List}
use mathlib.Core.Option.{Option, none}
use mathlib.Core.Bool.{true}
use mathlib.Core.Path.{◌≡◌}
use native.Mathlib.Omega.{arith}
use seccompy.Base.Tests.{ltb, leb, ◌==◌, if◌then◌else◌}
use seccompy.Base.Lists.{length, get_elem?}

-- `negsuc n` is -(n + 1).
pub data ℤ : Type 0 where
  pos : ℕ → ℤ
  negsuc : ℕ → ℤ

-- `z + 1`
abbrev pub next : ℤ → ℤ
next (pos n) = pos (n + 1)
next (negsuc zero) = pos 0
next (negsuc (suc n)) = negsuc n

-- `0 <= z <= n`
abbrev pub in_range : ℤ → ℕ → Bool
in_range (pos k) n = leb k n
in_range (negsuc k) n = false

-- `xs[z]`: a negative index counts from the end, and what is out of range raises an `IndexError`.
abbrev pub index {ℓ} : {A : Type ℓ} → List A → ℤ → Option A
index xs (pos n) = get_elem? xs n
index xs (negsuc n) = if ltb n (length xs) then get_elem? xs (length xs - suc n) else none

-- `==`
abbrev pub same_int : ℤ → ℤ → Bool
same_int (pos a) (pos b) = a == b
same_int (negsuc a) (negsuc b) = a == b
same_int _ _ = false

pub same_int_self : (z : ℤ) → same_int z z ≡ true
same_int_self (pos a) = ground arith
same_int_self (negsuc a) = ground arith
