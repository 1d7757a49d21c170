-- ===== src/Syscalls.antt =====
-- src/seccompy/syscalls.py: the tables of syscalls and the functions that read them. The machine is
-- what `platform.machine().lower()` returns, a parameter.
mod X86
mod Aarch64
pub mod RoundTrip
mod Tests
use Prim.Native.String.{String}
use seccompy.Base.{
  ℕ, zero, suc, Bool, true, false, not, ◌&&◌, Option, none, some, List, [], ◌∷◌, ◌==◌,
  if◌then◌else◌, Eq, Dict, nat_eq, string_eq, lookup,
}
use seccompy.Base.Int.{ℤ, pos, negsuc, in_range}
use seccompy.Errors.{
  Result, ok, err, ◌>>=◌, ◌>>◌, raise_if, or_raise, value_error, unsupported_error,
  syscall_out_of_range, unknown_syscall, unknown_syscall_number,
}
use seccompy.Bpf.{u32_max}
use seccompy.Syscalls.X86.{x86_64_syscalls}
use seccompy.Syscalls.Aarch64.{aarch64_syscalls}

abbrev pub audit_arch_x86_64 : ℕ
audit_arch_x86_64 = 0xC000003E

abbrev pub audit_arch_aarch64 : ℕ
audit_arch_aarch64 = 0xC00000B7

-- A value of `_ARCHES`.
pub record Arch : Type 0 where
  pub arch_name : String
  pub audit : ℕ
  pub table : Dict String ℕ

abbrev pub x86_64 : Arch
x86_64 = record { arch_name = "x86_64"; audit = audit_arch_x86_64; table = x86_64_syscalls }

abbrev pub aarch64 : Arch
aarch64 = record { arch_name = "aarch64"; audit = audit_arch_aarch64; table = aarch64_syscalls }

-- `_ARCHES`
abbrev pub arches : Dict String Arch
arches = ("x86_64", x86_64) ∷ ("amd64", x86_64) ∷ ("aarch64", aarch64) ∷ ("arm64", aarch64) ∷ []

-- `_native`
unfoldable pub native : String → Result Arch
native machine = or_raise (lookup machine arches) (unsupported_error none)

-- `arch`
unfoldable pub arch : String → Result String
unfolding native
arch machine = do a ← native machine; ok a.arch_name

-- `audit_arch`
unfoldable pub audit_arch : String → Result ℕ
unfolding native
audit_arch machine = do a ← native machine; ok a.audit

-- A syscall by its name or by its number.
pub data Syscall : Type 0 where
  name : String → Syscall
  number : ℤ → Syscall

-- `syscall_nr`
unfoldable pub syscall_nr : String → Syscall → Result ℕ
unfolding native
syscall_nr machine (number (negsuc n)) = err (value_error syscall_out_of_range)
syscall_nr machine (number (pos n)) =
    if in_range (pos n) u32_max then ok n else err (value_error syscall_out_of_range)
syscall_nr machine (name s) = do
  a ← native machine
  or_raise (lookup s a.table) (value_error unknown_syscall)

-- The loop of `syscall_name`.
unfoldable pub find_name : ℕ → Dict String ℕ → Option String
find_name n [] = none
find_name n ((s, m) ∷ table) = if m == n then some s else find_name n table

-- `syscall_name`; no entry of a table is negative.
unfoldable pub syscall_name : String → ℤ → Result String
unfolding native find_name
syscall_name machine nr = do
  a ← native machine
  elim nr [
    | pos n ↦ or_raise (find_name n a.table) (value_error unknown_syscall_number)
    | negsuc n ↦ err (value_error unknown_syscall_number)
  ]
