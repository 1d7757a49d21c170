-- ===== src/Syscalls/X86.antt =====
-- src/seccompy/syscalls.py: `X86_64_SYSCALLS`.
pub mod First
pub mod Second
pub mod Third
use seccompy.Base.{ℕ, List, [], ◌∷◌, ◌++◌, Dict}
use seccompy.Syscalls.X86.First.{first_part}
use seccompy.Syscalls.X86.Second.{second_part}
use seccompy.Syscalls.X86.Third.{third_part}
use Prim.Native.String.{String}

abbrev pub x86_64_syscalls : Dict String ℕ
x86_64_syscalls = first_part ++ (second_part ++ (third_part ++ ("memfd_secret", 447) ∷ []))
