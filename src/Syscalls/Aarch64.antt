-- ===== src/Syscalls/Aarch64.antt =====
-- src/seccompy/syscalls.py: `AARCH64_SYSCALLS`.
pub mod First
pub mod Second
pub mod Third
use seccompy.Base.{ℕ, List, [], ◌∷◌, ◌++◌, Dict}
use seccompy.Syscalls.Aarch64.First.{first_part}
use seccompy.Syscalls.Aarch64.Second.{second_part}
use seccompy.Syscalls.Aarch64.Third.{third_part}
use Prim.Native.String.{String}

abbrev pub aarch64_syscalls : Dict String ℕ
aarch64_syscalls = first_part ++ (second_part ++ (third_part ++ ("memfd_secret", 447) ∷ []))
