-- ===== src/Syscalls/Tests.antt =====
-- src/seccompy/syscalls.py: the tables at a few syscalls.
use seccompy.Base.{none, ◌^◌, ◌<◌, ◌≡◌, refl, string_eq}
use seccompy.Base.Int.{pos}
use seccompy.Errors.{ok, err, unsupported_error}
use seccompy.Syscalls.{x86_64, native, name, syscall_nr, syscall_name, find_name}
use seccompy.Syscalls.RoundTrip.{syscall_nr-fits, syscall_nr-syscall_name, syscall_name-syscall_nr}

ptrace_nr : syscall_nr "x86_64" (name "ptrace") ≡ ok 101
unfolding syscall_nr native
ptrace_nr = refl

memfd_secret_nr : syscall_nr "arm64" (name "memfd_secret") ≡ ok 447
unfolding syscall_nr native
memfd_secret_nr = refl

ptrace_name : syscall_name "amd64" (pos 101) ≡ ok "ptrace"
unfolding syscall_name find_name native
ptrace_name = refl

amd64_native : native "amd64" ≡ ok x86_64
unfolding native
amd64_native = refl

amd64_nr : syscall_nr "amd64" (name "ptrace") ≡ ok 101
unfolding syscall_nr native
amd64_nr = refl

riscv_unsupported : native "riscv64" ≡ err (unsupported_error none)
unfolding native
riscv_unsupported = refl

syscall_nr-fits_example : 101 < 2 ^ 32
syscall_nr-fits_example = syscall_nr-fits "x86_64" (name "ptrace") 101 ptrace_nr

syscall_nr-syscall_name_example : syscall_nr "amd64" (name "ptrace") ≡ ok 101
syscall_nr-syscall_name_example = syscall_nr-syscall_name "amd64" 101 "ptrace" ptrace_name

syscall_name-syscall_nr_example : syscall_name "amd64" (pos 101) ≡ ok "ptrace"
syscall_name-syscall_nr_example = syscall_name-syscall_nr "amd64" 101 "ptrace" amd64_native amd64_nr
