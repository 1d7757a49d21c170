-- ===== src/Testing/Tests.antt =====
-- The probe of src/seccompy/testing.py on small hosts.
use seccompy.Base.{ℕ, ◌≡◌, ◌<◌, ◌^◌, refl, true, false, some, [], ◌∷◌, arith}
use seccompy.Base.Int.{pos}
use seccompy.Errors.{Result, ok, os_error}
use seccompy.Kernel.{fork, waitpid, Log, Host, Io, raise, finished, os_call, perform}
use seccompy.Kernel.Tests.{accepting}
use seccompy.Kernel.Install.{filter_call, no_new_privs_call}
use seccompy.Kernel.Structs.{bytes_of}
use seccompy.Kernel.Calls.{set_no_new_privs, set_mode_filter, retry, seccomp_nr, call, seccomp}
use seccompy.Filter.Object.{Filter, program}
use seccompy.Filter.Load.{load, attach, installed, compiled, permitted}
use seccompy.Testing.{ProbeResult, restricted, child, exit_code, dispatch, probe, returns, exits}
use seccompy.Testing.Exit.{Learns, Waited, killed_by, killed, exited, probe-Learns, probe-killed}

-- Waiting gives this status.
abbrev parent : ℕ → Host
parent status = record {
  machine = "x86_64";
  is_linux = true;
  answer = λ log c. record { ret = pos 9; errno = 0; out = bytes_of 4 status };
}

-- Its program, one instruction, is in the cache.
abbrev small : Filter
small = record {
  default = 0x7FFF0000;
  flags = 0;
  rules = [];
  program = some (6 ∷ 0 ∷ 0 ∷ 0 ∷ 0 ∷ 0 ∷ 0xFF ∷ 0x7F ∷ []);
  loaded = false;
}

-- The function that the child calls fails with EPERM.
abbrev refused : Io (Unit {0})
refused = raise (os_error (some 1))

abbrev probe_log : Log
probe_log = waitpid (pos 9) 0 ∷ fork ∷ []

waited : (status : ℕ) → status < 2 ^ 32 → Waited (parent status) 1 small refused [] status
waited status h = record {
  fresh = refl;
  forks = refl;
  is_parent = refl;
  waits = refl;
  out = refl;
  status_lt = h;
}

abbrev child_log : Log
child_log =
    filter_call 317 (6 ∷ 0 ∷ 0 ∷ 0 ∷ 0 ∷ 0 ∷ 0xFF ∷ 0x7F ∷ []) 0 ∷ no_new_privs_call ∷ fork ∷ []

child_ends : probe accepting 1 small refused [] ≡ finished (ok (exits 1)) child_log
unfolding probe dispatch child restricted exit_code load permitted compiled installed attach program
    set_no_new_privs set_mode_filter seccomp call retry seccomp_nr os_call perform
child_ends = refl

probe-Learns_example :
    (r : Result (Unit {0})) × (p : ProbeResult) × (restricted accepting 1 small refused (fork ∷ [])
      ≡ finished r child_log)
    × Learns r p
    × (probe (parent (exited 1)) 1 small refused [] ≡ finished (ok (returns p)) probe_log)
probe-Learns_example =
    probe-Learns (parent (exited 1)) 1 small refused [] accepting [] child_log 1 child_ends
      (waited (exited 1) (omega arith))

-- SIGSYS with a core dump.
probe-killed_example :
    probe (parent (killed 31 true)) 1 small refused []
    ≡ finished (ok (returns (killed_by 31))) probe_log
probe-killed_example =
    probe-killed (parent (killed 31 true)) 1 small refused [] 31 true (omega arith) (omega arith)
      (waited (killed 31 true) (omega arith))
