-- ===== src/Kernel/Tests.antt =====
-- Small hosts, and the theorems about src/seccompy/_syscall.py at them.
use seccompy.Base.{◌≡◌, refl, true, [], ◌∷◌, arith}
use seccompy.Base.Int.{pos, negsuc}
use seccompy.Errors.{Reason, ok, err, value_error}
use seccompy.Kernel.{Call, Answer, Log, Host, finished}
use seccompy.Kernel.Calls.{retry, error_of, set_mode_filter}
use seccompy.Kernel.Retry.{Retried, retry-Interrupted, retry-Retried}
use seccompy.Kernel.Install.{IsLoadable, no_new_privs_call, set_mode_filter-invalid}

-- Every call succeeds with 0, and finds the sizes 80, 24 and 64.
abbrev pub accepting : Host
accepting = record {
  machine = "x86_64";
  is_linux = true;
  answer = λ log c. record { ret = pos 0; errno = 0; out = 80 ∷ 0 ∷ 24 ∷ 0 ∷ 64 ∷ 0 ∷ [] };
}

abbrev interruption : Answer
interruption = record { ret = negsuc 0; errno = 4; out = [] }

abbrev acceptance : Answer
acceptance = record { ret = pos 0; errno = 0; out = [] }

-- A signal interrupts the first call.
abbrev first_interrupted : Log → Call → Answer
first_interrupted [] c = interruption
first_interrupted (d ∷ log) c = acceptance

abbrev pub busy : Host
busy = record { machine = "x86_64"; is_linux = true; answer = first_interrupted }

abbrev privs : Call
privs = no_new_privs_call

retry-Interrupted_example :
    retry busy error_of 2 privs [] ≡ finished (ok acceptance) (privs ∷ privs ∷ [])
retry-Interrupted_example =
    retry-Interrupted busy error_of 2 1 privs [] refl (omega arith) (refl, tt) refl

made_twice : retry busy error_of 2 privs [] ≡ finished (ok acceptance) (privs ∷ privs ∷ [])
unfolding retry
made_twice = refl

retry-Retried_example : Retried busy error_of privs [] (ok acceptance) (privs ∷ privs ∷ [])
retry-Retried_example =
    retry-Retried busy error_of 2 privs [] (ok acceptance) (privs ∷ privs ∷ []) made_twice

three_bytes : ¬ IsLoadable (1 ∷ 2 ∷ 3 ∷ [])
three_bytes (n, same, _, _) = absurd (omega (arith, same))

set_mode_filter-invalid_example :
    (r : Reason) × (set_mode_filter accepting 1 (1 ∷ 2 ∷ 3 ∷ []) 0 []
      ≡ finished (err (value_error r)) [])
set_mode_filter-invalid_example =
    set_mode_filter-invalid accepting 1 (1 ∷ 2 ∷ 3 ∷ []) 0 [] three_bytes
