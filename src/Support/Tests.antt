-- ===== src/Support/Tests.antt =====
-- The probes of src/seccompy/__init__.py on small hosts.
use seccompy.Base.{ℕ, ◌≡◌, inr, refl, true, false, [], ◌∷◌, arith}
use seccompy.Base.Int.{pos, negsuc}
use seccompy.Errors.{ok}
use seccompy.Kernel.{Call, Answer, Log, Host, finished}
use seccompy.Kernel.Calls.{seccomp_nr}
use seccompy.Filter.Action
use seccompy.Support.{supported, action_supported, flag_supported}
use seccompy.Support.Answers.{
  action_call, flag_call, action_supported-Answers, flag_supported-Answers, supported-Answers,
  probes_without_seccomp,
}

abbrev refused : ℕ → Answer
refused e = record { ret = negsuc 0; errno = e; out = [] }

-- A kernel that knows only the operation that installs filters: it faults on the NULL program.
abbrev first_einval : Log → Call → Answer
first_einval [] c = refused 38
first_einval (d ∷ log) c = refused 14

abbrev old : Host
old = record { machine = "x86_64"; is_linux = true; answer = first_einval }

abbrev elsewhere : Host
elsewhere = record { machine = "x86_64"; is_linux = false; answer = first_einval }

old_nr : seccomp_nr old ≡ ok 317
unfolding seccomp_nr
old_nr = refl

abbrev allow_call : Call
allow_call = action_call old 1 317 (pos Action.allow)

action_supported-Answers_example :
    action_supported old 1 (pos Action.allow) [] ≡ finished (ok false) (allow_call ∷ [])
action_supported-Answers_example =
    action_supported-Answers old 1 317 (pos Action.allow) 0 [] (refused 38) old_nr
      (record { linux = refl; enough = omega arith; interrupted = tt; last = refl; settled = refl })

abbrev plain_call : Call
plain_call = flag_call old 1 317 (pos 0)

flag_supported-Answers_example :
    flag_supported old 1 (pos 0) (allow_call ∷ [])
    ≡ finished (ok true) (plain_call ∷ allow_call ∷ [])
flag_supported-Answers_example =
    flag_supported-Answers old 1 317 (pos 0) 0 (allow_call ∷ []) (refused 14) old_nr
      (record { linux = refl; enough = omega arith; interrupted = tt; last = refl; settled = refl })

supported-Answers_example : supported old 1 [] ≡ finished (ok true) (plain_call ∷ allow_call ∷ [])
supported-Answers_example =
    supported-Answers old 1 317 0 0 [] (refused 38) (refused 14) old_nr
      (record { linux = refl; enough = omega arith; interrupted = tt; last = refl; settled = refl })
      (record { linux = refl; enough = omega arith; interrupted = tt; last = refl; settled = refl })

probes_without_seccomp_example :
    (supported elsewhere 1 [] ≡ finished (ok false) [])
    × (action_supported elsewhere 1 (pos 5) [] ≡ finished (ok false) [])
    × (flag_supported elsewhere 1 (pos 8) [] ≡ finished (ok false) [])
probes_without_seccomp_example =
    probes_without_seccomp elsewhere 1 (pos 5) (pos 8) [] (inr (refl, omega arith))
