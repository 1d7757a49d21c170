-- ===== src/Filter/LoadTests.antt =====
-- The filter of two rules loaded, and its history, with the theorems of src/seccompy/filter.py there.
use seccompy.Base.{
  ℕ, ◌*◌, ◌<◌, ◌≡◌, refl, true, false, none, some, List, [], ◌∷◌, arith, length, nat_eq,
}
use seccompy.Base.Int.{pos}
use seccompy.Errors.{ok}
use seccompy.Syscalls.{name, number, syscall_nr, native}
use seccompy.Bpf.Machine.{returned, run_packed}
use seccompy.Kernel.{Log, finished}
use seccompy.Kernel.Tests.{accepting}
use seccompy.Kernel.Calls.{set_no_new_privs, set_mode_filter, retry, seccomp_nr, call, seccomp}
use seccompy.Kernel.Install.{IsLoadable, no_new_privs_call, filter_call}
use seccompy.Filter.Args.{coerce_all, coerce_cond, new_arg_cmp, cmp_op}
use seccompy.Filter.Spec.{verdict}
use seccompy.Filter.Cond.{IsBytes}
use seccompy.Filter.Object.{Filter, Method, action_of, program}
use seccompy.Filter.Load.{load, attach, installed, permitted}
use seccompy.Kernel.Ends.{Ends, Responsive}
use seccompy.Filter.Ending.{Accepting, load-Ends, load-loaded}
use seccompy.Filter.Load
use seccompy.Filter.Invariant.{Built, compiled}
use seccompy.Filter.Loaded.{Installs, load-eq-ok, loaded_program_returns_verdict}
use seccompy.Filter.Entries.{Entry, given, decision}
use seccompy.Filter.History.{History, begun, asked, program-decision}
use seccompy.Filter.Tests.{
  above_2, above_2_args, x86, rules, prog, packet, packet-IsBytes, empty, one_rule, two_rules,
  made_empty, first_call, second_call, two_rules-Built, read_program, x86_arch,
}

-- With the program in the cache, as reading `program` leaves it.
abbrev cached : Filter
cached = record two_rules { program = some prog }

abbrev loaded : Filter
loaded = record cached { loaded = true }

abbrev load_log : Log
load_log = filter_call 317 prog 0 ∷ no_new_privs_call ∷ []

from_cache : program "x86_64" cached ≡ ok (prog, cached)
unfolding program
from_cache = refl

load_cached : load accepting 1 cached [] ≡ finished (ok (loaded, ok none)) load_log
unfolding load permitted Load.compiled installed attach program set_no_new_privs set_mode_filter
    seccomp call retry seccomp_nr
load_cached = refl

load-eq-ok_example :
    (false ≡ false)
    × ((p : List ℕ) × (f' : Filter) × (program "x86_64" cached ≡ ok (p, f'))
        × (loaded ≡ record f' { loaded = true })
        × IsLoadable p
        × Installs accepting 1 p f'.flags none [] load_log)
load-eq-ok_example = load-eq-ok accepting 1 cached loaded none [] load_log load_cached

cached-Built : Built "x86_64" cached
cached-Built = compiled two_rules cached prog read_program two_rules-Built

loaded_program_returns_verdict_example :
    (p : List ℕ) × Installs accepting 1 p 0 none [] load_log
    × ((bytes : List ℕ) (room : ℕ)
        → IsBytes bytes
        → length p < room * 8
        → run_packed room p bytes ≡ returned (verdict x86 0x7FFF0000 rules bytes))
loaded_program_returns_verdict_example =
    loaded_program_returns_verdict accepting 1 cached loaded none [] load_log x86 cached-Built
      load_cached x86_arch

-- What the two methods were asked for.
abbrev history : List Entry
history =
    record { nr = 0; action = 0x5000D; args = above_2 ∷ [] }
    ∷ record { nr = 101; action = 0x80000000; args = [] }
    ∷ []

read_nr : syscall_nr "x86_64" (number (pos 0)) ≡ ok 0
unfolding syscall_nr
read_nr = refl

ptrace_nr : syscall_nr "x86_64" (name "ptrace") ≡ ok 101
unfolding syscall_nr native
ptrace_nr = refl

errno_action : action_of (Method.errno (pos 13)) ≡ ok 0x5000D
unfolding action_of
errno_action = refl

kill_action : action_of Method.kill ≡ ok 0x80000000
unfolding action_of
kill_action = refl

read_conditions : given above_2_args ≡ ok (above_2 ∷ [])
unfolding given coerce_all coerce_cond new_arg_cmp cmp_op
read_conditions = refl

nothing_given : given none ≡ ok []
unfolding given
nothing_given = refl

two_rules-History : History "x86_64" two_rules history
two_rules-History =
    asked Method.kill (name "ptrace") none one_rule two_rules _ 101 0x80000000 [] tt second_call
      ptrace_nr kill_action nothing_given
      (asked (Method.errno (pos 13)) (number (pos 0)) above_2_args empty one_rule [] 0 0x5000D
        (above_2 ∷ []) (tt, tt) first_call read_nr errno_action read_conditions
        (begun (pos 0x7FFF0000) (pos 0) empty made_empty))

program-decision_example :
    run_packed 16 prog packet ≡ returned (decision x86 0x7FFF0000 history packet)
program-decision_example =
    program-decision "x86_64" two_rules cached history prog packet x86 16 two_rules-History
      read_program x86_arch packet-IsBytes (omega arith)

accepting-Responsive : Responsive accepting 1
accepting-Responsive c log = (0, omega arith, tt, refl)

load-Ends_example : Ends (load accepting 1 cached)
load-Ends_example = load-Ends accepting 1 accepting-Responsive cached

accepting-Accepting : Accepting accepting 1
accepting-Accepting c log = (0, omega arith, tt, refl)

accepting_nr : seccomp_nr accepting ≡ ok 317
unfolding seccomp_nr
accepting_nr = refl

prog-IsLoadable : IsLoadable prog
prog-IsLoadable = (15, refl, omega arith, omega arith)

load-loaded_example :
    (log' : Log) × (load accepting 1 cached [] ≡ finished (ok (loaded, ok none)) log')
load-loaded_example =
    load-loaded accepting 1 317 accepting-Accepting refl accepting_nr cached cached prog [] refl
      from_cache prog-IsLoadable refl
