-- ===== src/Filter/Tests.antt =====
-- A filter of two rules, and the theorems about src/seccompy/filter.py at it.
use seccompy.Filter.Object.{
  Filter, new_filter, check_mutable, conds, add_rule, Method, action_of, add, call, program,
}
use seccompy.Filter.Methods.{rules_of, call-eq-ok}
use seccompy.Filter.Checked.{new_arg_cmp-IsCond}
use seccompy.Filter.Payload.{IsAction, action_of-IsAction}
use seccompy.Filter.Invariant.{
  IsFilter, Built, made, called, Built-IsFilter, program_returns_verdict,
}
use seccompy.Syscalls.{Syscall, name, number, syscall_nr, native, audit_arch}
use seccompy.Base.{
  ℕ, ◌≡◌, ◌≢◌, ◌↔◌, ◌++◌, false, Option, none, some, refl, List, [], ◌∷◌, arith, Dict, nat_eq,
}
use seccompy.Base.Int.{pos}
use seccompy.Errors.{ok}
use seccompy.Bpf.{check_u32}
use seccompy.Bpf.Pack.{encode, pack}
use seccompy.Bpf.Assemble.{
  assemble, validate_labels, validate_targets, targets, resolve_sizes, resolve_rounds, sweep,
  resize, needs_expansion, offset, position_of, positions, positions_from, emit, emit_all,
}
use seccompy.Bpf.Machine.{returned, run_packed, word}
use seccompy.Filter.Args.{
  ArgCmp, gt, IsCond, Args, conditions, triple, coerce_all, coerce_cond, new_arg_cmp, cmp_op,
  sort_conds, insert_cond,
}
use seccompy.Filter.Compile.{
  Rule, compile, build, prologue, emit_blocks, emit_rules, emit_rule, emit_conds, emit_cond,
  cond_insns, masked_word, check_insns,
}
use seccompy.Filter.Spec.{verdict, first_match, all_hold, argument}
use seccompy.Filter.Cond.{IsBytes}
use seccompy.Filter.Correct.{IsTable, compiled_program_returns_verdict}

-- `read` on a descriptor above 2 fails with EACCES; `ptrace` is killed.
abbrev pub above_2 : ArgCmp
above_2 = record { index = 0; op = gt; value = 2; mask = 0xFFFFFFFFFFFFFFFF }

abbrev pub rules : Dict ℕ (List Rule)
rules =
    (0, record { action = 0x5000D; args = above_2 ∷ [] } ∷ [])
    ∷ (101, record { action = 0x80000000; args = [] } ∷ [])
    ∷ []

abbrev pub x86 : ℕ
x86 = 0xC000003E

abbrev pub prog : List ℕ
prog =
    0x20 ∷ 0 ∷ 0 ∷ 0 ∷ 4 ∷ 0 ∷ 0 ∷ 0 ∷ 0x15 ∷ 0 ∷ 0 ∷ 12 ∷ 0x3E ∷ 0 ∷ 0 ∷ 0xC0 ∷ 0x20 ∷ 0 ∷ 0 ∷ 0
    ∷ 0 ∷ 0 ∷ 0 ∷ 0 ∷ 0x15 ∷ 0 ∷ 2 ∷ 0 ∷ 0 ∷ 0 ∷ 0 ∷ 0 ∷ 0x15 ∷ 0 ∷ 8 ∷ 0 ∷ 101 ∷ 0 ∷ 0 ∷ 0 ∷ 0x06
    ∷ 0 ∷ 0 ∷ 0 ∷ 0 ∷ 0 ∷ 0xFF ∷ 0x7F ∷ 0x20 ∷ 0 ∷ 0 ∷ 0 ∷ 20 ∷ 0 ∷ 0 ∷ 0 ∷ 0x25 ∷ 0 ∷ 3 ∷ 0 ∷ 0 ∷ 0
    ∷ 0 ∷ 0 ∷ 0x15 ∷ 0 ∷ 0 ∷ 3 ∷ 0 ∷ 0 ∷ 0 ∷ 0 ∷ 0x20 ∷ 0 ∷ 0 ∷ 0 ∷ 16 ∷ 0 ∷ 0 ∷ 0 ∷ 0x25 ∷ 0 ∷ 0
    ∷ 1 ∷ 2 ∷ 0 ∷ 0 ∷ 0 ∷ 0x06 ∷ 0 ∷ 0 ∷ 0 ∷ 0x0D ∷ 0 ∷ 5 ∷ 0 ∷ 0x06 ∷ 0 ∷ 0 ∷ 0 ∷ 0 ∷ 0 ∷ 0xFF
    ∷ 0x7F ∷ 0x06 ∷ 0 ∷ 0 ∷ 0 ∷ 0 ∷ 0 ∷ 0 ∷ 0x80 ∷ 0x06 ∷ 0 ∷ 0 ∷ 0 ∷ 0 ∷ 0 ∷ 0 ∷ 0x80 ∷ []

compiled : compile x86 0x7FFF0000 rules ≡ ok prog
unfolding compile build prologue emit_blocks emit_rules emit_rule emit_conds emit_cond cond_insns
    masked_word check_insns assemble validate_labels validate_targets targets resolve_sizes
    resolve_rounds sweep resize needs_expansion offset position_of positions positions_from emit
    emit_all pack encode check_u32
compiled = refl

-- `read(7, …)`
abbrev pub packet : List ℕ
packet =
    0 ∷ 0 ∷ 0 ∷ 0 ∷ 0x3E ∷ 0 ∷ 0 ∷ 0xC0 ∷ 0 ∷ 0 ∷ 0 ∷ 0 ∷ 0 ∷ 0 ∷ 0 ∷ 0 ∷ 7 ∷ 0 ∷ 0 ∷ 0 ∷ 0 ∷ 0 ∷ 0
    ∷ 0 ∷ []

pub packet-IsBytes : IsBytes packet
packet-IsBytes = ground arith

denied : verdict x86 0x7FFF0000 rules packet ≡ 0x5000D
unfolding verdict first_match all_hold argument word
denied = refl

above_2-IsCond : IsCond above_2
above_2-IsCond = record {
  index_le = omega arith;
  value_le = omega arith;
  mask_le = omega arith;
  in_mask = λ e. absurd (cc);
  full_mask = λ e. refl;
}

rules-IsTable : IsTable rules
rules-IsTable = record {
  distinct = ground arith;
  numbers = ground arith;
  valid = (((omega arith, (above_2-IsCond, tt)), tt), (((omega arith, tt), tt), tt));
}

compiled_program_returns_verdict_example :
    run_packed 16 prog packet ≡ returned (verdict x86 0x7FFF0000 rules packet)
compiled_program_returns_verdict_example =
    compiled_program_returns_verdict x86 0x7FFF0000 rules rules-IsTable prog compiled packet 16
      (omega arith) packet-IsBytes (omega arith)

-- The filter as a program builds it.
abbrev pub empty : Filter
empty = record { default = 0x7FFF0000; flags = 0; rules = []; program = none; loaded = false }

abbrev pub one_rule : Filter
one_rule = record empty { rules = (0, record { action = 0x5000D; args = above_2 ∷ [] } ∷ []) ∷ [] }

abbrev pub two_rules : Filter
two_rules = record empty { rules = rules }

abbrev pub above_2_args : Option Args
above_2_args = some (conditions (triple (pos 0) (pos 4) (pos 2) ∷ []))

pub made_empty : new_filter (pos 0x7FFF0000) (pos 0) ≡ ok empty
unfolding new_filter
made_empty = refl

pub first_call :
    call "x86_64" (Method.errno (pos 13)) (number (pos 0)) above_2_args empty ≡ ok one_rule
unfolding call add action_of check_mutable syscall_nr conds add_rule coerce_all coerce_cond
    new_arg_cmp cmp_op sort_conds insert_cond
first_call = refl

pub second_call : call "x86_64" Method.kill (name "ptrace") none one_rule ≡ ok two_rules
unfolding call add action_of check_mutable syscall_nr native conds add_rule
second_call = refl

pub two_rules-Built : Built "x86_64" two_rules
two_rules-Built = called Method.kill (name "ptrace") none one_rule two_rules tt second_call (
    called (Method.errno (pos 13)) (number (pos 0)) above_2_args empty one_rule (tt, tt) first_call
      (made (pos 0x7FFF0000) (pos 0) empty made_empty))

pub read_program : program "x86_64" two_rules ≡ ok (prog, record two_rules { program = some prog })
unfolding program audit_arch native compile build prologue emit_blocks emit_rules emit_rule
    emit_conds emit_cond cond_insns masked_word check_insns assemble validate_labels
    validate_targets targets resolve_sizes resolve_rounds sweep resize needs_expansion offset
    position_of positions positions_from emit emit_all pack encode check_u32
read_program = refl

pub x86_arch : audit_arch "x86_64" ≡ ok x86
unfolding audit_arch native
x86_arch = refl

program_returns_verdict_example :
    run_packed 16 prog packet ≡ returned (verdict x86 0x7FFF0000 rules packet)
program_returns_verdict_example =
    program_returns_verdict "x86_64" two_rules (record two_rules { program = some prog }) prog
      packet x86 16 two_rules-Built read_program x86_arch packet-IsBytes (omega arith)

Built-IsFilter_example : IsFilter "x86_64" two_rules
Built-IsFilter_example = Built-IsFilter "x86_64" two_rules two_rules-Built

abbrev CallFacts : Method → Syscall → Option Args → Filter → Filter → Type 0
CallFacts m s args f g =
    (nr : ℕ) × (action : ℕ) × (cs : List ArgCmp) × (syscall_nr "x86_64" s ≡ ok nr)
    × (action_of m ≡ ok action)
    × (conds args ≡ ok cs)
    × (f.loaded ≡ false)
    × (rules_of nr g.rules ≡ rules_of nr f.rules ++ record { action = action; args = cs } ∷ [])
    × ((k : ℕ) → k ≢ nr → rules_of k g.rules ≡ rules_of k f.rules)
    × (g.default ≡ f.default)
    × (g.flags ≡ f.flags)
    × (g.program ≡ none)

call-eq-ok_example : CallFacts Method.kill (name "ptrace") none one_rule two_rules
call-eq-ok_example =
    call-eq-ok "x86_64" Method.kill (name "ptrace") none one_rule two_rules second_call

made_above_2 : new_arg_cmp (pos 0) (pos 4) (pos 2) (pos 0xFFFFFFFFFFFFFFFF) ≡ ok above_2
unfolding new_arg_cmp cmp_op
made_above_2 = refl

new_arg_cmp-IsCond_example : IsCond above_2
new_arg_cmp-IsCond_example =
    new_arg_cmp-IsCond (pos 0) (pos 4) (pos 2) (pos 0xFFFFFFFFFFFFFFFF) above_2 made_above_2

action_of-IsAction_example :
    (action_of (Method.errno (pos 13)) ≡ ok 0x5000D) ↔ IsAction (Method.errno (pos 13)) 0x5000D
action_of-IsAction_example = action_of-IsAction (Method.errno (pos 13)) 0x5000D
