-- ===== src/Filter/Object.antt =====
-- src/seccompy/filter.py: the class `Filter`, its state and the methods that change it.
use Prim.Native.String.{String}
use seccompy.Base.{
  ℕ, Bool, false, Option, none, some, List, [], ◌∷◌, ◌++◌, ◌==◌, if◌then◌else◌, Dict, bit_or,
}
use seccompy.Base.Int.{ℤ}
use seccompy.Errors.{
  bounded, Result, ok, err, ◌>>=◌, ◌>>◌, raise_if, value_error, runtime_error, default_out_of_range,
  flags_out_of_range, errno_out_of_range, message_out_of_range,
}
use seccompy.Bpf.{u32_max}
use seccompy.Syscalls.{Syscall, syscall_nr, audit_arch}
use seccompy.Filter.Action
use seccompy.Filter.Args.{ArgCmp, Args, mapping, conditions, coerce_all, coerce_mapping, sort_conds}
use seccompy.Filter.Compile.{Rule, compile}

-- `SECCOMP_RET_DATA`
abbrev pub ret_data : ℕ
ret_data = 0xFFFF

-- `Filter` and its slots.
pub record Filter : Type 0 where
  pub default : ℕ
  pub flags : ℕ
  pub rules : Dict ℕ (List Rule)
  pub program : Option (List ℕ)
  pub loaded : Bool

-- `Filter(default, flags=flags)`
unfoldable pub new_filter : ℤ → ℤ → Result Filter
new_filter d f = do
  default ← bounded d u32_max (err (value_error default_out_of_range))
  flags ← bounded f u32_max (err (value_error flags_out_of_range))
  ok (record { default = default; flags = flags; rules = []; program = none; loaded = false })

-- `_check_mutable`
unfoldable pub check_mutable : Filter → Result (Unit {0})
check_mutable f = raise_if f.loaded runtime_error

-- The conditions of a rule, coerced and sorted.
unfoldable pub conds : Option Args → Result (List ArgCmp)
unfolding coerce_all coerce_mapping sort_conds
conds none = ok []
conds (some (mapping m)) = do raw ← coerce_mapping m; ok (sort_conds raw)
conds (some (conditions cs)) = do raw ← coerce_all cs; ok (sort_conds raw)

-- `rules.setdefault(nr, []).append(rule)`
unfoldable pub add_rule : ℕ → Rule → Dict ℕ (List Rule) → Dict ℕ (List Rule)
add_rule nr r [] = (nr, r ∷ []) ∷ []
add_rule nr r ((m, rs) ∷ rules) =
    if m == nr then (m, rs ++ r ∷ []) ∷ rules else (m, rs) ∷ add_rule nr r rules

-- The methods that add a rule.
pub data Method : Type 0 where
  allow : Method
  kill : Method
  kill_thread : Method
  trap : Method
  errno : ℤ → Method
  trace : ℤ → Method
  log : Method
  notify : Method

-- The action that a method attaches, with the check of its payload.
unfoldable pub action_of : Method → Result ℕ
action_of allow = ok Action.allow
action_of kill = ok Action.kill_process
action_of kill_thread = ok Action.kill_thread
action_of trap = ok Action.trap
action_of (errno e) = do
  n ← bounded e ret_data (err (value_error errno_out_of_range))
  ok (bit_or Action.errno n)
action_of (trace msg) = do
  n ← bounded msg ret_data (err (value_error message_out_of_range))
  ok (bit_or Action.trace n)
action_of log = ok Action.log
action_of notify = ok Action.user_notif

module _ (machine : String) where
  -- `_add`
  unfoldable pub add : Syscall → ℕ → Option Args → Filter → Result Filter
  unfolding check_mutable syscall_nr conds add_rule
  add syscall action args f = do
    check_mutable f
    nr ← syscall_nr machine syscall
    cs ← conds args
    ok (record f {
      rules = add_rule nr (record { action = action; args = cs }) f.rules;
      program = none;
    })

  -- A method's call.
  unfoldable pub call : Method → Syscall → Option Args → Filter → Result Filter
  unfolding add action_of
  call m syscall args f = do action ← action_of m; add syscall action args f

  -- The property `program`: the bytes, and the filter that has them in its cache.
  unfoldable pub program : Filter → Result (List ℕ × Filter)
  unfolding audit_arch compile
  program f = elim f.program [
    | some p ↦ ok (p, f)
    | none ↦ do
      arch ← audit_arch machine
      p ← compile arch f.default f.rules
      ok (p, record f { program = some p })
  ]
