-- ===== src/Filter/Spec.antt =====
-- What a filter means, as the docstrings of src/seccompy/filter.py say: rules of a syscall in order
-- of insertion, the first match wins; conditions are unsigned comparisons of 64-bit arguments.
use seccompy.Base.{
  ℕ, ◌+◌, ◌*◌, ◌^◌, Bool, true, not, ◌&&◌, none, some, List, [], ◌∷◌, bit_and, ltb, leb, ◌==◌,
  if◌then◌else◌, Dict, nat_eq, lookup,
}
use seccompy.Bpf.Machine.{word}
use seccompy.Filter.Action
use seccompy.Filter.Args.{ArgCmp, CmpOp, eq, ne, lt, le, gt, ge, masked_eq}
use seccompy.Filter.Compile.{Rule}

-- The 64-bit argument `index` of a `struct seccomp_data`.
unfoldable pub argument : List ℕ → ℕ → ℕ
argument packet index = word packet (16 + 8 * index) + 2 ^ 32 * word packet (16 + 8 * index + 4)

abbrev pub compares : CmpOp → ℕ → ℕ → ℕ → Bool
compares eq arg value mask = arg == value
compares ne arg value mask = not (arg == value)
compares lt arg value mask = ltb arg value
compares le arg value mask = leb arg value
compares gt arg value mask = ltb value arg
compares ge arg value mask = leb value arg
compares masked_eq arg value mask = bit_and arg mask == value

abbrev pub cond_holds : List ℕ → ArgCmp → Bool
cond_holds packet c = compares c.op (argument packet c.index) c.value c.mask

unfoldable pub all_hold : List ℕ → List ArgCmp → Bool
all_hold packet [] = true
all_hold packet (c ∷ cs) = cond_holds packet c && all_hold packet cs

-- The action of the first rule whose conditions all hold.
unfoldable pub first_match : ℕ → List ℕ → List Rule → ℕ
unfolding all_hold
first_match default packet [] = default
first_match default packet (r ∷ rs) =
    if all_hold packet r.args then r.action else first_match default packet rs

-- The verdict on a `struct seccomp_data`: a foreign architecture is killed, a syscall with no rules
-- gets the default.
unfoldable pub verdict : ℕ → ℕ → Dict ℕ (List Rule) → List ℕ → ℕ
unfolding first_match
verdict arch default rules packet =
    if word packet 4 == arch
    then elim (lookup (word packet 0) rules) [
      | none ↦ default
      | some rs ↦ first_match default packet rs
    ]
    else Action.kill_process
