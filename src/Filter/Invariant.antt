-- ===== src/Filter/Invariant.antt =====
-- src/seccompy/filter.py: what holds of every `Filter` that its constructor and methods build.
use Prim.Native.String.{String}
use mathlib.Core.Option.{none, some-injective}
use seccompy.Base.{
  ℕ, ◌*◌, ◌^◌, ◌≤◌, ◌<◌, ◌≡◌, sym, ◌∙◌, subst, ◌⊎◌, inl, inr, Option, some, List, [], ◌∷◌, arith,
  ◌==◌, All-append, Bool-cases, Option-cases, Dict, All-lookup, string_eq, length, nat_eq,
}
use seccompy.Base.Int.{ℤ}
use seccompy.Errors.{bounded-le, bounded, ok, >>=-eq-ok, ok-injective, unsupported_error}
use seccompy.Bpf.{u32_max}
use seccompy.Bpf.Machine.{returned, run_packed}
use seccompy.Syscalls.{Arch, Syscall, syscall_nr, audit_arch, native, arches}
use seccompy.Syscalls.RoundTrip.{syscall_nr-fits, or_raise-eq-ok}
use seccompy.Filter.Args.{Args}
use seccompy.Filter.Compile.{Rule, compile}
use seccompy.Filter.Spec.{verdict}
use seccompy.Filter.Cond.{IsBytes}
use seccompy.Filter.Rules.{IsRule}
use seccompy.Filter.Blocks.{Key}
use seccompy.Filter.Correct.{IsTable, compiled_program_returns_verdict}
use seccompy.Filter.Object.{
  Filter, new_filter, check_mutable, conds, add_rule, Method, action_of, add, call, program,
}
use seccompy.Filter.Checked.{IsArgs, conds-IsCond, action_of-lt}

Key-add_rule :
    (m nr : ℕ) (r : Rule) (rules : Dict ℕ (List Rule))
    → Key m (add_rule nr r rules)
    → (m ≡ nr) ⊎ Key m rules
unfolding add_rule
Key-add_rule m nr r [] h = h
Key-add_rule m nr r ((k, rs) ∷ rules) h = elim (Bool-cases (k == nr)) [
  | inl same ↦ inr (rw same at h)
  | inr other ↦ elim (rw other at h) [
    | inl here ↦ inr (inl here)
    | inr there ↦ elim (Key-add_rule m nr r rules there) [ inl e ↦ inl e | inr e ↦ inr (inr e) ]
  ]
]

IsTable-add_rule :
    (nr : ℕ) (r : Rule) (rules : Dict ℕ (List Rule))
    → nr < 2 ^ 32
    → IsRule r
    → IsTable rules
    → IsTable (add_rule nr r rules)
unfolding add_rule
IsTable-add_rule nr r [] small good t = record {
  distinct = ((λ q. q), tt);
  numbers = (small, tt);
  valid = ((good, tt), tt);
}
IsTable-add_rule nr r ((k, rs) ∷ rules) small good t = elim (Bool-cases (k == nr)) [
  | inl same ↦ rw same (record {
    distinct = t.distinct;
    numbers = t.numbers;
    valid = (All-append IsRule rs (r ∷ []) t.valid.0 (good, tt), t.valid.1);
  })
  | inr other ↦
      let rest =
        IsTable-add_rule nr r rules small good
          (record { distinct = t.distinct.1; numbers = t.numbers.1; valid = t.valid.1 }) in
      rw other (record {
        distinct = (
          (λ q. elim (Key-add_rule k nr r rules q) [
            | inl e ↦ ground arith
            | inr e ↦ t.distinct.0 e
          ]),
          rest.distinct,
        );
        numbers = (t.numbers.0, rest.numbers);
        valid = (t.valid.0, rest.valid);
      })
]

module _ (machine : String) where
  -- What `_compile` returns for the filter.
  abbrev pub IsCompiled : Filter → List ℕ → Type 0
  IsCompiled f p =
      (arch : ℕ) × (audit_arch machine ≡ ok arch) × (compile arch f.default f.rules ≡ ok p)

  -- The invariant of the class: a 32-bit default, a well-formed table, and a cache that holds what
  -- `_compile` returns now.
  pub record IsFilter (f : Filter) : Type 0 where
    pub default_le : f.default ≤ u32_max
    pub table : IsTable f.rules
    pub cached : (p : List ℕ) → f.program ≡ some p → IsCompiled f p

  -- The filters that a program can build: by the constructor, by methods and by reading `program`.
  pub data Built : Filter → Type 0 where
    made : (d z : ℤ) (f : Filter) → new_filter d z ≡ ok f → Built f
    called :
        (m : Method) (s : Syscall) (args : Option Args) (f g : Filter)
        → IsArgs args
        → call machine m s args f ≡ ok g
        → Built f
        → Built g
    compiled : (f g : Filter) (p : List ℕ) → program machine f ≡ ok (p, g) → Built f → Built g

  new_filter-IsFilter : (d z : ℤ) (f : Filter) → new_filter d z ≡ ok f → IsFilter f
  unfolding new_filter
  new_filter-IsFilter d z f h =
      let (default, e₁, h₁) = >>=-eq-ok (bounded d u32_max _) _ h in
      let (flags, e₂, h₂) = >>=-eq-ok (bounded z u32_max _) _ h₁ in
      subst IsFilter (ok-injective h₂) (record {
        default_le = bounded-le d u32_max _ default e₁;
        table = record { distinct = tt; numbers = tt; valid = tt };
        cached = λ p e. absurd (cc);
      })

  call-IsFilter :
      (m : Method) (s : Syscall) (args : Option Args) (f g : Filter)
      → IsArgs args
      → call machine m s args f ≡ ok g
      → IsFilter f
      → IsFilter g
  unfolding call add
  call-IsFilter m s args f g v h inv =
      let (action, e₁, h₁) = >>=-eq-ok (action_of m) _ h in
      let (_, e₂, h₂) = >>=-eq-ok (check_mutable f) _ h₁ in
      let (nr, e₃, h₃) = >>=-eq-ok (syscall_nr machine s) _ h₂ in
      let (cs, e₄, h₄) = >>=-eq-ok (conds args) _ h₃ in
      subst IsFilter (ok-injective h₄) (record {
        default_le = inv.default_le;
        table =
            IsTable-add_rule nr (record { action = action; args = cs }) f.rules
              (syscall_nr-fits machine s nr e₃)
              (action_of-lt m action e₁, conds-IsCond args cs v e₄) inv.table;
        cached = λ p e. absurd (cc);
      })

  -- Reading `program` keeps the default and the rules, and returns what `_compile` returns.
  program-compile :
      (f g : Filter) (p : List ℕ)
      → program machine f ≡ ok (p, g)
      → IsFilter f
      → IsFilter g × IsCompiled f p
  unfolding program
  program-compile f g p h inv = elim (Option-cases f.program) [
    | inl fresh ↦
        let (arch, e₁, h₁) = >>=-eq-ok (audit_arch machine) _ (rw fresh at h) in
        let (q, e₂, h₂) = >>=-eq-ok (compile arch f.default f.rules) _ h₁ in
        subst (λ (x : List ℕ × Filter). IsFilter x.1 × IsCompiled f x.0) (ok-injective h₂)
          (
            record {
              default_le = inv.default_le;
              table = inv.table;
              cached = λ p' e. (
                arch,
                e₁,
                subst (λ t. compile arch f.default f.rules ≡ ok t) (some-injective q p' e) e₂,
              );
            },
            (arch, e₁, e₂),
          )
    | inr (q, found) ↦
        subst (λ (x : List ℕ × Filter). IsFilter x.1 × IsCompiled f x.0)
          (ok-injective (rw found at h))
          (
            record {
              default_le = inv.default_le;
              table = inv.table;
              cached = λ p' e. inv.cached p' (found ∙ e);
            },
            inv.cached q found,
          )
  ]

  -- The constructor makes a filter with the invariant (a 32-bit default, one entry for a syscall,
  -- 32-bit numbers and actions, checked conditions, a cache that holds what `_compile` returns), and
  -- every method and every reading of `program` keeps it, if conditions given as `ArgCmp` objects
  -- were made by their constructor.
  pub Built-IsFilter : (f : Filter) → Built f → IsFilter f
  Built-IsFilter f (made d z _ h) = new_filter-IsFilter d z f h
  Built-IsFilter g (called m s args f _ v h b) = call-IsFilter m s args f g v h (Built-IsFilter f b)
  Built-IsFilter g (compiled f _ p h b) = (program-compile f g p h (Built-IsFilter f b)).0

  audit_arch-lt : (arch : ℕ) → audit_arch machine ≡ ok arch → arch < 2 ^ 32
  unfolding audit_arch native
  audit_arch-lt arch h =
      let (a, found, e) = >>=-eq-ok (native machine) _ h in
      subst (λ t. t < 2 ^ 32) (ok-injective e)
        (All-lookup (λ (t : Arch). t.audit < 2 ^ 32) machine a arches
          (omega arith, (omega arith, (omega arith, (omega arith, tt))))
          (or_raise-eq-ok _ (unsupported_error none) found))

  -- The bytes that `program` returns for a filter that the constructor and the methods built, run on
  -- the bytes of a `struct seccomp_data` with fuel above their number of records, end and return the
  -- verdict of the filter's rules on the machine's architecture, whether they come from the cache or
  -- not.
  pub program_returns_verdict :
      (f g : Filter) (p packet : List ℕ) (arch fuel : ℕ)
      → Built f
      → program machine f ≡ ok (p, g)
      → audit_arch machine ≡ ok arch
      → IsBytes packet
      → length p < fuel * 8
      → run_packed fuel p packet ≡ returned (verdict arch f.default f.rules packet)
  program_returns_verdict f g p packet arch fuel b h there bytes enough =
      let inv = Built-IsFilter f b in
      let (arch', e, compiled_to) = (program-compile f g p h inv).1 in
      let same : arch' ≡ arch = ok-injective (sym e ∙ there) in
      compiled_program_returns_verdict arch f.default f.rules inv.table p
        (subst (λ t. compile t f.default f.rules ≡ ok p) same compiled_to) packet fuel
        (audit_arch-lt arch there) bytes enough
