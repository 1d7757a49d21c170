-- ===== src/Filter/Methods.antt =====
-- src/seccompy/filter.py: what a method of `Filter` that adds a rule does to the rules.
use Prim.Native.String.{String}
use seccompy.Base.{
  ℕ, ◌≡◌, ◌≢◌, refl, sym, ap, ◌∙◌, Bool, true, false, Option, none, some, List, [], ◌∷◌, ◌++◌,
  arith, Dict, lookup, nat_eq, Option-cases, inl, inr,
}
use seccompy.Errors.{ok, >>=-eq-ok, ok-injective, raise_if, runtime_error}
use seccompy.Syscalls.{Syscall, syscall_nr, audit_arch}
use seccompy.Filter.Args.{Args, ArgCmp}
use seccompy.Filter.Compile.{Rule, compile}
use seccompy.Filter.Object.{
  Filter, check_mutable, conds, add_rule, Method, action_of, add, call, program,
}

-- The rules of a syscall.
abbrev pub rules_of : ℕ → Dict ℕ (List Rule) → List Rule
rules_of nr rules = elim (lookup nr rules) [ none ↦ [] | some rs ↦ rs ]

rules_of-add_rule_self :
    (nr : ℕ) (r : Rule) (rules : Dict ℕ (List Rule))
    → rules_of nr (add_rule nr r rules) ≡ rules_of nr rules ++ r ∷ []
unfolding add_rule
rules_of-add_rule_self nr r [] = ground arith
rules_of-add_rule_self nr r ((m, rs) ∷ rules) = ground (arith, rules_of-add_rule_self nr r rules)

rules_of-add_rule_ne :
    (k nr : ℕ) (r : Rule) (rules : Dict ℕ (List Rule))
    → k ≢ nr
    → rules_of k (add_rule nr r rules) ≡ rules_of k rules
unfolding add_rule
rules_of-add_rule_ne k nr r [] ne = ground arith
rules_of-add_rule_ne k nr r ((m, rs) ∷ rules) ne =
    ground (arith, rules_of-add_rule_ne k nr r rules ne)

module _ (machine : String) where
  -- A method's call that succeeds found the filter not loaded, puts one rule, with the method's
  -- action and the sorted conditions, behind the rules of the syscall that it names, leaves the
  -- rules of every other syscall, the default and the flags, and empties the cache.
  pub call-eq-ok :
      (m : Method) (s : Syscall) (args : Option Args) (f g : Filter)
      → call machine m s args f ≡ ok g
      → (nr : ℕ) × (action : ℕ) × (cs : List ArgCmp) × (syscall_nr machine s ≡ ok nr)
        × (action_of m ≡ ok action)
        × (conds args ≡ ok cs)
        × (f.loaded ≡ false)
        × (rules_of nr g.rules ≡ rules_of nr f.rules ++ record { action = action; args = cs } ∷ [])
        × ((k : ℕ) → k ≢ nr → rules_of k g.rules ≡ rules_of k f.rules)
        × (g.default ≡ f.default)
        × (g.flags ≡ f.flags)
        × (g.program ≡ none)
  unfolding call add check_mutable
  call-eq-ok m s args f g h =
      let (action, e₁, h₁) = >>=-eq-ok (action_of m) _ h in
      let (_, e₂, h₂) = >>=-eq-ok (check_mutable f) _ h₁ in
      let (nr, e₃, h₃) = >>=-eq-ok (syscall_nr machine s) _ h₂ in
      let (cs, e₄, h₄) = >>=-eq-ok (conds args) _ h₃ in
      let r : Rule = record { action = action; args = cs } in
      let same = ok-injective h₄ in
      (
        nr,
        action,
        cs,
        e₃,
        e₁,
        e₄,
        not_loaded f.loaded e₂,
        ap (λ (t : Filter). rules_of nr t.rules) (sym same) ∙ rules_of-add_rule_self nr r f.rules,
        (λ k ne.
            ap (λ (t : Filter). rules_of k t.rules) (sym same)
            ∙ rules_of-add_rule_ne k nr r f.rules ne),
        ap (λ (t : Filter). t.default) (sym same),
        ap (λ (t : Filter). t.flags) (sym same),
        ap (λ (t : Filter). t.program) (sym same),
      )
    where
      not_loaded : (b : Bool) → raise_if b runtime_error ≡ ok tt → b ≡ false
      not_loaded true e = absurd (cc)
      not_loaded false e = refl

  -- The property `program` changes the cache alone.
  pub program-keeps :
      (f g : Filter) (p : List ℕ)
      → program machine f ≡ ok (p, g)
      → (g.rules ≡ f.rules) × (g.default ≡ f.default) × (g.flags ≡ f.flags)
  unfolding program
  program-keeps f g p h = elim (Option-cases f.program) [
    | inl fresh ↦
        let (arch, e₁, h₁) = >>=-eq-ok (audit_arch machine) _ (rw fresh at h) in
        let (q, e₂, h₂) = >>=-eq-ok (compile arch f.default f.rules) _ h₁ in
        same_as (record f { program = some q }) (ok-injective h₂) refl refl refl
    | inr (q, found) ↦
        same_as (record f { program = some q }) (ok-injective (rw found at h)) refl refl refl
  ]
    where
      same_as :
          (f' : Filter) {q : List ℕ}
          → ◌≡◌ {A = List ℕ × Filter} (q, f') (p, g)
          → f'.rules ≡ f.rules
          → f'.default ≡ f.default
          → f'.flags ≡ f.flags
          → (g.rules ≡ f.rules) × (g.default ≡ f.default) × (g.flags ≡ f.flags)
      same_as f' e rules default flags = (
        ap (λ (x : List ℕ × Filter). x.1.rules) (sym e) ∙ rules,
        ap (λ (x : List ℕ × Filter). x.1.default) (sym e) ∙ default,
        ap (λ (x : List ℕ × Filter). x.1.flags) (sym e) ∙ flags,
      )
