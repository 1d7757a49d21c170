-- ===== src/Filter/History.antt =====
-- src/seccompy/filter.py: a filter as the list of rules that were asked for, in order, with their
-- conditions as they were given. The dict by syscall, the sorting and the cache are not seen there.
use Prim.Native.String.{String}
use seccompy.Base.{
  ℕ, ◌*◌, ◌≡◌, ◌<◌, refl, sym, ap, ◌∙◌, subst, inl, inr, Option, none, some, List, [], ◌∷◌, ◌++◌,
  length, arith, ◌==◌, if◌then◌else◌, Dict, lookup, nat_eq, Bool-cases,
}
use seccompy.Errors.{bounded, ok, >>=-eq-ok, ok-injective}
use seccompy.Syscalls.{Syscall, syscall_nr, audit_arch}
use seccompy.Bpf.{u32_max}
use seccompy.Bpf.Machine.{word, returned, run_packed}
use seccompy.Filter.Action
use seccompy.Filter.Args.{ArgCmp, Args}
use seccompy.Filter.Compile.{Rule}
use seccompy.Filter.Cond.{IsBytes}
use seccompy.Filter.Spec.{all_hold, first_match, verdict}
use seccompy.Filter.Object.{Filter, new_filter, Method, action_of, call, program}
use seccompy.Filter.Methods.{rules_of, call-eq-ok, program-keeps}
use seccompy.Filter.Checked.{IsArgs}
use seccompy.Base.Int.{ℤ}
use seccompy.Filter.Invariant.{Built, made, called, compiled, program_returns_verdict}
use seccompy.Filter.Entries.{
  Entry, given, first_entry, decision, all_hold-sort_conds, first_match-append, first_entry-append,
  conds-given,
}

module _ (machine : String) where
  -- The filters that a program can build, each with what was asked for: by the constructor, by
  -- methods and by reading `program`. Conditions given as `ArgCmp` objects were made by their
  -- constructor.
  pub data History : Filter → List Entry → Type 0 where
    begun : (d z : ℤ) (f : Filter) → new_filter d z ≡ ok f → History f []
    asked :
        (m : Method) (s : Syscall) (args : Option Args) (f g : Filter) (h : List Entry)
        (nr action : ℕ) (raw : List ArgCmp)
        → IsArgs args
        → call machine m s args f ≡ ok g
        → syscall_nr machine s ≡ ok nr
        → action_of m ≡ ok action
        → given args ≡ ok raw
        → History f h
        → History g (h ++ record { nr = nr; action = action; args = raw } ∷ [])
    read :
        (f g : Filter) (p : List ℕ) (h : List Entry)
        → program machine f ≡ ok (p, g)
        → History f h
        → History g h

  History-Built : (f : Filter) (h : List Entry) → History f h → Built machine f
  History-Built f _ (begun d z _ e) = made d z f e
  History-Built g _ (asked m s args f _ h nr action raw v e _ _ _ past) =
      called m s args f g v e (History-Built f h past)
  History-Built g h (read f _ p _ e past) = compiled f g p e (History-Built f h past)

  -- For every syscall the filter's rules choose as the history does.
  abbrev Agrees : List ℕ → ℕ → Filter → List Entry → Type 0
  Agrees packet k f h =
      (d : ℕ) → first_match d packet (rules_of k f.rules) ≡ first_entry d packet k h

  asked-Agrees :
      (packet : List ℕ) (k : ℕ) (m : Method) (s : Syscall) (args : Option Args) (f g : Filter)
      (h : List Entry) (nr action : ℕ) (raw : List ArgCmp)
      → call machine m s args f ≡ ok g
      → syscall_nr machine s ≡ ok nr
      → action_of m ≡ ok action
      → given args ≡ ok raw
      → Agrees packet k f h
      → Agrees packet k g (h ++ record { nr = nr; action = action; args = raw } ∷ [])
  asked-Agrees packet k m s args f g h nr action raw e e_nr e_action e_raw agree d =
      let (nr', action', cs, e₁, e₂, e₃, _, own, others, _, _, _) =
        call-eq-ok machine m s args f g e in
      let same_nr : nr' ≡ nr = ok-injective (sym e₁ ∙ e_nr) in
      let same_action : action' ≡ action = ok-injective (sym e₂ ∙ e_action) in
      let same_args : all_hold packet cs ≡ all_hold packet raw =
        ap (all_hold packet) (conds-given args raw cs e_raw e₃) ∙ all_hold-sort_conds packet raw in
      let entry : Entry = record { nr = nr; action = action; args = raw } in
      elim (Bool-cases (nr == k)) [
        | inl this ↦
            let at_k : k ≡ nr' = ground (arith, same_nr) in
            ap (first_match d packet) (
              subst
                (λ t.
                  rules_of t g.rules
                  ≡ rules_of t f.rules ++ record { action = action'; args = cs } ∷ [])
                (sym at_k) own)
            ∙ first_match-append d packet (rules_of k f.rules)
                (record { action = action'; args = cs })
            ∙ agree (if all_hold packet cs then action' else d)
            ∙ ap (λ t. first_entry t packet k h) (ground (arith, same_action, same_args))
            ∙ sym (first_entry-append d packet k h entry)
        | inr other ↦
            ap (first_match d packet) (others k (λ at_k. absurd (ground (arith, same_nr))))
            ∙ agree d
            ∙ ap (λ t. first_entry t packet k h) (ground arith)
            ∙ sym (first_entry-append d packet k h entry)
      ]

  new_filter-rules : (d z : ℤ) (f : Filter) → new_filter d z ≡ ok f → f.rules ≡ []
  unfolding new_filter
  new_filter-rules d z f h =
      let (default, e₁, h₁) = >>=-eq-ok (bounded d u32_max _) _ h in
      let (flags, e₂, h₂) = >>=-eq-ok (bounded z u32_max _) _ h₁ in
      ap (λ (t : Filter). t.rules) (sym (ok-injective h₂))

  History-Agrees :
      (packet : List ℕ) (k : ℕ) (f : Filter) (h : List Entry) → History f h → Agrees packet k f h
  unfolding first_match first_entry
  History-Agrees packet k f _ (begun d' z _ e) d =
      ap (λ t. first_match d packet (rules_of k t)) (new_filter-rules d' z f e)
  History-Agrees packet k g _ (asked m s args f _ h nr action raw v e e₁ e₂ e₃ past) d =
      asked-Agrees packet k m s args f g h nr action raw e e₁ e₂ e₃
        (History-Agrees packet k f h past) d
  History-Agrees packet k g h (read f _ p _ e past) d =
      ap (λ t. first_match d packet (rules_of k t)) (program-keeps machine f g p e).0
      ∙ History-Agrees packet k f h past d

verdict-rules_of :
    (arch default : ℕ) (rules : Dict ℕ (List Rule)) (packet : List ℕ)
    → verdict arch default rules packet ≡ (
        if word packet 4 == arch
        then first_match default packet (rules_of (word packet 0) rules)
        else Action.kill_process)
unfolding verdict first_match
verdict-rules_of arch default rules packet = split (lookup (word packet 0) rules)
  where
    split :
        (o : Option (List Rule))
        → (if word packet 4 == arch
            then elim o [ none ↦ default | some rs ↦ first_match default packet rs ]
            else Action.kill_process)
          ≡ (if word packet 4 == arch
              then first_match default packet (elim o [ none ↦ [] | some rs ↦ rs ])
              else Action.kill_process)
    split none = refl
    split (some rs) = refl

module _ (machine : String) where
  -- For a filter with a history: the bytes that `program` returns, run on the bytes of a `struct
  -- seccomp_data` with fuel above their number of records, end and return the decision of the
  -- history: on the machine's architecture the action of the first rule asked for this syscall of
  -- which all conditions, as they were given, hold, and otherwise the default; kill elsewhere.
  pub program-decision :
      (f g : Filter) (h : List Entry) (p packet : List ℕ) (arch fuel : ℕ)
      → History machine f h
      → program machine f ≡ ok (p, g)
      → audit_arch machine ≡ ok arch
      → IsBytes packet
      → length p < fuel * 8
      → run_packed fuel p packet ≡ returned (decision arch f.default h packet)
  unfolding decision
  program-decision f g h p packet arch fuel past made_by native bytes enough =
      program_returns_verdict machine f g p packet arch fuel (History-Built machine f h past)
        made_by native bytes enough
      ∙ ap returned (
          verdict-rules_of arch f.default f.rules packet
          ∙ ap (λ t. if word packet 4 == arch then t else Action.kill_process)
              (History-Agrees machine packet (word packet 0) f h past f.default))
