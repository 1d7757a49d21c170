-- ===== src/Filter/Rules.antt =====
-- The block that `_compile` of src/seccompy/filter.py emits for a syscall returns the action of the
-- first rule that matches.
use seccompy.Base.{
  ℕ, ◌+◌, ◌^◌, ◌<◌, ◌≡◌, refl, sym, ap, ◌∙◌, subst, true, false, none, some, List, [], ◌∷◌, arith,
  if◌then◌else◌, length, length-append, get_elem?, All, lookup,
}
use seccompy.Base.Int.{pos}
use seccompy.Bpf.{ret}
use seccompy.Filter.Args.{ArgCmp, IsCond}
use seccompy.Filter.Labels.{block, next, hit, kill, label_eq}
use seccompy.Filter.Compile.{
  Asm, append, Rule, emit_cond, emit_conds, emit_rule, emit_rules, cond_insns,
}
use seccompy.Filter.Source.{Returns, Returns-ret}
use seccompy.Filter.Spec.{all_hold, first_match}
use seccompy.Filter.Cond.{IsBytes}
use seccompy.Filter.Decide.{cond-Decides}
use seccompy.Filter.Extends.{
  Extends, Extends-trans, Extends-append, Extends-mark, Unused, Unused-mark, lookup-mark,
  Has-appended, OfConds, OfRules, emit_conds-Unused, emit_cond-OfConds, emit_conds-Extends,
}

abbrev pub IsRule : Rule → Type 0
IsRule r = (r.action < 2 ^ 32) × All IsCond r.args

-- After a rule the labels of the later ones are still unused.
emit_rule-OfRules :
    (nr i : ℕ) (r : Rule) (a : Asm)
    → Unused (OfRules nr i) a
    → Unused (OfRules nr (i + 1)) (emit_rule nr i r a)
unfolding emit_rule
emit_rule-OfRules nr i r a h =
    Unused-mark (OfRules nr (i + 1)) (next nr i)
      (append (ret r.action ∷ []) (emit_conds nr i 0 r.args a)) (λ q. omega arith)
      (emit_conds-Unused (OfRules nr (i + 1)) nr i 0 r.args a (λ k q. omega arith) (narrower h))
  where
    narrower : Unused (OfRules nr i) a → Unused (OfRules nr (i + 1)) a
    narrower h (hit m k l) q = h (hit m k l) (omega arith)
    narrower h (block m) q = elim q [ ]
    narrower h (next m k) q = h (next m k) (omega arith)
    narrower h kill q = elim q [ ]

conds-OfRules : (nr i : ℕ) (a : Asm) → Unused (OfRules nr i) a → Unused (OfConds nr i 0) a
conds-OfRules nr i a h (hit m k l) q = h (hit m k l) (omega arith)
conds-OfRules nr i a h (block m) q = elim q [ ]
conds-OfRules nr i a h (next m k) q = elim q [ ]
conds-OfRules nr i a h kill q = elim q [ ]

-- The state of a rule before its last label is set.
abbrev with_ret : ℕ → ℕ → Rule → Asm → Asm
with_ret nr i r a = append (ret r.action ∷ []) (emit_conds nr i 0 r.args a)

emit_rule-unfolds :
    (nr i : ℕ) (r : Rule) (a : Asm)
    → Unused (OfRules nr i) a
    → Extends (with_ret nr i r a) (emit_rule nr i r a)
unfolding emit_rule
emit_rule-unfolds nr i r a h = Extends-mark (next nr i) (with_ret nr i r a) (
    emit_conds-Unused (λ l. l ≡ next nr i) nr i 0 r.args a (λ k q. cc)
      (λ l e. subst (λ t. lookup t a.labels ≡ none) (sym e) (h (next nr i) (omega arith)))
      (next nr i) refl)

pub emit_rule-Extends :
    (nr i : ℕ) (r : Rule) (a : Asm) → Unused (OfRules nr i) a → Extends a (emit_rule nr i r a)
emit_rule-Extends nr i r a h =
    Extends-trans a (emit_conds nr i 0 r.args a) _
      (emit_conds-Extends nr i 0 r.args a (conds-OfRules nr i a h))
      (Extends-trans _ (with_ret nr i r a) _ (Extends-append _ _) (emit_rule-unfolds nr i r a h))

pub emit_rules-Extends :
    (default nr i : ℕ) (rs : List Rule) (a : Asm)
    → Unused (OfRules nr i) a
    → Extends a (emit_rules default nr i rs a)
unfolding emit_rules
emit_rules-Extends default nr i [] a h = Extends-append _ a
emit_rules-Extends default nr i (r ∷ rs) a h = by_args r.args (
    Extends-trans a (emit_rule nr i r a) _ (emit_rule-Extends nr i r a h) (
      emit_rules-Extends default nr (i + 1) rs (emit_rule nr i r a) (emit_rule-OfRules nr i r a h)))
  where
    by_args :
        (cs : List ArgCmp)
        → Extends a (emit_rules default nr (i + 1) rs (emit_rule nr i r a))
        → Extends a (elim cs [
          | [] ↦ append (ret r.action ∷ []) a
          | c ∷ cs' ↦ emit_rules default nr (i + 1) rs (emit_rule nr i r a)
        ])
    by_args [] k = Extends-append _ a
    by_args (c ∷ cs) k = k

module _ (packet : List ℕ) (bytes : IsBytes packet) (b : Asm) where
  -- In the finished program `b` the run from instruction `p` returns `v`.
  abbrev pub Gives : ℕ → ℕ → Type 0
  Gives p v = (acc : ℕ) → Returns b.insns b.labels packet p acc v

  emit_conds-Gives :
      (nr i j : ℕ) (cs : List ArgCmp) (a : Asm) (v to : ℕ)
      → All IsCond cs
      → Unused (OfConds nr i j) a
      → Extends (emit_conds nr i j cs a) b
      → lookup (next nr i) b.labels ≡ some (pos to)
      → (all_hold packet cs ≡ true → Gives (length (emit_conds nr i j cs a).insns) v)
      → (all_hold packet cs ≡ false → Gives to v)
      → Gives (length a.insns) v
  unfolding emit_conds emit_cond all_hold
  emit_conds-Gives nr i j [] a v to valid h k miss hit_all no_hit = hit_all refl
  emit_conds-Gives nr i j (c ∷ cs) a v to valid h k miss hit_all no_hit =
      let code = cond_insns c c.op (next nr i) (hit nr i j) in
      let a' = emit_cond c (next nr i) (hit nr i j) a in
      let h' = emit_cond-OfConds c nr i j a h in
      let k' = Extends-trans a' _ b (emit_conds-Extends nr i (j + 1) cs a' h') k in
      let has = Has-appended packet code a b (
        Extends-trans (append code a) a' b
          (Extends-mark (hit nr i j) (append code a) (h (hit nr i j) (omega arith))) k') in
      let there =
        lookup-mark (hit nr i j) (append code a) b k'
        ∙ ap (λ (t : ℕ). some (pos t)) (length-append a.insns code) in
      cond-Decides b.insns b.labels packet v (next nr i) (hit nr i j) c to miss valid.0 bytes
        (length a.insns) has there
        (λ q.
          subst (λ t. Gives t v) (length-append a.insns code)
            (emit_conds-Gives nr i (j + 1) cs a' v to valid.1 h' k miss
              (λ q'. hit_all (ground arith)) (λ q'. no_hit (ground arith))))
        (λ q. no_hit (ground arith))

  -- A rule returns its action where its conditions hold, and goes on behind itself otherwise.
  emit_rule-Gives :
      (nr i : ℕ) (r : Rule) (a : Asm) (v : ℕ)
      → All IsCond r.args
      → Unused (OfRules nr i) a
      → Extends (emit_rule nr i r a) b
      → (all_hold packet r.args ≡ true → r.action ≡ v)
      → (all_hold packet r.args ≡ false → Gives (length (emit_rule nr i r a).insns) v)
      → Gives (length a.insns) v
  unfolding emit_rule
  emit_rule-Gives nr i r a v valid h k match go_on =
      let conds = emit_conds nr i 0 r.args a in
      let from_ret = Extends-trans (with_ret nr i r a) _ b (emit_rule-unfolds nr i r a h) k in
      let from_conds = Extends-trans conds _ b (Extends-append _ conds) from_ret in
      emit_conds-Gives nr i 0 r.args a v (length (with_ret nr i r a).insns) valid
        (conds-OfRules nr i a h) from_conds (lookup-mark (next nr i) (with_ret nr i r a) b k)
        (λ q acc. Returns-ret b.insns b.labels packet (length conds.insns) acc v (
          subst (λ t. get_elem? b.insns (length conds.insns) ≡ some (ret t)) (match q)
            (Has-appended packet (ret r.action ∷ []) conds b from_ret).0))
        go_on

  -- The block of a syscall returns what its rules say.
  pub emit_rules-Gives :
      (default nr i : ℕ) (rs : List Rule) (a : Asm)
      → All IsRule rs
      → Unused (OfRules nr i) a
      → Extends (emit_rules default nr i rs a) b
      → Gives (length a.insns) (first_match default packet rs)
  unfolding emit_rules first_match all_hold
  emit_rules-Gives default nr i [] a valid h k = λ acc.
      Returns-ret b.insns b.labels packet (length a.insns) acc default
        (Has-appended packet (ret default ∷ []) a b k).0
  emit_rules-Gives default nr i (r ∷ rs) a valid h k =
      let a' = emit_rule nr i r a in
      let h' = emit_rule-OfRules nr i r a h in
      by_args r.args refl
        (λ k'. Extends-trans a' _ b (emit_rules-Extends default nr (i + 1) rs a' h') k')
        (emit_rules-Gives default nr (i + 1) rs a' valid.1 h') k
    where
      by_args :
          (cs : List ArgCmp)
          → r.args ≡ cs
          → (Extends (emit_rules default nr (i + 1) rs (emit_rule nr i r a)) b
              → Extends (emit_rule nr i r a) b)
          → (Extends (emit_rules default nr (i + 1) rs (emit_rule nr i r a)) b
              → Gives (length (emit_rule nr i r a).insns) (first_match default packet rs))
          → Extends
              (elim cs [
                | [] ↦ append (ret r.action ∷ []) a
                | c ∷ cs' ↦ emit_rules default nr (i + 1) rs (emit_rule nr i r a)
              ])
              b
          → Gives
              (length a.insns)
              (if all_hold packet r.args then r.action else first_match default packet rs)
      by_args [] e narrow rest k' =
          subst
            (λ z. Gives (length a.insns) (if z then r.action else first_match default packet rs))
            (sym (ap (all_hold packet) e))
            (λ acc.
              Returns-ret b.insns b.labels packet (length a.insns) acc r.action
                (Has-appended packet (ret r.action ∷ []) a b k').0)
      by_args (c ∷ cs) e narrow rest k' =
          emit_rule-Gives nr i r a _ valid.0.1 h (narrow k') (λ q. rw q)
            (λ q.
              subst
                (λ z.
                  Gives (length (emit_rule nr i r a).insns)
                    (if z then r.action else first_match default packet rs))
                (sym q) (rest k'))
