-- ===== src/Filter/Blocks.antt =====
-- The blocks of all syscalls, as `_compile` of src/seccompy/filter.py emits them one after another.
use seccompy.Base.{
  ℕ, ◌+◌, ◌≡◌, refl, ◌⊎◌, inl, inr, none, some, List, [], ◌∷◌, length, All, lookup, Dict,
}
use seccompy.Base.Int.{pos}
use seccompy.Bpf.{ret}
use seccompy.Filter.Args.{ArgCmp}
use seccompy.Filter.Labels.{Label, block, next, hit, kill, label_eq}
use seccompy.Filter.Compile.{
  Asm, append, mark, Rule, emit_conds, emit_rule, emit_rules, emit_blocks,
}
use seccompy.Filter.Spec.{first_match}
use seccompy.Filter.Cond.{IsBytes}
use seccompy.Filter.Extends.{
  Extends, Extends-refl, Extends-trans, Extends-mark, Unused, Unused-mark, lookup-mark, OfRules,
  emit_conds-Unused,
}
use seccompy.Filter.Rules.{IsRule, Gives, emit_rules-Extends, emit_rules-Gives}

-- A syscall that has rules.
abbrev pub Key : ℕ → Dict ℕ (List Rule) → Type 0
Key m [] = ⊥
Key m ((nr, rs) ∷ rules) = (m ≡ nr) ⊎ Key m rules

-- No syscall has two entries, as in every Python dict.
abbrev pub IsDistinct : Dict ℕ (List Rule) → Type 0
IsDistinct [] = Unit
IsDistinct ((nr, rs) ∷ rules) = (Key nr rules → ⊥) × IsDistinct rules

-- The labels that the blocks of `rules`, and what stands behind them, are going to set.
abbrev pub Pending : Dict ℕ (List Rule) → Label → Type 0
Pending rules (block m) = Key m rules
Pending rules (next m i) = Key m rules
Pending rules (hit m i j) = Key m rules
Pending rules kill = Unit

emit_rules-Unused :
    (P : Label → Type 0) (default nr i : ℕ) (rs : List Rule) (a : Asm)
    → ((k : ℕ) → P (next nr k) → ⊥)
    → ((k l : ℕ) → P (hit nr k l) → ⊥)
    → Unused P a
    → Unused P (emit_rules default nr i rs a)
unfolding emit_rules emit_rule
emit_rules-Unused P default nr i [] a out_next out_hit h = h
emit_rules-Unused P default nr i (r ∷ rs) a out_next out_hit h = by_args r.args (
    emit_rules-Unused P default nr (i + 1) rs (emit_rule nr i r a) out_next out_hit (
      Unused-mark P (next nr i) (append (ret r.action ∷ []) (emit_conds nr i 0 r.args a))
        (out_next i) (emit_conds-Unused P nr i 0 r.args a (out_hit i) h)))
  where
    by_args :
        (cs : List ArgCmp)
        → Unused P (emit_rules default nr (i + 1) rs (emit_rule nr i r a))
        → Unused P (elim cs [
          | [] ↦ append (ret r.action ∷ []) a
          | c ∷ cs' ↦ emit_rules default nr (i + 1) rs (emit_rule nr i r a)
        ])
    by_args [] k = h
    by_args (c ∷ cs) k = k

block-OfRules :
    (nr : ℕ) (rs : List Rule) (rules : Dict ℕ (List Rule)) (a : Asm)
    → Unused (Pending ((nr, rs) ∷ rules)) a
    → Unused (OfRules nr 0) (mark (block nr) a)
block-OfRules nr rs rules a h =
    Unused-mark (OfRules nr 0) (block nr) a (λ q. elim q [ ]) (narrower h)
  where
    narrower : Unused (Pending ((nr, rs) ∷ rules)) a → Unused (OfRules nr 0) a
    narrower h (hit m k l) q = h (hit m k l) (inl q.0)
    narrower h (block m) q = elim q [ ]
    narrower h (next m k) q = h (next m k) (inl q.0)
    narrower h kill q = elim q [ ]

-- After the block of a syscall the labels of the later ones are still unused.
block-Pending :
    (default nr : ℕ) (rs : List Rule) (rules : Dict ℕ (List Rule)) (a : Asm)
    → (Key nr rules → ⊥)
    → Unused (Pending ((nr, rs) ∷ rules)) a
    → Unused (Pending rules) (emit_rules default nr 0 rs (mark (block nr) a))
block-Pending default nr rs rules a new h =
    emit_rules-Unused (Pending rules) default nr 0 rs (mark (block nr) a) (λ k. new) (λ k l. new)
      (Unused-mark (Pending rules) (block nr) a new (narrower h))
  where
    narrower : Unused (Pending ((nr, rs) ∷ rules)) a → Unused (Pending rules) a
    narrower h (hit m k l) q = h (hit m k l) (inr q)
    narrower h (block m) q = h (block m) (inr q)
    narrower h (next m k) q = h (next m k) (inr q)
    narrower h kill q = h kill tt

block-Extends :
    (default nr : ℕ) (rs : List Rule) (rules : Dict ℕ (List Rule)) (a : Asm)
    → Unused (Pending ((nr, rs) ∷ rules)) a
    → Extends (mark (block nr) a) (emit_rules default nr 0 rs (mark (block nr) a))
block-Extends default nr rs rules a h =
    emit_rules-Extends default nr 0 rs (mark (block nr) a) (block-OfRules nr rs rules a h)

pub emit_blocks-Extends :
    (default : ℕ) (rules : Dict ℕ (List Rule)) (a : Asm)
    → IsDistinct rules
    → Unused (Pending rules) a
    → Extends a (emit_blocks default rules a)
unfolding emit_blocks
emit_blocks-Extends default [] a d h = Extends-refl a
emit_blocks-Extends default ((nr, rs) ∷ rules) a d h =
    Extends-trans a (mark (block nr) a) _ (Extends-mark (block nr) a (h (block nr) (inl refl))) (
      Extends-trans (mark (block nr) a) (emit_rules default nr 0 rs (mark (block nr) a)) _
        (block-Extends default nr rs rules a h)
        (emit_blocks-Extends default rules _ d.1 (block-Pending default nr rs rules a d.0 h)))

-- Behind the blocks the label `kill` is still unused.
pub emit_blocks-kill :
    (default : ℕ) (rules : Dict ℕ (List Rule)) (a : Asm)
    → IsDistinct rules
    → Unused (Pending rules) a
    → lookup kill (emit_blocks default rules a).labels ≡ none
unfolding emit_blocks
emit_blocks-kill default [] a d h = h kill tt
emit_blocks-kill default ((nr, rs) ∷ rules) a d h =
    emit_blocks-kill default rules _ d.1 (block-Pending default nr rs rules a d.0 h)

module _ (packet : List ℕ) (bytes : IsBytes packet) (b : Asm) (default : ℕ) where
  -- The label of a syscall's block stands where the block's verdict is returned.
  abbrev pub Lands : ℕ × List Rule → Type 0
  Lands (nr, rs) =
      (p : ℕ) × (lookup (block nr) b.labels ≡ some (pos p))
      × Gives packet bytes b p (first_match default packet rs)

  pub emit_blocks-Lands :
      (rules : Dict ℕ (List Rule)) (a : Asm)
      → IsDistinct rules
      → Unused (Pending rules) a
      → All (λ (e : ℕ × List Rule). All IsRule e.1) rules
      → Extends (emit_blocks default rules a) b
      → All Lands rules
  unfolding emit_blocks
  emit_blocks-Lands [] a d h valid k = tt
  emit_blocks-Lands ((nr, rs) ∷ rules) a d h valid k =
      let a' = emit_rules default nr 0 rs (mark (block nr) a) in
      let h' = block-Pending default nr rs rules a d.0 h in
      let k' = Extends-trans a' _ b (emit_blocks-Extends default rules a' d.1 h') k in
      let k'' = Extends-trans (mark (block nr) a) a' b (block-Extends default nr rs rules a h) k' in
      (
        (
          length a.insns,
          lookup-mark (block nr) a b k'',
          emit_rules-Gives packet bytes b default nr 0 rs (mark (block nr) a) valid.0
              (block-OfRules nr rs rules a h) k',
        ),
        emit_blocks-Lands rules a' d.1 h' valid.1 k,
      )
