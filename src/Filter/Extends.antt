-- ===== src/Filter/Extends.antt =====
-- `_compile` of src/seccompy/filter.py only adds: what it has emitted stays where it is, and no
-- label is set twice.
use mathlib.Core.List.{append_assoc}
use seccompy.Base.{
  ℕ, ◌+◌, ◌≤◌, ◌≡◌, refl, sym, ◌∙◌, subst, none, some, List, [], ◌∷◌, ◌++◌, arith, length,
  length-append, get_elem?, lt-length_of_get_elem?, get_elem?-append_left, get_elem?-append_right,
  Dict, lookup, lookup-insert_self, lookup-insert_ne,
}
use seccompy.Base.Int.{ℤ, pos}
use seccompy.Bpf.{Insn}
use seccompy.Filter.Args.{ArgCmp}
use seccompy.Filter.Labels.{Label, block, next, hit, kill, label_eq}
use seccompy.Filter.Compile.{Asm, append, mark, emit_cond, emit_conds, cond_insns}
use seccompy.Filter.Source.{Has}

pub record Extends (a b : Asm) : Type 0 where
  pub insns : (i : ℕ) (x : Insn Label) → get_elem? a.insns i ≡ some x → get_elem? b.insns i ≡ some x
  pub labels : (l : Label) (z : ℤ) → lookup l a.labels ≡ some z → lookup l b.labels ≡ some z

pub Extends-refl : (a : Asm) → Extends a a
Extends-refl a = record { insns = λ i x h. h; labels = λ l z h. h }

pub Extends-trans : (a b c : Asm) → Extends a b → Extends b c → Extends a c
Extends-trans a b c h k = record {
  insns = λ i x g. k.insns i x (h.insns i x g);
  labels = λ l z g. k.labels l z (h.labels l z g);
}

-- None of the labels in `P` is set.
abbrev pub Unused : (Label → Type 0) → Asm → Type 0
Unused P a = (l : Label) → P l → lookup l a.labels ≡ none

pub Extends-append : (xs : List (Insn Label)) (a : Asm) → Extends a (append xs a)
Extends-append xs a = record {
  insns = λ i x g. get_elem?-append_left a.insns xs i (lt-length_of_get_elem? a.insns i g) ∙ g;
  labels = λ l z h. h;
}

pub Extends-mark : (l : Label) (a : Asm) → lookup l a.labels ≡ none → Extends a (mark l a)
Extends-mark l a fresh = record {
  insns = λ i x h. h;
  labels = λ m z h.
      lookup-insert_ne m l (pos (length a.insns)) a.labels
        (λ e. none_ne_some (sym (subst (λ t. lookup t a.labels ≡ none) (sym e) fresh) ∙ h))
      ∙ h;
}
  where
    none_ne_some : {z : ℤ} → none ≡ some z → ⊥
    none_ne_some e = cc

pub Unused-mark :
    (P : Label → Type 0) (l : Label) (a : Asm) → (P l → ⊥) → Unused P a → Unused P (mark l a)
Unused-mark P l a out h m p =
    lookup-insert_ne m l (pos (length a.insns)) a.labels (λ e. out (subst P e p)) ∙ h m p

pub lookup-mark :
    (l : Label) (a b : Asm) → Extends (mark l a) b → lookup l b.labels ≡ some (pos (length a.insns))
lookup-mark l a b h =
    h.labels l (pos (length a.insns)) (lookup-insert_self l (pos (length a.insns)) a.labels)

-- What has been appended stands there.
Has-self :
    (packet : List ℕ) (labels : Dict Label ℤ) (xs ys : List (Insn Label)) (p : ℕ)
    → p ≡ length xs
    → Has (xs ++ ys) labels packet p ys
Has-self packet labels xs [] p e = tt
Has-self packet labels xs (y ∷ ys) p e = (
  get_elem?-append_right xs (y ∷ ys) 0 p (omega arith),
  subst (λ t. Has t labels packet (p + 1) ys) (append_assoc xs (y ∷ []) ys)
      (Has-self packet labels (xs ++ y ∷ []) ys (p + 1) (omega (arith, length-append xs (y ∷ [])))),
)

pub Has-Extends :
    (packet : List ℕ) (a b : Asm) (p : ℕ) (xs : List (Insn Label))
    → Extends a b
    → Has a.insns a.labels packet p xs
    → Has b.insns b.labels packet p xs
Has-Extends packet a b p [] h g = tt
Has-Extends packet a b p (x ∷ xs) h g = (h.insns p x g.0, Has-Extends packet a b (p + 1) xs h g.1)

-- What has been appended stands where the appending began.
pub Has-appended :
    (packet : List ℕ) (xs : List (Insn Label)) (a b : Asm)
    → Extends (append xs a) b
    → Has b.insns b.labels packet (length a.insns) xs
Has-appended packet xs a b h =
    Has-Extends packet (append xs a) b (length a.insns) xs h
      (Has-self packet a.labels a.insns xs (length a.insns) refl)

-- The labels of the conditions of rule `i` from condition `j` on, and of the rules from `i` on.
abbrev pub OfConds : ℕ → ℕ → ℕ → Label → Type 0
OfConds nr i j (hit m k l) = (m ≡ nr) × (k ≡ i) × (j ≤ l)
OfConds nr i j _ = ⊥

abbrev pub OfRules : ℕ → ℕ → Label → Type 0
OfRules nr i (next m k) = (m ≡ nr) × (i ≤ k)
OfRules nr i (hit m k l) = (m ≡ nr) × (i ≤ k)
OfRules nr i _ = ⊥

pub emit_conds-Unused :
    (P : Label → Type 0) (nr i j : ℕ) (cs : List ArgCmp) (a : Asm)
    → ((k : ℕ) → P (hit nr i k) → ⊥)
    → Unused P a
    → Unused P (emit_conds nr i j cs a)
unfolding emit_conds
emit_conds-Unused P nr i j [] a out h = h
emit_conds-Unused P nr i j (c ∷ cs) a out h =
    emit_conds-Unused P nr i (j + 1) cs _ out
      (Unused-mark P (hit nr i j) (append (cond_insns c c.op (next nr i) (hit nr i j)) a) (out j) h)

pub emit_cond-Extends :
    (c : ArgCmp) (l m : Label) (a : Asm) → lookup m a.labels ≡ none → Extends a (emit_cond c l m a)
unfolding emit_cond
emit_cond-Extends c l m a fresh =
    Extends-trans a (append (cond_insns c c.op l m) a) _ (Extends-append _ a)
      (Extends-mark m (append (cond_insns c c.op l m) a) fresh)

-- After a condition the labels of the later ones are still unused.
pub emit_cond-OfConds :
    (c : ArgCmp) (nr i j : ℕ) (a : Asm)
    → Unused (OfConds nr i j) a
    → Unused (OfConds nr i (j + 1)) (emit_cond c (next nr i) (hit nr i j) a)
unfolding emit_cond
emit_cond-OfConds c nr i j a h =
    Unused-mark (OfConds nr i (j + 1)) (hit nr i j) (append (cond_insns c c.op _ _) a)
      (λ q. omega arith) (narrower h)
  where
    narrower : Unused (OfConds nr i j) a → Unused (OfConds nr i (j + 1)) a
    narrower h (hit m k l) q = h (hit m k l) (omega arith)
    narrower h (block m) q = elim q [ ]
    narrower h (next m k) q = elim q [ ]
    narrower h kill q = elim q [ ]

pub emit_conds-Extends :
    (nr i j : ℕ) (cs : List ArgCmp) (a : Asm)
    → Unused (OfConds nr i j) a
    → Extends a (emit_conds nr i j cs a)
unfolding emit_conds
emit_conds-Extends nr i j [] a h = Extends-refl a
emit_conds-Extends nr i j (c ∷ cs) a h =
    let a' = emit_cond c (next nr i) (hit nr i j) a in
    Extends-trans a a' _
      (emit_cond-Extends c (next nr i) (hit nr i j) a (h (hit nr i j) (omega arith)))
      (emit_conds-Extends nr i (j + 1) cs a' (emit_cond-OfConds c nr i j a h))
