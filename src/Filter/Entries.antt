-- ===== src/Filter/Entries.antt =====
-- src/seccompy/filter.py: the list of rules that were asked for, with their conditions as they were
-- given, and what it decides.
use seccompy.Base.{
  ℕ, ◌≡◌, refl, sym, ap, ◌∙◌, ◌&&◌, Option, none, some, List, [], ◌∷◌, ◌++◌, arith, ◌==◌,
  if◌then◌else◌, nat_eq,
}
use seccompy.Errors.{Result, ok, ok-injective}
use seccompy.Bpf.Machine.{word}
use seccompy.Filter.Action
use seccompy.Filter.Args.{
  ArgCmp, Args, mapping, conditions, coerce_all, coerce_mapping, sort_conds, insert_cond,
}
use seccompy.Filter.Compile.{Rule}
use seccompy.Filter.Spec.{all_hold, cond_holds, first_match}
use seccompy.Filter.Object.{conds}

-- A rule that was asked for: its syscall, its action and its conditions in the given order.
pub record Entry : Type 0 where
  pub nr : ℕ
  pub action : ℕ
  pub args : List ArgCmp

-- The conditions of a call in the given order.
unfoldable pub given : Option Args → Result (List ArgCmp)
given none = ok []
given (some (mapping m)) = coerce_mapping m
given (some (conditions cs)) = coerce_all cs

-- The action of the first entry for the syscall of which every condition holds.
unfoldable pub first_entry : ℕ → List ℕ → ℕ → List Entry → ℕ
unfolding all_hold
first_entry default packet nr [] = default
first_entry default packet nr (e ∷ es) =
    if e.nr == nr && all_hold packet e.args then e.action else first_entry default packet nr es

unfoldable pub decision : ℕ → ℕ → List Entry → List ℕ → ℕ
unfolding first_entry
decision arch default history packet =
    if word packet 4 == arch
    then first_entry default packet (word packet 0) history
    else Action.kill_process

all_hold-insert_cond :
    (packet : List ℕ) (c : ArgCmp) (ds : List ArgCmp)
    → all_hold packet (insert_cond c ds) ≡ (cond_holds packet c && all_hold packet ds)
unfolding all_hold insert_cond
all_hold-insert_cond packet c [] = refl
all_hold-insert_cond packet c (d ∷ ds) = ground (arith, all_hold-insert_cond packet c ds)

pub all_hold-sort_conds :
    (packet : List ℕ) (cs : List ArgCmp) → all_hold packet (sort_conds cs) ≡ all_hold packet cs
unfolding all_hold sort_conds
all_hold-sort_conds packet [] = refl
all_hold-sort_conds packet (c ∷ cs) =
    all_hold-insert_cond packet c (sort_conds cs)
    ∙ ap (λ b. cond_holds packet c && b) (all_hold-sort_conds packet cs)

-- The last rule of a list is where the default comes from.
pub first_match-append :
    (d : ℕ) (packet : List ℕ) (rs : List Rule) (r : Rule)
    → first_match d packet (rs ++ r ∷ [])
      ≡ first_match (if all_hold packet r.args then r.action else d) packet rs
unfolding first_match
first_match-append d packet [] r = refl
first_match-append d packet (q ∷ rs) r =
    ap (λ t. if all_hold packet q.args then q.action else t) (first_match-append d packet rs r)

pub first_entry-append :
    (d : ℕ) (packet : List ℕ) (nr : ℕ) (es : List Entry) (e : Entry)
    → first_entry d packet nr (es ++ e ∷ [])
      ≡ first_entry (if e.nr == nr && all_hold packet e.args then e.action else d) packet nr es
unfolding first_entry
first_entry-append d packet nr [] e = refl
first_entry-append d packet nr (q ∷ es) e =
    ap (λ t. if q.nr == nr && all_hold packet q.args then q.action else t)
      (first_entry-append d packet nr es e)

pub conds-given :
    (args : Option Args) (raw cs : List ArgCmp)
    → given args ≡ ok raw
    → conds args ≡ ok cs
    → cs ≡ sort_conds raw
unfolding given conds sort_conds
conds-given none raw cs e h = sym (ok-injective h) ∙ ap sort_conds (ok-injective e)
conds-given (some (mapping m)) raw cs e h = sym (ok-injective (rw e at h))
conds-given (some (conditions xs)) raw cs e h = sym (ok-injective (rw e at h))
