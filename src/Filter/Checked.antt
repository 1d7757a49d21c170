-- ===== src/Filter/Checked.antt =====
-- src/seccompy/filter.py: what the checks of `ArgCmp` and of the methods of `Filter` make sure of.
use seccompy.Base.{
  ℕ, ◌^◌, ◌<◌, ◌≡◌, subst, inl, inr, false, not, ◌&&◌, Option, none, some, List, [], ◌∷◌, arith,
  leb, ◌==◌, All, Bool-cases, bit_or,
}
use seccompy.Base.Int.{ℤ, pos}
use seccompy.Base.Bits.{bit_or-le}
use seccompy.Errors.{bounded, bounded-le, raise_if-eq-ok, ok, raise_if, >>=-eq-ok, ok-injective}
use seccompy.Filter.Action
use seccompy.Filter.Args.{
  CmpOp, ArgCmp, u64_max, IsCond, and_not, is_masked_eq, cmp_op, new_arg_cmp, ArgCond, arg_cmp,
  triple, quadruple, Args, mapping, conditions, coerce_cond, coerce_all, coerce_mapping,
  insert_cond, sort_conds, masked_eq,
}
use seccompy.Filter.Object.{Method, action_of, conds, ret_data}

-- Whatever numbers it is given, a condition that `ArgCmp` constructs has an index up to 5, a value
-- and a mask of 64 bits, no bits of the value outside the mask for MASKED_EQ, and the full mask for
-- every other operator.
pub new_arg_cmp-IsCond : (i o v m : ℤ) (c : ArgCmp) → new_arg_cmp i o v m ≡ ok c → IsCond c
unfolding new_arg_cmp
new_arg_cmp-IsCond i o v m c h =
    let (op, _, h₁) = >>=-eq-ok (cmp_op o) _ h in
    let (index, e₂, h₂) = >>=-eq-ok (bounded i 5 _) _ h₁ in
    let (value, e₃, h₃) = >>=-eq-ok (bounded v u64_max _) _ h₂ in
    let (mask, e₄, h₄) = >>=-eq-ok (bounded m u64_max _) _ h₃ in
    let (_, e₅, h₅) =
      >>=-eq-ok (raise_if (is_masked_eq op && not (and_not value mask == 0)) _) _ h₄ in
    let (_, e₆, h₆) =
      >>=-eq-ok (raise_if (not (is_masked_eq op) && not (mask == u64_max)) _) _ h₅ in
    let k₅ = raise_if-eq-ok _ _ e₅ in
    let k₆ = raise_if-eq-ok _ _ e₆ in
    subst IsCond (ok-injective h₆) (record {
      index_le = bounded-le i 5 _ index e₂;
      value_le = bounded-le v u64_max _ value e₃;
      mask_le = bounded-le m u64_max _ mask e₄;
      in_mask = λ e. in_mask op value mask e k₅;
      full_mask = λ e. ground (arith, k₆, e);
    })
  where
    in_mask :
        (op : CmpOp) (value mask : ℕ)
        → op ≡ masked_eq
        → (is_masked_eq op && not (and_not value mask == 0)) ≡ false
        → and_not value mask ≡ 0
    in_mask op value mask e k =
        let test : (is_masked_eq masked_eq && not (and_not value mask == 0)) ≡ false =
          subst (λ t. (is_masked_eq t && not (and_not value mask == 0)) ≡ false) e k in
        ground arith

-- An `ArgCmp` that a caller passes was made by its constructor.
abbrev pub IsArgCond : ArgCond → Type 0
IsArgCond (arg_cmp c) = IsCond c
IsArgCond (triple i o v) = Unit
IsArgCond (quadruple i o v m) = Unit

abbrev pub IsArgs : Option Args → Type 0
IsArgs none = Unit
IsArgs (some (mapping m)) = Unit
IsArgs (some (conditions cs)) = All IsArgCond cs

coerce_cond-IsCond : (a : ArgCond) (c : ArgCmp) → IsArgCond a → coerce_cond a ≡ ok c → IsCond c
unfolding coerce_cond
coerce_cond-IsCond (arg_cmp d) c v h = subst IsCond (ok-injective h) v
coerce_cond-IsCond (triple i o k) c v h = new_arg_cmp-IsCond i o k (pos u64_max) c h
coerce_cond-IsCond (quadruple i o k m) c v h = new_arg_cmp-IsCond i o k m c h

coerce_all-IsCond :
    (xs : List ArgCond) (cs : List ArgCmp)
    → All IsArgCond xs
    → coerce_all xs ≡ ok cs
    → All IsCond cs
unfolding coerce_all
coerce_all-IsCond [] cs v h = subst (All IsCond) (ok-injective h) tt
coerce_all-IsCond (a ∷ xs) cs v h =
    let (c, e₁, h₁) = >>=-eq-ok (coerce_cond a) _ h in
    let (cs', e₂, h₂) = >>=-eq-ok (coerce_all xs) _ h₁ in
    subst (All IsCond) (ok-injective h₂)
      (coerce_cond-IsCond a c v.0 e₁, coerce_all-IsCond xs cs' v.1 e₂)

coerce_mapping-IsCond :
    (m : List (ℤ × ℤ)) (cs : List ArgCmp) → coerce_mapping m ≡ ok cs → All IsCond cs
unfolding coerce_mapping
coerce_mapping-IsCond [] cs h = subst (All IsCond) (ok-injective h) tt
coerce_mapping-IsCond ((i, v) ∷ m) cs h =
    let (c, e₁, h₁) = >>=-eq-ok (new_arg_cmp i (pos 0) v (pos u64_max)) _ h in
    let (cs', e₂, h₂) = >>=-eq-ok (coerce_mapping m) _ h₁ in
    subst (All IsCond) (ok-injective h₂)
      (new_arg_cmp-IsCond i (pos 0) v (pos u64_max) c e₁, coerce_mapping-IsCond m cs' e₂)

module _ (P : ArgCmp → Type 0) where
  insert_cond-All : (c : ArgCmp) (cs : List ArgCmp) → P c → All P cs → All P (insert_cond c cs)
  unfolding insert_cond
  insert_cond-All c [] p h = (p, tt)
  insert_cond-All c (d ∷ ds) p h = elim (Bool-cases (leb c.index d.index)) [
    | inl le ↦ rw le (p, h)
    | inr gt ↦ rw gt (h.0, insert_cond-All c ds p h.1)
  ]

  sort_conds-All : (cs : List ArgCmp) → All P cs → All P (sort_conds cs)
  unfolding sort_conds
  sort_conds-All [] h = tt
  sort_conds-All (c ∷ cs) h = insert_cond-All c (sort_conds cs) h.0 (sort_conds-All cs h.1)

pub conds-IsCond :
    (args : Option Args) (cs : List ArgCmp) → IsArgs args → conds args ≡ ok cs → All IsCond cs
unfolding conds
conds-IsCond none cs v h = subst (All IsCond) (ok-injective h) tt
conds-IsCond (some (mapping m)) cs v h =
    let (raw, e, h') = >>=-eq-ok (coerce_mapping m) _ h in
    subst (All IsCond) (ok-injective h') (sort_conds-All IsCond raw (coerce_mapping-IsCond m raw e))
conds-IsCond (some (conditions xs)) cs v h =
    let (raw, e, h') = >>=-eq-ok (coerce_all xs) _ h in
    subst (All IsCond) (ok-injective h') (sort_conds-All IsCond raw (coerce_all-IsCond xs raw v e))

-- The action that a method attaches is below 2 ^ 32, the payload of `errno` and `trace` included.
pub action_of-lt : (m : Method) (n : ℕ) → action_of m ≡ ok n → n < 2 ^ 32
unfolding action_of
action_of-lt (Method.errno e) n h =
    let (k, e₁, h₁) = >>=-eq-ok (bounded e ret_data _) _ h in
    let same : bit_or Action.errno k ≡ n = ok-injective h₁ in
    omega (arith, bounded-le e ret_data _ k e₁, bit_or-le Action.errno k)
action_of-lt (Method.trace e) n h =
    let (k, e₁, h₁) = >>=-eq-ok (bounded e ret_data _) _ h in
    let same : bit_or Action.trace k ≡ n = ok-injective h₁ in
    omega (arith, bounded-le e ret_data _ k e₁, bit_or-le Action.trace k)
action_of-lt m n h = ground arith
