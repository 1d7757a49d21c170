-- ===== src/Filter/Args.antt =====
-- src/seccompy/filter.py: comparison operators and argument conditions.
use seccompy.Base.{
  ℕ, ◌-◌, ◌≤◌, ◌≡◌, Bool, true, false, not, ◌&&◌, List, [], ◌∷◌, bit_and, leb, ◌==◌, if◌then◌else◌,
}
use seccompy.Base.Int.{ℤ, pos, negsuc}
use seccompy.Errors.{
  bounded, Result, ok, err, ◌>>=◌, ◌>>◌, raise_if, value_error, not_cmp_op, index_out_of_range,
  value_out_of_range, mask_out_of_range, bits_outside_mask, mask_without_masked_eq,
}

-- `_U64`
abbrev pub u64_max : ℕ
u64_max = 0xFFFFFFFFFFFFFFFF

pub data CmpOp : Type 0 where
  eq ne lt le gt ge masked_eq : CmpOp

-- `CmpOp(op)`, which raises a `ValueError` for a number that is no operator.
unfoldable pub cmp_op : ℤ → Result CmpOp
cmp_op (negsuc n) = err (value_error not_cmp_op)
cmp_op (pos n) =
    if n == 0
    then ok eq
    else if n == 1
    then ok ne
    else if n == 2
    then ok lt
    else if n == 3
    then ok le
    else if n == 4
    then ok gt
    else if n == 5
    then ok ge
    else if n == 6
    then ok masked_eq
    else err (value_error not_cmp_op)

pub record ArgCmp : Type 0 where
  pub index : ℕ
  pub op : CmpOp
  pub value : ℕ
  pub mask : ℕ

-- `a & ~b`
abbrev pub and_not : ℕ → ℕ → ℕ
and_not a b = a - bit_and a b

abbrev pub is_masked_eq : CmpOp → Bool
is_masked_eq masked_eq = true
is_masked_eq _ = false

-- `ArgCmp(index, op, value, mask)` with its `__post_init__`.
unfoldable pub new_arg_cmp : ℤ → ℤ → ℤ → ℤ → Result ArgCmp
unfolding cmp_op
new_arg_cmp i o v m = do
  op ← cmp_op o
  index ← bounded i 5 (err (value_error index_out_of_range))
  value ← bounded v u64_max (err (value_error value_out_of_range))
  mask ← bounded m u64_max (err (value_error mask_out_of_range))
  raise_if (is_masked_eq op && not (and_not value mask == 0)) (value_error bits_outside_mask)
  raise_if (not (is_masked_eq op) && not (mask == u64_max)) (value_error mask_without_masked_eq)
  ok (record { index = index; op = op; value = value; mask = mask })

-- What the constructor makes sure of.
pub record IsCond (c : ArgCmp) : Type 0 where
  pub index_le : c.index ≤ 5
  pub value_le : c.value ≤ u64_max
  pub mask_le : c.mask ≤ u64_max
  pub in_mask : c.op ≡ masked_eq → and_not c.value c.mask ≡ 0
  pub full_mask : is_masked_eq c.op ≡ false → c.mask ≡ u64_max

-- One condition: an `ArgCmp`, or a tuple of three or four numbers.
pub data ArgCond : Type 0 where
  arg_cmp : ArgCmp → ArgCond
  triple : ℤ → ℤ → ℤ → ArgCond
  quadruple : ℤ → ℤ → ℤ → ℤ → ArgCond

-- `_coerce_cond`
unfoldable pub coerce_cond : ArgCond → Result ArgCmp
unfolding new_arg_cmp
coerce_cond (arg_cmp c) = ok c
coerce_cond (triple i o v) = new_arg_cmp i o v (pos u64_max)
coerce_cond (quadruple i o v m) = new_arg_cmp i o v m

-- `Args`: a mapping from index to value, or a sequence of conditions.
pub data Args : Type 0 where
  mapping : List (ℤ × ℤ) → Args
  conditions : List ArgCond → Args

unfoldable pub coerce_all : List ArgCond → Result (List ArgCmp)
unfolding coerce_cond
coerce_all [] = ok []
coerce_all (c ∷ cs) = do a ← coerce_cond c; as' ← coerce_all cs; ok (a ∷ as')

unfoldable pub coerce_mapping : List (ℤ × ℤ) → Result (List ArgCmp)
unfolding new_arg_cmp
coerce_mapping [] = ok []
coerce_mapping ((i, v) ∷ m) = do
  a ← new_arg_cmp i (pos 0) v (pos u64_max)
  as' ← coerce_mapping m
  ok (a ∷ as')

-- `sorted(raw, key=lambda cond: cond.index)`, which is stable.
unfoldable pub insert_cond : ArgCmp → List ArgCmp → List ArgCmp
insert_cond c [] = c ∷ []
insert_cond c (d ∷ ds) = if leb c.index d.index then c ∷ (d ∷ ds) else d ∷ insert_cond c ds

unfoldable pub sort_conds : List ArgCmp → List ArgCmp
unfolding insert_cond
sort_conds [] = []
sort_conds (c ∷ cs) = insert_cond c (sort_conds cs)
