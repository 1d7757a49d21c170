-- ===== src/Bpf/Validation.antt =====
-- `_validate_labels` of src/seccompy/bpf.py: what it accepts.
use seccompy.Base.{
  ℕ, zero, suc, ◌≡◌, subst, inl, inr, none, some, List, [], ◌∷◌, arith, get_elem?, Eq, Dict, lookup,
  Option-cases,
}
use seccompy.Base.Int.{ℤ, pos, negsuc}
use seccompy.Errors.{ok, >>=-eq-ok}
use seccompy.Bpf.{Insn, load, mask, jump, ja, ret}
use seccompy.Bpf.Assemble.{targets, validate_targets, validate_labels}
use seccompy.Bpf.Simulation.{Resolves, IsResolved}

module _ {L : Type 0} ⦃e : Eq L⦄ (labels : Dict L ℤ) (n : ℕ) where
  validate_targets-cons :
      (t : L) (ts : List L)
      → validate_targets labels n (t ∷ ts) ≡ ok tt
      → Resolves labels n (some t) × (validate_targets labels n ts ≡ ok tt)
  unfolding validate_targets
  validate_targets-cons t ts h = elim (Option-cases (lookup t labels)) [
    | inl gone ↦ absurd (ground arith)
    | inr (pos j, found) ↦ ((j, found, ground arith), ground arith)
    | inr (negsuc j, found) ↦ absurd (ground arith)
  ]

  insn-IsResolved :
      (x : Insn L) → validate_targets labels n (targets x) ≡ ok tt → IsResolved labels n x
  unfolding targets
  insn-IsResolved (load k) h = tt
  insn-IsResolved (mask k) h = tt
  insn-IsResolved (ret k) h = tt
  insn-IsResolved (ja t) h = (validate_targets-cons t [] h).0
  insn-IsResolved (jump op k none none) h = (tt, tt)
  insn-IsResolved (jump op k none (some f)) h = (tt, (validate_targets-cons f [] h).0)
  insn-IsResolved (jump op k (some t) none) h = ((validate_targets-cons t [] h).0, tt)
  insn-IsResolved (jump op k (some t) (some f)) h =
      let (first, rest) = validate_targets-cons t (f ∷ []) h in
      (first, (validate_targets-cons f [] rest).0)

  -- In a program that `_validate_labels` accepts for `n` instructions, every target of every
  -- instruction is a label whose index is from 0 to `n`.
  pub validate_labels-IsResolved :
      (xs : List (Insn L))
      → validate_labels labels n xs ≡ ok tt
      → (i : ℕ) (x : Insn L) → get_elem? xs i ≡ some x
      → IsResolved labels n x
  unfolding validate_labels
  validate_labels-IsResolved [] h i x g = absurd (cc)
  validate_labels-IsResolved (y ∷ xs) h zero x g =
      let (_, first, rest) = >>=-eq-ok (validate_targets labels n (targets y)) _ h in
      let same : y ≡ x = cc in subst (IsResolved labels n) same (insn-IsResolved y first)
  validate_labels-IsResolved (y ∷ xs) h (suc i) x g =
      let (_, first, rest) = >>=-eq-ok (validate_targets labels n (targets y)) _ h in
      validate_labels-IsResolved xs rest i x g
