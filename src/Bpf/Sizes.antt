-- ===== src/Bpf/Sizes.antt =====
-- `_resolve_sizes` of src/seccompy/bpf.py: the sizes it can give, and that its rounds suffice.
use seccompy.Base.{
  ℕ, zero, suc, ◌+◌, ◌≤◌, ◌<◌, ◌≡◌, refl, sym, subst, ◌≢◌, ◌⊎◌, inl, inr, Bool, true, false, Option,
  none, some, List, [], ◌∷◌, arith, ltb, if◌then◌else◌, length, replicate, Eq, Dict,
}
use seccompy.Base.Int.{ℤ}
use seccompy.Errors.{ok, err, >>=-eq-ok, Result-cases, value_error, not_converged}
use seccompy.Bpf.{Insn, load, mask, jump, ja, ret}
use seccompy.Bpf.Assemble.{
  expanded_size, needs_expansion, resize, sweep, offset, position_of, resolve_rounds, resolve_sizes,
  positions,
}

module _ {L : Type 0} where
  -- The sizes that an instruction may have.
  abbrev pub SizeOf : Insn L → ℕ → Type 0
  SizeOf (jump op k jt jf) s = (s ≡ 1) ⊎ (s ≡ expanded_size jt jf)
  SizeOf _ s = s ≡ 1

  abbrev pub AllSized : List (Insn L) → List ℕ → Type 0
  AllSized [] [] = Unit
  AllSized [] (s ∷ ss) = ⊥
  AllSized (x ∷ xs) [] = ⊥
  AllSized (x ∷ xs) (s ∷ ss) = SizeOf x s × AllSized xs ss

  one-SizeOf : (x : Insn L) → SizeOf x 1
  one-SizeOf (jump op k jt jf) = inl refl
  one-SizeOf (load k) = refl
  one-SizeOf (mask k) = refl
  one-SizeOf (ja t) = refl
  one-SizeOf (ret k) = refl

  replicate-AllSized : (xs : List (Insn L)) → AllSized xs (replicate (length xs) 1)
  replicate-AllSized [] = tt
  replicate-AllSized (x ∷ xs) = (one-SizeOf x, replicate-AllSized xs)

-- How many sizes are still at most 1.
unexpanded : List ℕ → ℕ
unexpanded [] = 0
unexpanded (s ∷ ss) = (if ltb 1 s then 0 else 1) + unexpanded ss

unexpanded-replicate : (n : ℕ) → unexpanded (replicate n 1) ≡ n
unfolding unexpanded
unexpanded-replicate zero = refl
unexpanded-replicate (suc n) = omega (arith, unexpanded-replicate n)

module _ {L : Type 0} where
  expanded_size-gt : (jt jf : Option L) → 1 < expanded_size jt jf
  expanded_size-gt none jf = omega arith
  expanded_size-gt (some t) none = omega arith
  expanded_size-gt (some t) (some f) = omega arith

module _ {L : Type 0} ⦃e : Eq L⦄ (labels : Dict L ℤ) where
  -- One instruction is left as it was, or grows from 1 to its expanded size.
  resize-eq-ok :
      (ps : List ℕ) (i : ℕ) (x : Insn L) (s s' : ℕ) (changed : Bool)
      → resize labels ps i x s ≡ ok (s', changed)
      → SizeOf x s
      → SizeOf x s' × ((changed ≡ false) × (s' ≡ s) ⊎ (changed ≡ true) × (s ≤ 1) × (1 < s'))
  unfolding resize
  resize-eq-ok ps i (jump op k jt jf) s s' changed h v = ground (arith, expanded_size-gt jt jf)
  resize-eq-ok ps i (load k) s s' changed h v = ground arith
  resize-eq-ok ps i _ s s' changed h v = ground arith

  -- A sweep keeps the sizes possible; it changes nothing, or it expands a jump.
  sweep-eq-ok :
      (ps : List ℕ) (i : ℕ) (xs : List (Insn L)) (ss ss' : List ℕ) (changed : Bool)
      → sweep labels ps i xs ss ≡ ok (ss', changed)
      → AllSized xs ss
      → AllSized xs ss'
        × (unexpanded ss' ≤ unexpanded ss)
        × ((changed ≡ false) × (ss' ≡ ss) ⊎ (changed ≡ true) × (unexpanded ss' < unexpanded ss))
  unfolding sweep unexpanded
  sweep-eq-ok ps i [] [] ss' changed h v = ground arith
  sweep-eq-ok ps i [] (s ∷ ss) ss' changed h v = elim v [ ]
  sweep-eq-ok ps i (x ∷ xs) [] ss' changed h v = elim v [ ]
  sweep-eq-ok ps i (x ∷ xs) (s ∷ ss) ss' changed h v =
      let ((s₁, c₁), first, h₁) = >>=-eq-ok (resize labels ps i x s) _ h in
      let ((ss₂, c₂), rest, h₂) = >>=-eq-ok (sweep labels ps (i + 1) xs ss) _ h₁ in
      ground (
        arith,
        h₂,
        resize-eq-ok ps i x s s₁ c₁ first v.0,
        sweep-eq-ok ps (i + 1) xs ss ss₂ c₂ rest v.1,
      )

  resize-ne-not_converged :
      (ps : List ℕ) (i : ℕ) (x : Insn L) (s : ℕ)
      → resize labels ps i x s ≢ err (value_error not_converged)
  unfolding resize needs_expansion offset position_of
  resize-ne-not_converged ps i (jump op k none none) s = ground arith
  resize-ne-not_converged ps i (jump op k none (some f)) s = ground arith
  resize-ne-not_converged ps i (jump op k (some t) none) s = ground arith
  resize-ne-not_converged ps i (jump op k (some t) (some f)) s = ground arith
  resize-ne-not_converged ps i _ s = ground arith

  sweep-ne-not_converged :
      (ps : List ℕ) (i : ℕ) (xs : List (Insn L)) (ss : List ℕ)
      → sweep labels ps i xs ss ≢ err (value_error not_converged)
  unfolding sweep
  sweep-ne-not_converged ps i [] ss = ground arith
  sweep-ne-not_converged ps i (x ∷ xs) [] = ground arith
  sweep-ne-not_converged ps i (x ∷ xs) (s ∷ ss) =
      ground (arith, resize-ne-not_converged ps i x s, sweep-ne-not_converged ps (i + 1) xs ss)

  -- What `_resolve_sizes` makes sure of: the sizes are possible, and stable under a sweep.
  abbrev pub IsSettled : List (Insn L) → List ℕ → Type 0
  IsSettled xs ss = AllSized xs ss × (sweep labels (positions ss) 0 xs ss ≡ ok (ss, false))

  -- With more rounds than sizes left to expand, the loop does not run out of rounds.
  resolve_rounds_lem :
      (rounds : ℕ) (xs : List (Insn L)) (ss : List ℕ)
      → unexpanded ss < rounds
      → AllSized xs ss
      → (resolve_rounds labels rounds xs ss ≢ err (value_error not_converged))
        × ((ss' : List ℕ) → resolve_rounds labels rounds xs ss ≡ ok ss' → IsSettled xs ss')
  unfolding resolve_rounds
  resolve_rounds_lem zero xs ss m v = absurd (omega arith)
  resolve_rounds_lem (suc rounds) xs ss m v =
      elim (Result-cases (sweep labels (positions ss) 0 xs ss)) [
        | inr (e, q) ↦ rw q (
          (λ p. ground (arith, sweep-ne-not_converged (positions ss) 0 xs ss)),
          (λ ss' p. absurd (cc)),
        )
        | inl ((ss₁, true), q) ↦
            let (sized, _, grown) = sweep-eq-ok (positions ss) 0 xs ss ss₁ true q v in
            rw q (resolve_rounds_lem rounds xs ss₁ (ground arith) sized)
        | inl ((ss₁, false), q) ↦
            let (sized, _, same) = sweep-eq-ok (positions ss) 0 xs ss ss₁ false q v in
            let e : ss₁ ≡ ss = ground arith in
            rw q ((λ p. cc), λ ss' p. settled e (ground arith) sized q)
      ]
    where
      settled :
          {ss₁ ss' : List ℕ}
          → ss₁ ≡ ss
          → ss₁ ≡ ss'
          → AllSized xs ss₁
          → sweep labels (positions ss) 0 xs ss ≡ ok (ss₁, false)
          → IsSettled xs ss'
      settled {ss₁} {ss'} e f sized q =
          subst (IsSettled xs) f
            (sized, subst (λ t. sweep labels (positions t) 0 xs t ≡ ok (ss₁, false)) (sym e) q)

  -- The rounds that `_resolve_sizes` allows are enough: it never raises for want of convergence.
  pub resolve_sizes-converges :
      (xs : List (Insn L)) → resolve_sizes labels xs ≢ err (value_error not_converged)
  unfolding resolve_sizes
  resolve_sizes-converges xs =
      (resolve_rounds_lem (length xs + 1) xs (replicate (length xs) 1)
        (omega (arith, unexpanded-replicate (length xs))) (replicate-AllSized xs)).0

  pub resolve_sizes-eq-ok :
      (xs : List (Insn L)) (ss : List ℕ) → resolve_sizes labels xs ≡ ok ss → IsSettled xs ss
  unfolding resolve_sizes
  resolve_sizes-eq-ok xs ss =
      (resolve_rounds_lem (length xs + 1) xs (replicate (length xs) 1)
          (omega (arith, unexpanded-replicate (length xs))) (replicate-AllSized xs)).1
        ss
