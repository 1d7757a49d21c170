-- ===== src/Filter/Source.antt =====
-- Runs of a labelled program that return a value, step by step, with the fuel forgotten.
use native.Mathlib.Nat.{add-zero}
use seccompy.Base.{
  ℕ, zero, suc, ◌+◌, ◌≡◌, ◌≢◌, refl, sym, ap, ◌∙◌, Bool, Option, none, some, List, [], ◌∷◌, ◌++◌,
  arith, if◌then◌else◌, length, get_elem?, Eq, Dict, lookup, bit_and,
}
use seccompy.Base.Int.{ℤ, pos}
use seccompy.Bpf.{Insn, load, mask, jump, ret, JumpOp}
use seccompy.Bpf.Machine.{
  Outcome, returned, raised, running, Turn, continue, halt, fail, run, word, holds, exec_source,
  jump_to, source_turn,
}
use seccompy.Bpf.Simulation.{run-continue, run-halt}

module _ {S : Type 0} (turn : S → Turn S) where
  -- What a loop does with the result of a turn.
  after : ℕ → Turn S → Outcome
  after f (continue s) = run turn f s
  after f (halt k) = returned k
  after f fail = raised

  run-after : (f : ℕ) (s : S) → run turn (suc f) s ≡ after f (turn s)
  unfolding run after
  run-after f s = ground arith

  -- A run that returns a value returns it with any fuel that lets it end.
  pub run_determined :
      (f g : ℕ) (s : S) (v : ℕ)
      → run turn f s ≡ returned v
      → run turn g s ≢ running
      → run turn g s ≡ returned v
  unfolding run
  run_determined zero g s v h n = absurd (cc)
  run_determined (suc f) zero s v h n = absurd (n refl)
  run_determined (suc f) (suc g) s v h n =
      run-after g s
      ∙ turn_determined (turn s) (λ s'. run_determined f g s' v) (sym (run-after f s) ∙ h)
          (λ e. n (run-after g s ∙ e))
    where
      turn_determined :
          (t : Turn S)
          → ((s' : S)
              → run turn f s' ≡ returned v
              → run turn g s' ≢ running
              → run turn g s' ≡ returned v)
          → after f t ≡ returned v
          → after g t ≢ running
          → after g t ≡ returned v
      turn_determined (continue s') ih p q = unfold after in ih s' p q
      turn_determined (halt k) ih p q = unfold after in p
      turn_determined fail ih p q = unfold after in p

module _ {L : Type 0} ⦃e : Eq L⦄ (insns : List (Insn L)) (labels : Dict L ℤ) (packet : List ℕ) where
  -- The run from instruction `i` returns `v`.
  abbrev pub Returns : ℕ → ℕ → ℕ → Type 0
  Returns i acc v = (f : ℕ) × (run (source_turn labels insns packet) f (pos i, acc) ≡ returned v)

  -- A jump target stands at instruction `j`; no label is what follows instruction `i`.
  abbrev pub Targets : Option L → ℕ → ℕ → Type 0
  Targets none i j = i + 1 ≡ j
  Targets (some t) i j = lookup t labels ≡ some (pos j)

  -- `code` stands at instruction `p`.
  abbrev pub Has : ℕ → List (Insn L) → Type 0
  Has p [] = Unit
  Has p (x ∷ xs) = (get_elem? insns p ≡ some x) × Has (p + 1) xs

  source_turn-at :
      (i acc : ℕ) (x : Insn L)
      → get_elem? insns i ≡ some x
      → source_turn labels insns packet (pos i, acc) ≡ exec_source labels packet (pos i) acc x
  unfolding source_turn
  source_turn-at i acc x h = rw (h, source_turn)

  pub Returns-ret : (i acc v : ℕ) → get_elem? insns i ≡ some (ret v) → Returns i acc v
  unfolding exec_source
  Returns-ret i acc v h = (1, run-halt _ 0 (pos i, acc) (source_turn-at i acc (ret v) h))

  pub Returns-load :
      (i acc k v : ℕ)
      → get_elem? insns i ≡ some (load k)
      → Returns (i + 1) (word packet k) v
      → Returns i acc v
  unfolding exec_source
  Returns-load i acc k v h (f, r) =
      (suc f, run-continue _ f (pos i, acc) (source_turn-at i acc (load k) h) ∙ r)

  pub Returns-mask :
      (i acc k v : ℕ)
      → get_elem? insns i ≡ some (mask k)
      → Returns (i + 1) (bit_and acc k) v
      → Returns i acc v
  unfolding exec_source
  Returns-mask i acc k v h (f, r) =
      (suc f, run-continue _ f (pos i, acc) (source_turn-at i acc (mask k) h) ∙ r)

  jump_to-Targets :
      (t : Option L) (i j acc : ℕ)
      → Targets t i j
      → jump_to labels t (pos i) acc ≡ continue (pos j, acc)
  jump_to-Targets none i j acc h = ap (λ (t : ℕ). continue (pos t, acc)) h
  jump_to-Targets (some t) i j acc h = rw (h, jump_to)

  pub Returns-jump :
      (i acc v : ℕ) (op : JumpOp) (k : ℕ) (jt jf : Option L) (b : Bool) (j : ℕ)
      → get_elem? insns i ≡ some (jump op k jt jf)
      → holds op acc k ≡ b
      → Targets (if b then jt else jf) i j
      → Returns j acc v
      → Returns i acc v
  unfolding exec_source
  Returns-jump i acc v op k jt jf b j h test to (f, r) = (
    suc f,
    run-continue _ f (pos i, acc)
          (source_turn-at i acc (jump op k jt jf) h
            ∙ ap (λ z. jump_to labels (if z then jt else jf) (pos i) acc) test
            ∙ jump_to-Targets (if b then jt else jf) i j acc to)
        ∙ r,
  )

  pub Has-append :
      (p : ℕ) (xs ys : List (Insn L)) → Has p (xs ++ ys) → Has p xs × Has (p + length xs) ys
  Has-append p [] ys h = (tt, rw add-zero h)
  Has-append p (x ∷ xs) ys h =
      let (left, right) = Has-append (p + 1) xs ys h.1 in
      let e : p + suc (length xs) ≡ p + 1 + length xs = omega arith in ((h.0, left), rw e right)
