-- ===== src/Bpf/Termination.antt =====
-- The runs of instructions that were laid out by `assemble` of src/seccompy/bpf.py, in the interpreter
-- `run_source` of tests/test_bpf.py: there every jump leads forward.
use seccompy.Base.{
  ℕ, zero, suc, ◌+◌, ◌<◌, ◌≡◌, ◌≢◌, refl, sym, ap, ◌∙◌, subst, inl, inr, Option, some, List, [],
  arith, length, get_elem?, lt-length_of_get_elem?, Eq, Dict, Option-cases, Bool-cases, bit_and,
  if◌then◌else◌,
}
use seccompy.Base.Int.{ℤ, pos}
use seccompy.Bpf.{Insn, load, mask, jump, ja, ret}
use seccompy.Bpf.Pack.{SockFilter}
use seccompy.Bpf.Machine.{running, continue, run, word, holds, exec_source, jump_to, source_turn}
use seccompy.Bpf.Emission.{Leads, Arrives, Stands}
use seccompy.Bpf.Simulation.{
  run-continue, run-halt, run-fail, Resolves, IsResolved, IsLayout, source, source_turn-some,
  source_turn-none, index-lt, Leads-index, Arrives-lt,
}

module _ {L : Type 0} ⦃e : Eq L⦄ (labels : Dict L ℤ) (insns : List (Insn L)) (ps packet : List ℕ)
    (prog : List SockFilter) (layout : IsLayout labels insns ps packet prog) where
  -- With fuel `f` the run from each instruction that is near enough to the end comes to an end.
  abbrev Ends : ℕ → Type 0
  Ends f =
      (i here acc : ℕ)
      → get_elem? ps i ≡ some here
      → length insns < f + i
      → source labels insns ps packet prog f i acc ≢ running

  jump-Ends :
      (f : ℕ)
      → Ends f
      → (i here after at d acc : ℕ) (t : Option L) (tail : List SockFilter)
      → get_elem? ps i ≡ some here
      → get_elem? ps (i + 1) ≡ some after
      → Resolves labels (length insns) t
      → Leads labels ps after t at
      → Arrives labels ps here tail d at
      → length insns < suc f + i
      → (s : ℤ × ℕ) × (jump_to labels t (pos i) acc ≡ continue s)
        × (run (source_turn labels insns packet) f s ≢ running)
  jump-Ends f ih i here after at d acc t tail p next r l a n =
      let (j, q, jumps) =
        Leads-index labels insns ps packet prog layout t i here after at next r l in
      let later : i < j =
        index-lt labels insns ps packet prog layout i j here at p q
          (Arrives-lt labels insns ps packet prog layout here d at tail a) in
      ((pos j, acc), jumps acc, ih j at acc q (omega arith))

  -- A turn that goes on, to a state from which the run ends.
  turn-ends :
      (f i acc : ℕ) (s : ℤ × ℕ)
      → source_turn labels insns packet (pos i, acc) ≡ continue s
      → run (source_turn labels insns packet) f s ≢ running
      → source labels insns ps packet prog (suc f) i acc ≢ running
  turn-ends f i acc s goes rest stuck =
      rest (sym (run-continue (source_turn labels insns packet) f (pos i, acc) goes) ∙ stuck)

  step-Ends :
      (f : ℕ)
      → Ends f
      → (i here acc : ℕ) (x : Insn L) (rs : List SockFilter) → get_elem? insns i ≡ some x
      → get_elem? ps i ≡ some here
      → get_elem? ps (i + 1) ≡ some (here + length rs)
      → length insns < suc f + i
      → IsResolved labels (length insns) x
      → Stands labels ps here x rs
      → source labels insns ps packet prog (suc f) i acc ≢ running
  unfolding exec_source
  step-Ends f ih i here acc (load k) rs found p next n r same =
      turn-ends f i acc _ (source_turn-some labels insns ps packet prog i acc found)
        (ih (i + 1) (here + length rs) (word packet k) next (omega arith))
  step-Ends f ih i here acc (mask k) rs found p next n r same =
      turn-ends f i acc _ (source_turn-some labels insns ps packet prog i acc found)
        (ih (i + 1) (here + length rs) (bit_and acc k) next (omega arith))
  step-Ends f ih i here acc (ret k) rs found p next n r same =
      let done =
        run-halt (source_turn labels insns packet) f (pos i, acc)
          (source_turn-some labels insns ps packet prog i acc found) in
      λ stuck. cc (sym done ∙ stuck)
  step-Ends f ih i here acc (ja t) rs found p next n r (off, same, leads) =
      let (s, jumps, rest) =
        jump-Ends f ih i here (here + length rs) (here + 1 + off) off acc (some t) [] p next r leads
          (inl refl) n in
      turn-ends f i acc s (source_turn-some labels insns ps packet prog i acc found ∙ jumps) rest
  step-Ends f ih i here acc (jump op k jt jf) rs found p next n (rt, rf)
        (a, b, at, at', tail, same, leads, arrives, leads', arrives') =
      let (s, jumps, rest) =
        jump-Ends f ih i here (here + length rs) at a acc jt tail p next rt leads arrives n in
      let (s', jumps', rest') =
        jump-Ends f ih i here (here + length rs) at' b acc jf tail p next rf leads' arrives' n in
      elim (Bool-cases (holds op acc k)) [
        | inl e ↦
            turn-ends f i acc s
              (source_turn-some labels insns ps packet prog i acc found
                ∙ ap (λ z. jump_to labels (if z then jt else jf) (pos i) acc) e
                ∙ jumps)
              rest
        | inr e ↦
            turn-ends f i acc s'
              (source_turn-some labels insns ps packet prog i acc found
                ∙ ap (λ z. jump_to labels (if z then jt else jf) (pos i) acc) e
                ∙ jumps')
              rest'
      ]

  -- With more fuel than instructions left, the run from an instruction comes to an end.
  pub ends : (f : ℕ) → Ends f
  ends zero i here acc p n = absurd (omega (arith, lt-length_of_get_elem? ps i p, layout.bound))
  ends (suc f) i here acc p n = elim (Option-cases (get_elem? insns i)) [
    | inl gone ↦ λ stuck. cc (
        sym (
          run-fail (source_turn labels insns packet) f (pos i, acc)
            (source_turn-none labels insns ps packet prog i acc gone))
        ∙ stuck)
    | inr (x, found) ↦
        let (here', rs, p', next, stands, inside) = layout.located i x found in
        let same : here' ≡ here = cc in
        step-Ends f (ends f) i here acc x rs found p
          (next ∙ ap (λ (t : ℕ). some (t + length rs)) same) n (layout.resolved i x found)
          (subst (λ t. Stands labels ps t x rs) same stands)
  ]
