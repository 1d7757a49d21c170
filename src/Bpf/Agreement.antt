-- ===== src/Bpf/Agreement.antt =====
-- The two interpreters of tests/test_bpf.py agree on an assembled program, by recursion on the
-- fuel of the source run.
use native.Mathlib.Nat.{add-zero}
use seccompy.Base.{
  ℕ, zero, suc, ◌+◌, ◌<◌, ◌≡◌, refl, sym, ap, ◌∙◌, subst, inl, inr, Option, some, List, [], ◌∷◌,
  arith, length, get_elem?, lt-length_of_get_elem?, length-le_of_get_elem?, get_elem?-past, Eq,
  Dict, Option-cases, Bool-cases, bit_and, if◌then◌else◌,
}
use seccompy.Base.Int.{ℤ, pos}
use seccompy.Bpf.{Insn, load, mask, jump, ja, ret}
use seccompy.Bpf.Pack.{SockFilter}
use seccompy.Bpf.Machine.{
  continue, run, word, holds, exec_packed, exec_source, jump_to, source_turn,
}
use seccompy.Bpf.Emission.{Leads, Arrives, Stands}
use seccompy.Bpf.Simulation.{
  record_turn, run-continue, run-halt, run-fail, record_turn-some, record_turn-none,
  exec_packed-jump, exec_packed-ja, Resolves, IsResolved, IsLayout, source, target, Agrees,
  source_turn-some, source_turn-none, position-le, index-lt, Leads-index, Arrives-lt,
  Arrives-target,
}

module _ {L : Type 0} ⦃e : Eq L⦄ (labels : Dict L ℤ) (insns : List (Insn L)) (ps packet : List ℕ)
    (prog : List SockFilter) (layout : IsLayout labels insns ps packet prog) where
  -- A conditional jump, on the branch that it takes.
  jump-step :
      (f : ℕ)
      → Agrees labels insns ps packet prog f
      → (i here after at d acc : ℕ) (t : Option L) (tail : List SockFilter)
      → get_elem? ps i ≡ some here
      → get_elem? ps (i + 1) ≡ some after
      → ((d' : ℕ) → d' < length tail → get_elem? prog (here + suc d') ≡ get_elem? tail d')
      → Resolves labels (length insns) t
      → Leads labels ps after t at
      → Arrives labels ps here tail d at
      → (g : ℕ) → length insns < suc f + i
      → length prog < suc g + here
      → (s : ℤ × ℕ) × (jump_to labels t (pos i) acc ≡ continue s)
        × (run (source_turn labels insns packet) f s
            ≡ target labels insns ps packet prog g (here + (1 + d)) acc)
  jump-step f ih i here after at d acc t tail p next inside r l a g n m =
      let (j, q, jumps) =
        Leads-index labels insns ps packet prog layout t i here after at next r l in
      let (g', enough, goes) =
        Arrives-target labels insns ps packet prog layout here d at tail inside a g m in
      let later : i < j =
        index-lt labels insns ps packet prog layout i j here at p q
          (Arrives-lt labels insns ps packet prog layout here d at tail a) in
      ((pos j, acc), jumps acc, ih g' j at acc q (omega arith) enough ∙ sym (goes acc))

  first-record :
      (here : ℕ) (r : SockFilter) (rs tail : List SockFilter)
      → rs ≡ r ∷ tail
      → ((d : ℕ) → d < length rs → get_elem? prog (here + d) ≡ get_elem? rs d)
      → get_elem? prog here ≡ some r
  first-record here r rs tail same inside =
      rw add-zero at (inside 0 (omega (arith, ap length same)) ∙ ap (λ t. get_elem? t 0) same)

  tail-records :
      (here : ℕ) (r : SockFilter) (rs tail : List SockFilter)
      → rs ≡ r ∷ tail
      → ((d : ℕ) → d < length rs → get_elem? prog (here + d) ≡ get_elem? rs d)
      → (d : ℕ) → d < length tail
      → get_elem? prog (here + suc d) ≡ get_elem? tail d
  tail-records here r rs tail same inside d lt =
      inside (suc d) (omega (arith, ap length same)) ∙ ap (λ t. get_elem? t (suc d)) same

  -- An instruction and a record that both go on to what comes next.
  linear-step :
      (f : ℕ)
      → Agrees labels insns ps packet prog f
      → (g i here acc acc' : ℕ) (x : Insn L) (r : SockFilter) (rs : List SockFilter)
      → get_elem? insns i ≡ some x
      → exec_source labels packet (pos i) acc x ≡ continue (pos (i + 1), acc')
      → rs ≡ r ∷ []
      → exec_packed packet here acc r ≡ continue (here + 1, acc')
      → get_elem? ps (i + 1) ≡ some (here + length rs)
      → ((d : ℕ) → d < length rs → get_elem? prog (here + d) ≡ get_elem? rs d)
      → length insns < suc f + i
      → length prog < suc g + here
      → source labels insns ps packet prog (suc f) i acc
        ≡ target labels insns ps packet prog (suc g) here acc
  linear-step f ih g i here acc acc' x r rs found does same does' next inside n m =
      run-continue (source_turn labels insns packet) f (pos i, acc)
        (source_turn-some labels insns ps packet prog i acc found ∙ does)
      ∙ ih g (i + 1) (here + 1) acc' (next ∙ ap (λ (t : ℕ). some (here + t)) (ap length same))
          (omega arith) (omega arith)
      ∙ sym (
          run-continue (record_turn prog packet) g (here, acc)
            (record_turn-some prog packet here acc (first-record here r rs [] same inside) ∙ does'))

  -- One instruction, with the agreement of what follows.
  step-Agrees :
      (f : ℕ)
      → Agrees labels insns ps packet prog f
      → (g i here acc : ℕ) (x : Insn L) (rs : List SockFilter) → get_elem? insns i ≡ some x
      → get_elem? ps i ≡ some here
      → get_elem? ps (i + 1) ≡ some (here + length rs)
      → length insns < suc f + i
      → length prog < suc g + here
      → IsResolved labels (length insns) x
      → Stands labels ps here x rs
      → ((d : ℕ) → d < length rs → get_elem? prog (here + d) ≡ get_elem? rs d)
      → source labels insns ps packet prog (suc f) i acc
        ≡ target labels insns ps packet prog (suc g) here acc
  unfolding exec_source exec_packed
  step-Agrees f ih g i here acc (load k) rs found p next n m r same inside =
      linear-step f ih g i here acc (word packet k) (load k) _ rs found refl same refl next inside n
        m
  step-Agrees f ih g i here acc (mask k) rs found p next n m r same inside =
      linear-step f ih g i here acc (bit_and acc k) (mask k) _ rs found refl same refl next inside n
        m
  step-Agrees f ih g i here acc (ret k) rs found p next n m r same inside =
      run-halt (source_turn labels insns packet) f (pos i, acc)
        (source_turn-some labels insns ps packet prog i acc found)
      ∙ sym (
          run-halt (record_turn prog packet) g (here, acc)
            (record_turn-some prog packet here acc (first-record here _ rs [] same inside)))
  step-Agrees f ih g i here acc (ja t) rs found p next n m r (off, same, leads) inside =
      let (s, jumps, goes) =
        jump-step f ih i here (here + length rs) (here + 1 + off) off acc (some t) [] p next
          (λ d lt. elim lt [ ]) r leads (inl refl) g n m in
      run-continue (source_turn labels insns packet) f (pos i, acc)
        (source_turn-some labels insns ps packet prog i acc found ∙ jumps)
      ∙ goes
      ∙ sym (
          run-continue (record_turn prog packet) g (here, acc)
            (record_turn-some prog packet here acc (first-record here _ rs [] same inside)
              ∙ exec_packed-ja packet here acc off))
  step-Agrees f ih g i here acc (jump op k jt jf) rs found p next n m (rt, rf)
        (a, b, at, at', tail, same, leads, arrives, leads', arrives') inside =
      let more = tail-records here _ rs tail same inside in
      let (s, jumps, goes) =
        jump-step f ih i here (here + length rs) at a acc jt tail p next more rt leads arrives g n
          m in
      let (s', jumps', goes') =
        jump-step f ih i here (here + length rs) at' b acc jf tail p next more rf leads' arrives' g
          n m in
      let does =
        record_turn-some prog packet here acc (first-record here _ rs tail same inside)
        ∙ exec_packed-jump packet here acc op a b k in
      elim (Bool-cases (holds op acc k)) [
        | inl e ↦
            run-continue (source_turn labels insns packet) f (pos i, acc)
              (source_turn-some labels insns ps packet prog i acc found
                ∙ ap (λ z. jump_to labels (if z then jt else jf) (pos i) acc) e
                ∙ jumps)
            ∙ goes
            ∙ sym (
                run-continue (record_turn prog packet) g (here, acc)
                  (does ∙ ap (λ z. continue (here + (1 + (if z then a else b)), acc)) e))
        | inr e ↦
            run-continue (source_turn labels insns packet) f (pos i, acc)
              (source_turn-some labels insns ps packet prog i acc found
                ∙ ap (λ z. jump_to labels (if z then jt else jf) (pos i) acc) e
                ∙ jumps')
            ∙ goes'
            ∙ sym (
                run-continue (record_turn prog packet) g (here, acc)
                  (does ∙ ap (λ z. continue (here + (1 + (if z then a else b)), acc)) e))
      ]

  -- With enough fuel for each the two runs agree from every instruction.
  pub agrees : (f : ℕ) → Agrees labels insns ps packet prog f
  agrees zero g i here acc p n m =
      absurd (omega (arith, lt-length_of_get_elem? ps i p, layout.bound))
  agrees (suc f) zero i here acc p n m =
      absurd (omega (arith, position-le labels insns ps packet prog layout i here p))
  agrees (suc f) (suc g) i here acc p n m = elim (Option-cases (get_elem? insns i)) [
    | inl gone ↦
        let end : i ≡ length insns = omega (
          arith,
          length-le_of_get_elem? insns i gone,
          lt-length_of_get_elem? ps i p,
          layout.bound,
        ) in
        let past : here ≡ length prog = ground (arith, ap (get_elem? ps) end, layout.last) in
        run-fail (source_turn labels insns packet) f (pos i, acc)
          (source_turn-none labels insns ps packet prog i acc gone)
        ∙ sym (
            run-fail (record_turn prog packet) g (here, acc)
              (record_turn-none prog packet here acc (get_elem?-past prog here (omega arith))))
    | inr (x, found) ↦
        let (here', rs, p', next, stands, inside) = layout.located i x found in
        let same : here' ≡ here = cc in
        step-Agrees f (agrees f) g i here acc x rs found p
          (next ∙ ap (λ (t : ℕ). some (t + length rs)) same) n m (layout.resolved i x found)
          (subst (λ t. Stands labels ps t x rs) same stands)
          (λ d lt. ap (λ (t : ℕ). get_elem? prog (t + d)) (sym same) ∙ inside d lt)
  ]
