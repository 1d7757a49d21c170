-- ===== src/Filter/Correct.antt =====
-- The bytes that `_compile` of src/seccompy/filter.py returns do what the rules say.
use seccompy.Base.{
  ℕ, ◌+◌, ◌*◌, ◌^◌, ◌%◌, ◌<◌, ◌≡◌, refl, ◌∙◌, inl, inr, true, false, none, some, List, [], ◌∷◌,
  ◌++◌, map, arith, length, All, lookup, Dict, ◌==◌, Bool-cases, nat_eq,
}
use seccompy.Base.Int.{pos}
use seccompy.Errors.{ok, >>=-eq-ok}
use seccompy.Bpf.{ret, jeq}
use seccompy.Bpf.Machine.{returned, word, holds, source_turn, run_source, run_packed}
use seccompy.Bpf.Assemble.{assemble}
use seccompy.Bpf.Correct.{assembled_program_matches_source, assembled_program_ends}
use seccompy.Filter.Action
use seccompy.Filter.Labels.{block, kill, label_eq}
use seccompy.Filter.Compile.{
  Asm, mark, Rule, emit_blocks, dispatch, prologue, build, check_insns, compile,
}
use seccompy.Filter.Spec.{first_match, verdict}
use seccompy.Filter.Cond.{IsBytes}
use seccompy.Filter.Source.{Returns, Returns-load, Returns-jump, Returns-ret, Has, run_determined}
use seccompy.Filter.Extends.{
  Extends, Extends-refl, Extends-trans, Extends-append, Extends-mark, Unused, lookup-mark,
  Has-appended,
}
use seccompy.Filter.Rules.{IsRule}
use seccompy.Filter.Blocks.{
  IsDistinct, Pending, Lands, emit_blocks-Extends, emit_blocks-kill, emit_blocks-Lands,
}

-- The rules of a filter: one entry for a syscall, with a 32-bit number, 32-bit actions and checked
-- conditions.
pub record IsTable (rules : Dict ℕ (List Rule)) : Type 0 where
  pub distinct : IsDistinct rules
  pub numbers : All (λ (e : ℕ × List Rule). e.0 < 2 ^ 32) rules
  pub valid : All (λ (e : ℕ × List Rule). All IsRule e.1) rules

-- What the rules say once the architecture is accepted.
abbrev answer : ℕ → Dict ℕ (List Rule) → ℕ → List ℕ → ℕ
answer default rules nr packet = elim (lookup nr rules) [
  | none ↦ default
  | some rs ↦ first_match default packet rs
]

module _ (packet : List ℕ) (bytes : IsBytes packet) (b : Asm) (default : ℕ) where
  -- The chain of comparisons with the syscalls' numbers.
  dispatch-Returns :
      (rules : Dict ℕ (List Rule)) (p nr : ℕ)
      → All (λ (e : ℕ × List Rule). e.0 < 2 ^ 32) rules
      → All (Lands packet bytes b default) rules
      → Has b.insns b.labels packet p (map dispatch rules ++ ret default ∷ [])
      → Returns b.insns b.labels packet p nr (answer default rules nr packet)
  dispatch-Returns [] p nr small lands has = Returns-ret b.insns b.labels packet p nr default has.0
  dispatch-Returns ((m, rs) ∷ rules) p nr small lands has =
      let (to, there, gives) = lands.0 in
      elim (Bool-cases (m == nr)) [
        | inl here ↦
            let e : holds jeq nr (m % 2 ^ 32) ≡ true = ground (arith, small.0) in
            rw (here, answer)
              (Returns-jump b.insns b.labels packet p nr _ jeq (m % 2 ^ 32) (some (block m)) none
                true to has.0 e there (gives nr))
        | inr other ↦
            let e : holds jeq nr (m % 2 ^ 32) ≡ false = ground (arith, small.0) in
            rw (other, answer)
              (Returns-jump b.insns b.labels packet p nr _ jeq (m % 2 ^ 32) (some (block m)) none
                false (p + 1) has.0 e refl
                (dispatch-Returns rules (p + 1) nr small.1 lands.1 has.1))
      ]

prologue-Unused :
    (arch default : ℕ) (rules : Dict ℕ (List Rule))
    → Unused (Pending rules) (prologue arch default rules)
unfolding prologue
prologue-Unused arch default rules l q = refl

module _ (arch default : ℕ) (rules : Dict ℕ (List Rule)) (table : IsTable rules) where
  -- The program before the last instruction.
  abbrev blocks : Asm
  blocks = emit_blocks default rules (prologue arch default rules)

  blocks-Extends : Extends blocks (build arch default rules)
  unfolding build
  blocks-Extends =
      Extends-trans blocks (mark kill blocks) _
        (Extends-mark kill blocks (
          emit_blocks-kill default rules (prologue arch default rules) table.distinct
            (prologue-Unused arch default rules)))
        (Extends-append _ (mark kill blocks))

  prologue-Has :
      (packet : List ℕ)
      → Has
          (build arch default rules).insns
          (build arch default rules).labels
          packet
          0
          (prologue arch default rules).insns
  unfolding prologue
  prologue-Has packet =
      Has-appended packet (prologue arch default rules).insns (record { insns = []; labels = [] })
        (build arch default rules)
        (Extends-trans (prologue arch default rules) blocks _
          (emit_blocks-Extends default rules (prologue arch default rules) table.distinct
            (prologue-Unused arch default rules))
          blocks-Extends)

  kill-Returns :
      (packet : List ℕ) (acc : ℕ)
      → Returns
          (build arch default rules).insns
          (build arch default rules).labels
          packet
          (length blocks.insns)
          acc
          Action.kill_process
  unfolding build
  kill-Returns packet acc =
      Returns-ret _ _ packet (length blocks.insns) acc Action.kill_process
        (Has-appended packet (ret Action.kill_process ∷ []) (mark kill blocks)
          (build arch default rules) (Extends-refl _)).0

  kill-there : lookup kill (build arch default rules).labels ≡ some (pos (length blocks.insns))
  unfolding build
  kill-there =
      lookup-mark kill blocks (build arch default rules) (Extends-append _ (mark kill blocks))

  -- The labelled program returns the verdict.
  build-Returns :
      (packet : List ℕ)
      → arch < 2 ^ 32
      → IsBytes packet
      → Returns
          (build arch default rules).insns
          (build arch default rules).labels
          packet
          0
          0
          (verdict arch default rules packet)
  unfolding verdict prologue
  build-Returns packet small bytes =
      let b = build arch default rules in
      let has = prologue-Has packet in
      Returns-load b.insns b.labels packet 0 0 4 _ has.0
        (elim (Bool-cases (word packet 4 == arch)) [
          | inl native ↦ rw native (
              Returns-jump b.insns b.labels packet 1 (word packet 4) _ jeq arch none (some kill)
                true 2 has.1.0 native refl
                (Returns-load b.insns b.labels packet 2 (word packet 4) 0 _ has.1.1.0 (
                  dispatch-Returns packet bytes b default rules 3 (word packet 0) table.numbers
                    (emit_blocks-Lands packet bytes b default rules (prologue arch default rules)
                      table.distinct (prologue-Unused arch default rules) table.valid
                      blocks-Extends)
                    has.1.1.1)))
          | inr foreign ↦ rw foreign (
              Returns-jump b.insns b.labels packet 1 (word packet 4) _ jeq arch none (some kill)
                false (length blocks.insns) has.1.0 foreign kill-there
                (kill-Returns packet (word packet 4)))
        ])

  module _ (prog : List ℕ) (success : compile arch default rules ≡ ok prog) where
    assembled :
        assemble (build arch default rules).insns (build arch default rules).labels ≡ ok prog
    unfolding compile
    assembled = (>>=-eq-ok (check_insns (build arch default rules).insns) _ success).2

    -- For a well-formed table of rules and a 32-bit audit architecture: the bytes that `_compile`
    -- returns, run on the bytes of a `struct seccomp_data` with fuel above their number of records,
    -- end and return the verdict of the rules.
    pub compiled_program_returns_verdict :
        (packet : List ℕ) (g : ℕ)
        → arch < 2 ^ 32
        → IsBytes packet
        → length prog < g * 8
        → run_packed g prog packet ≡ returned (verdict arch default rules packet)
    unfolding run_source
    compiled_program_returns_verdict packet g small bytes fuel =
        let b = build arch default rules in
        let same =
          assembled_program_matches_source b.insns b.labels prog packet (length b.insns + 1) g
            assembled (omega arith) fuel in
        let (f, r) = build-Returns packet small bytes in
        same
        ∙ run_determined (source_turn b.labels b.insns packet) f (length b.insns + 1) (pos 0, 0)
            (verdict arch default rules packet) r
            (λ stuck.
              assembled_program_ends b.insns b.labels prog packet g assembled fuel (same ∙ stuck))
