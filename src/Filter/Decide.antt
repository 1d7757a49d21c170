-- ===== src/Filter/Decide.antt =====
-- `_emit_cond` of src/seccompy/filter.py decides its condition, whatever the operator.
use seccompy.Base.{
  ℕ, ◌+◌, ◌*◌, ◌^◌, ◌<◌, ◌≡◌, refl, sym, ap, subst, inl, inr, true, false, none, some, List, [],
  ◌∷◌, ◌++◌, arith, ◌==◌, Bool-cases, length, length-append, Dict, lookup, bit_and,
}
use seccompy.Base.Int.{ℤ, pos}
use seccompy.Base.Bits.{bit_and-le, bit_and-zero}
use seccompy.Bpf.{Insn, load, mask, jump, jeq, jgt, jgeq}
use seccompy.Bpf.Machine.{word}
use seccompy.Filter.Args.{ArgCmp, IsCond, CmpOp, eq, ne, lt, le, gt, ge, masked_eq}
use seccompy.Filter.Labels.{Label, label_eq}
use seccompy.Filter.Compile.{low_word, high_word, lo_off, hi_off, masked_word, cond_insns}
use seccompy.Filter.Source.{Returns, Has, Has-append, Returns-load, Returns-mask, Returns-jump}
use seccompy.Filter.Spec.{argument, compares, cond_holds}
use seccompy.Filter.Cond.{
  IsBytes, word-lt, bit_and_words, masked_zero, Decides, less-Decides, greater-Decides, eq-Decides,
  ne-Decides,
}

module _ (insns : List (Insn Label)) (labels : Dict Label ℤ) (packet : List ℕ) (v : ℕ)
    (fail passed : Label) (c : ArgCmp) (to : ℕ) (missed : lookup fail labels ≡ some (pos to)) where
  -- One word under a mask; a mask of 0 needs no code.
  masked_word-Decides :
      (p off m x : ℕ)
      → Has insns labels packet p (masked_word off m x fail)
      → (m ≡ 0 → x ≡ 0)
      → Decides insns labels packet v fail passed c to missed p
          (p + length (masked_word off m x fail))
          (bit_and (word packet off) m == x)
  masked_word-Decides p off m x code empty hit no_hit acc = elim (Bool-cases (m == 0)) [
    | inl zero_mask ↦
        let none_emitted : masked_word off m x fail ≡ [] = unfold masked_word in rw zero_mask in
        let m0 : m ≡ 0 = ground arith in
        let x0 : x ≡ 0 = empty m0 in
        let test : (bit_and (word packet off) m == x) ≡ true =
          ground (arith, ap (bit_and (word packet off)) m0, bit_and-zero (word packet off)) in
        let e : p + length (masked_word off m x fail) ≡ p = omega (arith, ap length none_emitted) in
        rw e at (hit test acc)
    | inr some_mask ↦
        let emitted : masked_word off m x fail
            ≡ load off ∷ mask m ∷ jump jeq x none (some fail) ∷ [] =
          unfold masked_word in rw some_mask in
        let (a₀, (a₁, (a₂, _))) = subst (Has insns labels packet p) emitted code in
        let e : p + length (masked_word off m x fail) ≡ p + 3 = omega (arith, ap length emitted) in
        let y = bit_and (word packet off) m in
        Returns-load insns labels packet p acc off v a₀ (
          Returns-mask insns labels packet _ (word packet off) m v a₁ (elim (Bool-cases (y == x)) [
            | inl same ↦
                Returns-jump insns labels packet _ y v jeq x _ _ true (p + 3) a₂ same (omega arith)
                  (rw e at (hit same y))
            | inr apart ↦
                Returns-jump insns labels packet _ y v jeq x _ _ false to a₂ apart missed
                  (no_hit apart y)
          ]))
  ]

  module _ (valid : IsCond c) (bytes : IsBytes packet) (p : ℕ) where
    -- The code of a condition with operator `op`, which is that of the condition.
    abbrev Correct : CmpOp → Type 0
    Correct op =
        c.op ≡ op
        → Has insns labels packet p (cond_insns c op fail passed)
        → lookup passed labels ≡ some (pos (p + length (cond_insns c op fail passed)))
        → Decides insns labels packet v fail passed c to missed p
            (p + length (cond_insns c op fail passed))
            (compares op (argument packet c.index) c.value c.mask)

    low-lt : word packet (lo_off c) < 2 ^ 32
    low-lt = word-lt packet (lo_off c) bytes

    high-lt : word packet (hi_off c) < 2 ^ 32
    high-lt = word-lt packet (hi_off c) bytes

    eq-Correct : Correct eq
    unfolding argument cond_insns
    eq-Correct e code there =
        eq-Decides insns labels packet v fail passed c to missed p _ code
          (λ q. ground (arith, low-lt, high-lt, valid.value_le))
          (λ q. ground (arith, low-lt, high-lt, valid.value_le))
          (λ q q'. ground (arith, low-lt, high-lt, valid.value_le))

    ne-Correct : Correct ne
    unfolding argument cond_insns
    ne-Correct e code there =
        ne-Decides insns labels packet v fail passed c to missed p _ code there
          (λ q. ground (arith, low-lt, high-lt, valid.value_le))
          (λ q. ground (arith, low-lt, high-lt, valid.value_le))
          (λ q q'. ground (arith, low-lt, high-lt, valid.value_le))

    lt-Correct : Correct lt
    unfolding argument cond_insns
    lt-Correct e code there =
        less-Decides insns labels packet v fail passed c to missed p jgeq _ code there
          (λ q. ground (arith, low-lt, high-lt, valid.value_le))
          (λ q q'. ground (arith, low-lt, high-lt, valid.value_le))
          (λ q q'. ground (arith, low-lt, high-lt, valid.value_le))
          (λ q q'. ground (arith, low-lt, high-lt, valid.value_le))

    le-Correct : Correct le
    unfolding argument cond_insns
    le-Correct e code there =
        less-Decides insns labels packet v fail passed c to missed p jgt _ code there
          (λ q. ground (arith, low-lt, high-lt, valid.value_le))
          (λ q q'. ground (arith, low-lt, high-lt, valid.value_le))
          (λ q q'. ground (arith, low-lt, high-lt, valid.value_le))
          (λ q q'. ground (arith, low-lt, high-lt, valid.value_le))

    gt-Correct : Correct gt
    unfolding argument cond_insns
    gt-Correct e code there =
        greater-Decides insns labels packet v fail passed c to missed p jgt _ code there
          (λ q. ground (arith, low-lt, high-lt, valid.value_le))
          (λ q q'. ground (arith, low-lt, high-lt, valid.value_le))
          (λ q q'. ground (arith, low-lt, high-lt, valid.value_le))
          (λ q q'. ground (arith, low-lt, high-lt, valid.value_le))

    ge-Correct : Correct ge
    unfolding argument cond_insns
    ge-Correct e code there =
        greater-Decides insns labels packet v fail passed c to missed p jgeq _ code there
          (λ q. ground (arith, low-lt, high-lt, valid.value_le))
          (λ q q'. ground (arith, low-lt, high-lt, valid.value_le))
          (λ q q'. ground (arith, low-lt, high-lt, valid.value_le))
          (λ q q'. ground (arith, low-lt, high-lt, valid.value_le))

    -- The masked test is the test of both words.
    masked_test :
        (bit_and (argument packet c.index) c.mask)
        ≡ bit_and (word packet (hi_off c)) (high_word c.mask) * 2 ^ 32
          + bit_and (word packet (lo_off c)) (low_word c.mask)
    unfolding argument
    masked_test =
        bit_and_words (word packet (lo_off c)) (word packet (hi_off c)) c.mask low-lt valid.mask_le

    masked_eq-Correct : Correct masked_eq
    unfolding cond_insns
    masked_eq-Correct e code there hit no_hit acc =
        let first = masked_word (lo_off c) (low_word c.mask) (low_word c.value) fail in
        let second = masked_word (hi_off c) (high_word c.mask) (high_word c.value) fail in
        let (code₁, code₂) = Has-append insns labels packet p first second code in
        let zeros = masked_zero c.value c.mask valid.value_le valid.mask_le (valid.in_mask e) in
        let lows = bit_and-le (word packet (lo_off c)) (low_word c.mask) in
        let highs = bit_and-le (word packet (hi_off c)) (high_word c.mask) in
        let end : p + length first + length second ≡ p + length (first ++ second) =
          omega (arith, length-append first second) in
        masked_word-Decides p (lo_off c) (low_word c.mask) (low_word c.value) code₁ zeros.0
          (λ q.
            masked_word-Decides (p + length first) (hi_off c) (high_word c.mask) (high_word c.value)
              code₂ zeros.1
              (λ q'.
                subst (λ t. (acc' : ℕ) → Returns insns labels packet t acc' v) (sym end)
                  (hit (ground (arith, masked_test, lows, highs, low-lt, high-lt, valid.value_le))))
              (λ q'.
                no_hit (ground (arith, masked_test, lows, highs, low-lt, high-lt, valid.value_le))))
          (λ q. no_hit (ground (arith, masked_test, lows, highs, low-lt, high-lt, valid.value_le)))
          acc

    -- The code of a condition decides it.
    pub cond-Decides :
        Has insns labels packet p (cond_insns c c.op fail passed)
        → lookup passed labels ≡ some (pos (p + length (cond_insns c c.op fail passed)))
        → Decides insns labels packet v fail passed c to missed p
            (p + length (cond_insns c c.op fail passed))
            (cond_holds packet c)
    cond-Decides = by_op c.op refl
      where
        by_op : (op : CmpOp) → Correct op
        by_op eq = eq-Correct
        by_op ne = ne-Correct
        by_op lt = lt-Correct
        by_op le = le-Correct
        by_op gt = gt-Correct
        by_op ge = ge-Correct
        by_op masked_eq = masked_eq-Correct
