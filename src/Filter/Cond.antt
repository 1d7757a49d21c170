-- ===== src/Filter/Cond.antt =====
-- The code that `_emit_cond` of src/seccompy/filter.py makes for one condition: control passes
-- behind it where the condition holds, and goes to the fail label where it does not.
use seccompy.Base.{
  ℕ, zero, suc, ◌+◌, ◌*◌, ◌^◌, ◌≤◌, ◌<◌, ◌≡◌, refl, ap, ◌∙◌, inl, inr, Bool, true, false, none,
  some, List, [], ◌∷◌, arith, ltb, ◌==◌, Bool-cases, All, get_or, Dict, lookup, bit_and,
}
use seccompy.Base.Int.{ℤ, pos}
use seccompy.Base.Bits.{bit_and-le, bit_and_parts}
use seccompy.Bpf.{Insn, load, jump, JumpOp, jeq, jgt}
use seccompy.Bpf.Machine.{word, holds}
use seccompy.Filter.Args.{ArgCmp, eq, ne, and_not, u64_max}
use seccompy.Filter.Labels.{Label, label_eq}
use seccompy.Filter.Compile.{low_word, high_word, lo_off, hi_off, cond_insns}
use seccompy.Filter.Source.{Returns, Has, Returns-load, Returns-jump}

abbrev pub IsBytes : List ℕ → Type 0
IsBytes = All (λ b. b < 256)

get_or-lt : (packet : List ℕ) (i : ℕ) → IsBytes packet → get_or packet i 0 < 256
get_or-lt [] i h = omega arith
get_or-lt (b ∷ packet) zero h = h.0
get_or-lt (b ∷ packet) (suc i) h = get_or-lt packet i h.1

pub word-lt : (packet : List ℕ) (k : ℕ) → IsBytes packet → word packet k < 2 ^ 32
unfolding word
word-lt packet k h = omega (
  arith,
  get_or-lt packet k h,
  get_or-lt packet (k + 1) h,
  get_or-lt packet (k + 2) h,
  get_or-lt packet (k + 3) h,
)

-- The conjunction of a 64-bit number with a mask, word by word.
pub bit_and_words :
    (w h m : ℕ)
    → w < 2 ^ 32
    → m ≤ u64_max
    → bit_and (w + 2 ^ 32 * h) m ≡ bit_and h (high_word m) * 2 ^ 32 + bit_and w (low_word m)
bit_and_words w h m p q =
    let a : w + 2 ^ 32 * h ≡ h * 2 ^ 32 + w = omega arith in
    let b : m ≡ high_word m * 2 ^ 32 + low_word m = omega arith in
    ap (λ t. bit_and t m) a
    ∙ ap (λ t. bit_and (h * 2 ^ 32 + w) t) b
    ∙ bit_and_parts 32 h (high_word m) w (low_word m) p (omega arith)

-- Where a mask's word is 0, so is the value's.
pub masked_zero :
    (value m : ℕ)
    → value ≤ u64_max
    → m ≤ u64_max
    → and_not value m ≡ 0
    → (low_word m ≡ 0 → low_word value ≡ 0) × (high_word m ≡ 0 → high_word value ≡ 0)
masked_zero value m p q h =
    let parts : value ≡ low_word value + 2 ^ 32 * high_word value = omega arith in
    let split =
      ap (λ t. bit_and t m) parts
      ∙ bit_and_words (low_word value) (high_word value) m (omega arith) q in
    let lows = bit_and-le (low_word value) (low_word m) in
    let highs = bit_and-le (high_word value) (high_word m) in
    let all = bit_and-le value m in
    ((λ z. omega (arith, split, lows, highs, all)), (λ z. omega (arith, split, lows, highs, all)))

module _ (insns : List (Insn Label)) (labels : Dict Label ℤ) (packet : List ℕ) (v : ℕ)
    (fail passed : Label) (c : ArgCmp) (to : ℕ) (missed : lookup fail labels ≡ some (pos to)) where
  abbrev pub w : ℕ
  w = word packet (lo_off c)

  abbrev pub h : ℕ
  h = word packet (hi_off c)

  abbrev pub lo : ℕ
  lo = low_word c.value

  abbrev pub hi : ℕ
  hi = high_word c.value

  -- From instruction `p` the run goes by the test `t`: on to `after`, or to the fail label.
  abbrev pub Decides : ℕ → ℕ → Bool → Type 0
  Decides p after t =
      (t ≡ true → (acc : ℕ) → Returns insns labels packet after acc v)
      → (t ≡ false → (acc : ℕ) → Returns insns labels packet to acc v)
      → (acc : ℕ) → Returns insns labels packet p acc v

  pub less-Decides :
      (p : ℕ) (jop : JumpOp) (t : Bool)
      → Has insns labels packet p (
          load (hi_off c)
          ∷ jump jgt hi (some fail) none
          ∷ jump jeq hi none (some passed)
          ∷ load (lo_off c)
          ∷ jump jop lo (some fail) none
          ∷ [])
      → lookup passed labels ≡ some (pos (p + 5))
      → (ltb hi h ≡ true → t ≡ false)
      → (ltb hi h ≡ false → (h == hi) ≡ false → t ≡ true)
      → ((h == hi) ≡ true → holds jop w lo ≡ true → t ≡ false)
      → ((h == hi) ≡ true → holds jop w lo ≡ false → t ≡ true)
      → Decides p (p + 5) t
  less-Decides p jop t (a₀, (a₁, (a₂, (a₃, (a₄, _))))) there above below miss meet hit no_hit acc =
      Returns-load insns labels packet p acc (hi_off c) v a₀ (elim (Bool-cases (ltb hi h)) [
        | inl over ↦
            Returns-jump insns labels packet (p + 1) h v jgt hi _ _ true to a₁ over missed
              (no_hit (above over) h)
        | inr under ↦
            Returns-jump insns labels packet (p + 1) h v jgt hi _ _ false _ a₁ under refl
              (elim (Bool-cases (h == hi)) [
                | inr apart ↦
                    Returns-jump insns labels packet _ h v jeq hi _ _ false (p + 5) a₂ apart there
                      (hit (below under apart) h)
                | inl level ↦
                    Returns-jump insns labels packet _ h v jeq hi _ _ true _ a₂ level refl (
                      Returns-load insns labels packet _ h (lo_off c) v a₃
                        (elim (Bool-cases (holds jop w lo)) [
                          | inl over ↦
                              Returns-jump insns labels packet _ w v jop lo _ _ true to a₄ over
                                missed (no_hit (miss level over) w)
                          | inr under' ↦
                              Returns-jump insns labels packet _ w v jop lo _ _ false (p + 5) a₄
                                under' (omega arith) (hit (meet level under') w)
                        ]))
              ])
      ])

  pub greater-Decides :
      (p : ℕ) (jop : JumpOp) (t : Bool)
      → Has insns labels packet p (
          load (hi_off c)
          ∷ jump jgt hi (some passed) none
          ∷ jump jeq hi none (some fail)
          ∷ load (lo_off c)
          ∷ jump jop lo (some passed) (some fail)
          ∷ [])
      → lookup passed labels ≡ some (pos (p + 5))
      → (ltb hi h ≡ true → t ≡ true)
      → (ltb hi h ≡ false → (h == hi) ≡ false → t ≡ false)
      → ((h == hi) ≡ true → holds jop w lo ≡ true → t ≡ true)
      → ((h == hi) ≡ true → holds jop w lo ≡ false → t ≡ false)
      → Decides p (p + 5) t
  greater-Decides p jop t (a₀, (a₁, (a₂, (a₃, (a₄, _))))) there above below meet miss hit no_hit
        acc =
      Returns-load insns labels packet p acc (hi_off c) v a₀ (elim (Bool-cases (ltb hi h)) [
        | inl over ↦
            Returns-jump insns labels packet (p + 1) h v jgt hi _ _ true (p + 5) a₁ over there
              (hit (above over) h)
        | inr under ↦
            Returns-jump insns labels packet (p + 1) h v jgt hi _ _ false _ a₁ under refl
              (elim (Bool-cases (h == hi)) [
                | inr apart ↦
                    Returns-jump insns labels packet _ h v jeq hi _ _ false to a₂ apart missed
                      (no_hit (below under apart) h)
                | inl level ↦
                    Returns-jump insns labels packet _ h v jeq hi _ _ true _ a₂ level refl (
                      Returns-load insns labels packet _ h (lo_off c) v a₃
                        (elim (Bool-cases (holds jop w lo)) [
                          | inl over ↦
                              Returns-jump insns labels packet _ w v jop lo _ _ true (p + 5) a₄ over
                                there (hit (meet level over) w)
                          | inr under' ↦
                              Returns-jump insns labels packet _ w v jop lo _ _ false to a₄ under'
                                missed (no_hit (miss level under') w)
                        ]))
              ])
      ])

  pub eq-Decides :
      (p : ℕ) (t : Bool)
      → Has insns labels packet p (cond_insns c eq fail passed)
      → ((w == lo) ≡ false → t ≡ false)
      → ((h == hi) ≡ false → t ≡ false)
      → ((w == lo) ≡ true → (h == hi) ≡ true → t ≡ true)
      → Decides p (p + 4) t
  unfolding cond_insns
  eq-Decides p t (a₀, (a₁, (a₂, (a₃, _)))) low high both hit no_hit acc =
      Returns-load insns labels packet p acc (lo_off c) v a₀ (elim (Bool-cases (w == lo)) [
        | inr apart ↦
            Returns-jump insns labels packet _ w v jeq lo _ _ false to a₁ apart missed
              (no_hit (low apart) w)
        | inl same ↦ Returns-jump insns labels packet _ w v jeq lo _ _ true _ a₁ same refl (
            Returns-load insns labels packet _ w (hi_off c) v a₂ (elim (Bool-cases (h == hi)) [
              | inr apart ↦
                  Returns-jump insns labels packet _ h v jeq hi _ _ false to a₃ apart missed
                    (no_hit (high apart) h)
              | inl same' ↦
                  Returns-jump insns labels packet _ h v jeq hi _ _ true (p + 4) a₃ same'
                    (omega arith) (hit (both same same') h)
            ]))
      ])

  pub ne-Decides :
      (p : ℕ) (t : Bool)
      → Has insns labels packet p (cond_insns c ne fail passed)
      → lookup passed labels ≡ some (pos (p + 4))
      → ((w == lo) ≡ false → t ≡ true)
      → ((h == hi) ≡ false → t ≡ true)
      → ((w == lo) ≡ true → (h == hi) ≡ true → t ≡ false)
      → Decides p (p + 4) t
  unfolding cond_insns
  ne-Decides p t (a₀, (a₁, (a₂, (a₃, _)))) there low high both hit no_hit acc =
      Returns-load insns labels packet p acc (lo_off c) v a₀ (elim (Bool-cases (w == lo)) [
        | inr apart ↦
            Returns-jump insns labels packet _ w v jeq lo _ _ false (p + 4) a₁ apart there
              (hit (low apart) w)
        | inl same ↦ Returns-jump insns labels packet _ w v jeq lo _ _ true _ a₁ same refl (
            Returns-load insns labels packet _ w (hi_off c) v a₂ (elim (Bool-cases (h == hi)) [
              | inr apart ↦
                  Returns-jump insns labels packet _ h v jeq hi _ _ false (p + 4) a₃ apart
                    (omega arith) (hit (high apart) h)
              | inl same' ↦
                  Returns-jump insns labels packet _ h v jeq hi _ _ true to a₃ same' missed
                    (no_hit (both same same') h)
            ]))
      ])
