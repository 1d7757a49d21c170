-- ===== src/Bpf/Layout.antt =====
-- Where the instructions of src/seccompy/bpf.py's `assemble` stand in the packed program.
use mathlib.Core.List.{append_assoc}
use native.Mathlib.Nat.{add-zero}
use seccompy.Base.{
  ℕ, zero, suc, ◌+◌, ◌≤◌, ◌<◌, ◌≡◌, refl, sym, ap, ap₂, ◌∙◌, subst, Option, some, List, [], ◌∷◌,
  ◌++◌, arith, length, get_elem?, All, All-append, length-append, get_elem?-append_left,
  get_elem?-append_right, Eq, Dict,
}
use seccompy.Base.Int.{ℤ}
use seccompy.Errors.{ok, ok-injective, >>=-eq-ok}
use seccompy.Bpf.{Insn}
use seccompy.Bpf.Pack.{SockFilter, Fits}
use seccompy.Bpf.Assemble.{positions_from, emit, emit_all}
use seccompy.Bpf.Encoding.{encode_all, encode_all-append, encode_all-nil}
use seccompy.Bpf.Sizes.{AllSized}
use seccompy.Bpf.Emission.{Stands, emit-Emits}

-- The sum of the sizes.
unfoldable pub total : List ℕ → ℕ
total [] = 0
total (s ∷ ss) = s + total ss

pub positions_from-zero : (p : ℕ) (ss : List ℕ) → get_elem? (positions_from p ss) 0 ≡ some p
unfolding positions_from
positions_from-zero p [] = refl
positions_from-zero p (s ∷ ss) = refl

pub length-positions_from : (p : ℕ) (ss : List ℕ) → length (positions_from p ss) ≡ length ss + 1
unfolding positions_from
length-positions_from p [] = refl
length-positions_from p (s ∷ ss) = omega (arith, length-positions_from (p + s) ss)

-- The last position is behind the last instruction.
pub positions_from-length :
    (p : ℕ) (ss : List ℕ) → get_elem? (positions_from p ss) (length ss) ≡ some (p + total ss)
unfolding positions_from total
positions_from-length p [] = ground arith
positions_from-length p (s ∷ ss) = ground (arith, positions_from-length (p + s) ss)

positions_from-suc :
    (p s : ℕ) (ss : List ℕ) (j : ℕ)
    → get_elem? (positions_from p (s ∷ ss)) (suc j) ≡ get_elem? (positions_from (p + s) ss) j
unfolding positions_from
positions_from-suc p s ss j = refl

positions_from-one :
    (p s : ℕ) (ss : List ℕ) → get_elem? (positions_from p (s ∷ ss)) 1 ≡ some (p + s)
unfolding positions_from
positions_from-one p s [] = refl
positions_from-one p s (t ∷ ss) = refl

shift_index :
    {A : Type 0} (ps : List A) {o : Option A} (i j : ℕ)
    → get_elem? ps (i + suc j) ≡ o
    → get_elem? ps (i + 1 + j) ≡ o
shift_index ps i j h = let e : i + 1 + j ≡ i + suc j = omega arith in rw e h

positions_from-ge :
    (p : ℕ) (ss : List ℕ) (k : ℕ) {b : ℕ} → get_elem? (positions_from p ss) k ≡ some b → p ≤ b
unfolding positions_from
positions_from-ge p [] zero h = ground arith
positions_from-ge p [] (suc k) h = absurd (ground arith)
positions_from-ge p (s ∷ ss) zero h = ground arith
positions_from-ge p (s ∷ ss) (suc k) h = omega (arith, positions_from-ge (p + s) ss k h)

-- A later instruction has no earlier position.
pub positions_from_mono :
    (p : ℕ) (ss : List ℕ) (j k : ℕ) {a b : ℕ}
    → j ≤ k
    → get_elem? (positions_from p ss) j ≡ some a
    → get_elem? (positions_from p ss) k ≡ some b
    → a ≤ b
unfolding positions_from
positions_from_mono p [] zero k le h h' = ground (arith, positions_from-ge p [] k h')
positions_from_mono p [] (suc j) k le h h' = absurd (ground arith)
positions_from_mono p (s ∷ ss) zero k le h h' = ground (arith, positions_from-ge p (s ∷ ss) k h')
positions_from_mono p (s ∷ ss) (suc j) zero le h h' = absurd (omega arith)
positions_from_mono p (s ∷ ss) (suc j) (suc k) le h h' =
    positions_from_mono (p + s) ss j k (omega arith) h h'

module _ {L : Type 0} ⦃e : Eq L⦄ (labels : Dict L ℤ) (ps : List ℕ) where
  -- The program `prog` has, at the position of instruction `i`, the records that stand for `x`.
  abbrev pub Located : List SockFilter → Insn L → ℕ → Type 0
  Located prog x i =
      (here : ℕ) × (rs : List SockFilter) × (get_elem? ps i ≡ some here)
      × (get_elem? ps (i + 1) ≡ some (here + length rs))
      × Stands labels ps here x rs
      × ((d : ℕ) → d < length rs → get_elem? prog (here + d) ≡ get_elem? rs d)

  abbrev Lays : ℕ → ℕ → List (Insn L) → List ℕ → List ℕ → Type 0
  Lays i p xs ss bytes =
      (rs : List SockFilter) × (bytes ≡ encode_all rs)
      × All Fits rs
      × (length rs ≡ total ss)
      × ((pre : List SockFilter)
          → length pre ≡ p
          → (j : ℕ) (x : Insn L) → get_elem? xs j ≡ some x
          → Located (pre ++ rs) x (i + j))

  -- The instructions from index `i` on, whose first position is `p`.
  pub emit_all_lem :
      (i p : ℕ) (xs : List (Insn L)) (ss bytes : List ℕ)
      → ((j : ℕ) → get_elem? ps (i + j) ≡ get_elem? (positions_from p ss) j)
      → AllSized xs ss
      → emit_all labels ps i xs ss ≡ ok bytes
      → Lays i p xs ss bytes
  unfolding emit_all total
  emit_all_lem i p [] [] bytes at v h =
      ([], sym (ok-injective h) ∙ sym encode_all-nil, tt, refl, λ pre q j x g. absurd (cc))
  emit_all_lem i p [] (s ∷ ss) bytes at v h = elim v [ ]
  emit_all_lem i p (x ∷ xs) [] bytes at v h = elim v [ ]
  emit_all_lem i p (x ∷ xs) (s ∷ ss) bytes at v h =
      let (b, q, h₁) = >>=-eq-ok (emit labels x ps i s) _ h in
      let (b', q', h₂) = >>=-eq-ok (emit_all labels ps (i + 1) xs ss) _ h₁ in
      let here : get_elem? ps i ≡ some p = rw add-zero at (at 0 ∙ positions_from-zero p (s ∷ ss)) in
      let (rs, same, fit, count, stands) = emit-Emits labels ps x i p s b here v.0 q in
      let after : get_elem? ps (i + 1) ≡ some (p + length rs) =
        at 1 ∙ positions_from-one p s ss ∙ ap (λ (t : ℕ). some (p + t)) (sym count) in
      let (rs', same', fit', count', located) =
        emit_all_lem (i + 1) (p + s) xs ss b'
          (λ j. shift_index ps i j (at (suc j) ∙ positions_from-suc p s ss j)) v.1 q' in
      (
        rs ++ rs',
        sym (ok-injective h₂) ∙ ap₂ ◌++◌ same same' ∙ sym (encode_all-append rs rs'),
        All-append Fits rs rs' fit fit',
        omega (arith, length-append rs rs'),
        λ pre front j y g. located_step rs rs' pre front here after stands count located j y g,
      )
    where
      located_step :
          (rs rs' pre : List SockFilter)
          → length pre ≡ p
          → get_elem? ps i ≡ some p
          → get_elem? ps (i + 1) ≡ some (p + length rs)
          → Stands labels ps p x rs
          → length rs ≡ s
          → ((pre' : List SockFilter)
              → length pre' ≡ p + s
              → (j : ℕ) (y : Insn L) → get_elem? xs j ≡ some y
              → Located (pre' ++ rs') y (i + 1 + j))
          → (j : ℕ) (y : Insn L) → get_elem? (x ∷ xs) j ≡ some y
          → Located (pre ++ (rs ++ rs')) y (i + j)
      located_step rs rs' pre front here after stands count located zero y g =
          let same : x ≡ y = cc in
          rw add-zero (
            p,
            rs,
            here,
            after,
            subst (λ z. Stands labels ps p z rs) same stands,
            λ d lt.
                get_elem?-append_right pre (rs ++ rs') d (p + d) (omega arith)
                ∙ get_elem?-append_left rs rs' d lt,
          )
      located_step rs rs' pre front here after stands count located (suc j) y g =
          let e : i + suc j ≡ i + 1 + j = omega arith in
          rw e (
            subst (λ z. Located z y (i + 1 + j)) (append_assoc pre rs rs')
              (located (pre ++ rs) (omega (arith, length-append pre rs)) j y g))
