-- ===== src/Bpf/Correct.antt =====
-- `assemble` of src/seccompy/bpf.py against the interpreters of tests/test_bpf.py.
use seccompy.Base.{
  ℕ, ◌+◌, ◌*◌, ◌≤◌, ◌<◌, ◌≡◌, ◌≢◌, refl, sym, ap, ◌∙◌, subst, inl, inr, none, some, List, [], ◌∷◌,
  arith, length, get_elem?, All, Eq, Dict, fun_ext,
}
use seccompy.Base.Int.{ℤ}
use seccompy.Errors.{ok, >>=-eq-ok}
use seccompy.Bpf.{Insn, load, mask, jump, ja, ret}
use seccompy.Bpf.Pack.{SockFilter, Fits}
use seccompy.Bpf.Assemble.{positions, positions_from, resolve_sizes, validate_labels, assemble}
use seccompy.Bpf.Machine.{running, run, run_packed, run_source, packed_turn}
use seccompy.Bpf.Encoding.{encode_all, length-encode_all, unpack_from-encode_all}
use seccompy.Bpf.Sizes.{SizeOf, AllSized, resolve_sizes-eq-ok}
use seccompy.Bpf.Layout.{
  total, length-positions_from, positions_from-zero, positions_from-length, positions_from_mono,
  emit_all_lem, Located,
}
use seccompy.Bpf.Simulation.{IsLayout, record_turn}
use seccompy.Bpf.Agreement.{agrees}
use seccompy.Bpf.Termination.{ends}
use seccompy.Bpf.Validation.{validate_labels-IsResolved}

packed_turn-encode_all :
    (rs : List SockFilter) (packet : List ℕ)
    → All Fits rs
    → packed_turn (encode_all rs) packet ≡ record_turn rs packet
unfolding packed_turn record_turn
packed_turn-encode_all rs packet fit =
    fun_ext λ s. rw (unpack_from-encode_all rs s.0 fit, packed_turn, record_turn)

module _ {L : Type 0} where
  length-AllSized : (xs : List (Insn L)) (ss : List ℕ) → AllSized xs ss → length xs ≡ length ss
  length-AllSized [] [] v = refl
  length-AllSized [] (s ∷ ss) v = elim v [ ]
  length-AllSized (x ∷ xs) [] v = elim v [ ]
  length-AllSized (x ∷ xs) (s ∷ ss) v = omega (arith, length-AllSized xs ss v.1)

  size-bounds : (x : Insn L) (s : ℕ) → SizeOf x s → (1 ≤ s) × (s ≤ 3)
  size-bounds (jump op k jt jf) s (inl one) = omega arith
  size-bounds (jump op k none jf) s (inr e) = omega arith
  size-bounds (jump op k (some t) none) s (inr e) = omega arith
  size-bounds (jump op k (some t) (some f)) s (inr e) = omega arith
  size-bounds (load k) s v = omega arith
  size-bounds (mask k) s v = omega arith
  size-bounds (ja t) s v = omega arith
  size-bounds (ret k) s v = omega arith

  total-bounds :
      (xs : List (Insn L)) (ss : List ℕ)
      → AllSized xs ss
      → (length xs ≤ total ss) × (total ss ≤ 3 * length xs)
  unfolding total
  total-bounds [] [] v = omega arith
  total-bounds [] (s ∷ ss) v = elim v [ ]
  total-bounds (x ∷ xs) [] v = elim v [ ]
  total-bounds (x ∷ xs) (s ∷ ss) v = omega (arith, size-bounds x s v.0, total-bounds xs ss v.1)

positions-zero : (sizes : List ℕ) → get_elem? (positions sizes) 0 ≡ some 0
unfolding positions
positions-zero sizes = positions_from-zero 0 sizes

module _ {L : Type 0} ⦃e : Eq L⦄ (insns : List (Insn L)) (labels : Dict L ℤ) (prog : List ℕ) where
  -- An assembled program is a layout of its instructions, packed.
  pub assemble-IsLayout :
      (packet : List ℕ)
      → assemble insns labels ≡ ok prog
      → (sizes : List ℕ) × (rs : List SockFilter) × (prog ≡ encode_all rs)
        × All Fits rs
        × AllSized insns sizes
        × (length rs ≡ total sizes)
        × IsLayout labels insns (positions sizes) packet rs
  unfolding assemble positions
  assemble-IsLayout packet h =
      let (_, valid, h₁) = >>=-eq-ok (validate_labels labels (length insns) insns) _ h in
      let (sizes, q, h₂) = >>=-eq-ok (resolve_sizes labels insns) _ h₁ in
      let sized = (resolve_sizes-eq-ok labels insns sizes q).0 in
      let n : length insns ≡ length sizes = length-AllSized insns sizes sized in
      let (rs, same, fit, count, located) =
        emit_all_lem labels (positions_from 0 sizes) 0 0 insns sizes prog
          (λ j. ap (get_elem? (positions_from 0 sizes)) (omega arith)) sized h₂ in
      (
        sizes,
        rs,
        same,
        fit,
        sized,
        count,
        record {
          resolved = validate_labels-IsResolved labels (length insns) insns valid;
          located = λ i x g.
              subst (Located labels (positions_from 0 sizes) rs x) (omega arith)
                (located [] refl i x g);
          last =
              ap (get_elem? (positions_from 0 sizes)) n
              ∙ positions_from-length 0 sizes
              ∙ ap (λ (t : ℕ). some t) (omega arith);
          mono = λ j k a b. positions_from_mono 0 sizes j k;
          bound = length-positions_from 0 sizes ∙ ap (λ (t : ℕ). t + 1) (sym n);
        },
      )

  -- Bytes that `assemble` returns run like the instructions they were made from, to the same
  -- outcome, where each run has fuel for more turns than its program has instructions.
  pub assembled_program_matches_source :
      (packet : List ℕ) (f g : ℕ)
      → assemble insns labels ≡ ok prog
      → length insns < f
      → length prog < g * 8
      → run_packed g prog packet ≡ run_source f insns labels packet
  unfolding run_packed run_source
  assembled_program_matches_source packet f g h n m =
      let (sizes, rs, same, fit, sized, count, layout) = assemble-IsLayout packet h in
      let q : run_packed g prog packet ≡ run (record_turn rs packet) g (0, 0) =
        ap (λ t. run (packed_turn t packet) g (0, 0)) same
        ∙ ap (λ t. run t g (0, 0)) (packed_turn-encode_all rs packet fit) in
      q
      ∙ sym (
          agrees labels insns (positions sizes) packet rs layout f g 0 0 0 (positions-zero sizes)
            (omega arith) (omega (arith, ap length same, length-encode_all rs)))

  -- Instructions that `assemble` accepts come to an end, by a result or by an exception, when they are
  -- run with their labels and with fuel for more turns than there are instructions.
  pub assembled_source_ends :
      (packet : List ℕ) (f : ℕ)
      → assemble insns labels ≡ ok prog
      → length insns < f
      → run_source f insns labels packet ≢ running
  unfolding run_source
  assembled_source_ends packet f h n =
      let (sizes, rs, same, fit, sized, count, layout) = assemble-IsLayout packet h in
      ends labels insns (positions sizes) packet rs layout f 0 0 0 (positions-zero sizes)
        (omega arith)

  -- So do the bytes, with fuel for more turns than the program has records.
  pub assembled_program_ends :
      (packet : List ℕ) (g : ℕ)
      → assemble insns labels ≡ ok prog
      → length prog < g * 8
      → run_packed g prog packet ≢ running
  assembled_program_ends packet g h m stuck =
      assembled_source_ends packet (length insns + 1) h (omega arith) (
        sym (assembled_program_matches_source packet (length insns + 1) g h (omega arith) m)
        ∙ stuck)

  -- Bytes that `assemble` returns are n records of 8 bytes, with n at least the number of
  -- instructions and at most three times that.
  pub assemble-length :
      assemble insns labels ≡ ok prog
      → (n : ℕ) × (length prog ≡ n * 8) × (length insns ≤ n) × (n ≤ 3 * length insns)
  assemble-length h =
      let (sizes, rs, same, fit, sized, count, layout) = assemble-IsLayout [] h in
      (
        length rs,
        ap length same ∙ length-encode_all rs,
        omega (arith, total-bounds insns sizes sized),
        omega (arith, total-bounds insns sizes sized),
      )
