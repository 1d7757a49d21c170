-- ===== src/Bpf/Tests.antt =====
-- Programs of tests/test_bpf.py, and the theorems about src/seccompy/bpf.py at them.
use seccompy.Base.{
  ℕ, ◌*◌, ◌≤◌, ◌≡◌, ◌≢◌, refl, none, some, List, [], ◌∷◌, ◌++◌, arith, length, get_elem?, All, Dict,
  nat_eq, replicate,
}
use seccompy.Base.Int.{ℤ, pos, negsuc}
use seccompy.Errors.{
  ok, err, value_error, not_converged, undefined_label, label_out_of_range, backward_jump,
}
use seccompy.Bpf.{Insn, load, jump, ja, ret, jeq}
use seccompy.Bpf.Pack.{SockFilter, sock_filter, Fits, encode, pack, unpack_from}
use seccompy.Bpf.Assemble.{
  assemble, validate_labels, validate_targets, targets, resolve_sizes, resolve_rounds, sweep,
  resize, needs_expansion, offset, position_of, positions, positions_from, emit, emit_all,
}
use seccompy.Bpf.Machine.{running, run_packed, run_source}
use seccompy.Bpf.Simulation.{IsResolved}
use seccompy.Bpf.Encoding.{encode_all, unpack_from-encode_all}
use seccompy.Bpf.Sizes.{resolve_sizes-converges}
use seccompy.Bpf.Validation.{validate_labels-IsResolved}
use seccompy.Bpf.Correct.{assembled_program_matches_source, assembled_source_ends, assemble-length}

-- ld arch, jeq arch -> +0 / kill, ld nr, jeq 39 -> allow / next, ret kill, ret allow. The label
-- `kill` is 0 and `allow` is 1.
abbrev insns : List (Insn ℕ)
insns =
    load 4
    ∷ jump jeq 0xC000003E none (some 0)
    ∷ load 0
    ∷ jump jeq 39 (some 1) none
    ∷ ret 0x80000000
    ∷ ret 0x7FFF0000
    ∷ []

abbrev labels : Dict ℕ ℤ
labels = (0, pos 4) ∷ (1, pos 5) ∷ []

abbrev records : List SockFilter
records =
    sock_filter 0x20 0 0 4
    ∷ sock_filter 0x15 0 2 0xC000003E
    ∷ sock_filter 0x20 0 0 0
    ∷ sock_filter 0x15 1 0 39
    ∷ sock_filter 0x06 0 0 0x80000000
    ∷ sock_filter 0x06 0 0 0x7FFF0000
    ∷ []

abbrev prog : List ℕ
prog =
    0x20 ∷ 0 ∷ 0 ∷ 0 ∷ 4 ∷ 0 ∷ 0 ∷ 0 ∷ 0x15 ∷ 0 ∷ 0 ∷ 2 ∷ 0x3E ∷ 0 ∷ 0 ∷ 0xC0 ∷ 0x20 ∷ 0 ∷ 0 ∷ 0 ∷ 0
    ∷ 0 ∷ 0 ∷ 0 ∷ 0x15 ∷ 0 ∷ 1 ∷ 0 ∷ 39 ∷ 0 ∷ 0 ∷ 0 ∷ 0x06 ∷ 0 ∷ 0 ∷ 0 ∷ 0 ∷ 0 ∷ 0 ∷ 0x80 ∷ 0x06 ∷ 0
    ∷ 0 ∷ 0 ∷ 0 ∷ 0 ∷ 0xFF ∷ 0x7F ∷ []

-- `getpid` on x86-64.
abbrev packet : List ℕ
packet = 39 ∷ 0 ∷ 0 ∷ 0 ∷ 0x3E ∷ 0 ∷ 0 ∷ 0xC0 ∷ []

conditional_jump_offsets : assemble insns labels ≡ ok prog
unfolding assemble validate_labels validate_targets targets resolve_sizes resolve_rounds sweep
    resize needs_expansion offset position_of positions positions_from emit emit_all pack encode
conditional_jump_offsets = refl

records-prog : encode_all records ≡ prog
unfolding encode_all encode
records-prog = refl

backward_jump_rejected :
    assemble {L = ℕ} (load 0 ∷ ja 0 ∷ ret 0x7FFF0000 ∷ []) ((0, pos 0) ∷ [])
    ≡ err (value_error backward_jump)
unfolding assemble validate_labels validate_targets targets resolve_sizes resolve_rounds sweep
    resize offset position_of positions positions_from emit emit_all pack encode
backward_jump_rejected = refl

undefined_label_rejected :
    assemble {L = ℕ} (jump jeq 1 (some 0) none ∷ ret 0x7FFF0000 ∷ []) []
    ≡ err (value_error undefined_label)
unfolding assemble validate_labels validate_targets targets
undefined_label_rejected = refl

negative_label_rejected :
    assemble {L = ℕ} (load 0 ∷ jump jeq 1 none (some 0) ∷ ret 0x7FFF0000 ∷ []) ((0, negsuc 0) ∷ [])
    ≡ err (value_error label_out_of_range)
unfolding assemble validate_labels validate_targets targets
negative_label_rejected = refl

-- 300 loads push the target of the jump out of reach: it becomes two instructions.
abbrev far : List (Insn ℕ)
far =
    load 0
    ∷ jump jeq 42 (some 0) none
    ∷ (replicate 300 (load 0) ++ ret 0x80000000 ∷ ret 0x7FFF0000 ∷ [])

far_jump_expands : resolve_sizes ((0, pos 303) ∷ []) far ≡ ok (1 ∷ 2 ∷ replicate 302 1)
unfolding resolve_sizes resolve_rounds sweep resize needs_expansion offset position_of positions
    positions_from
far_jump_expands = refl

assembled_program_matches_source_example :
    run_packed 7 prog packet ≡ run_source 7 insns labels packet
assembled_program_matches_source_example =
    assembled_program_matches_source insns labels prog packet 7 7 conditional_jump_offsets
      (omega arith) (omega arith)

assembled_source_ends_example : run_source 7 insns labels packet ≢ running
assembled_source_ends_example =
    assembled_source_ends insns labels prog packet 7 conditional_jump_offsets (omega arith)

assemble-length_example :
    (n : ℕ) × (length prog ≡ n * 8) × (length insns ≤ n) × (n ≤ 3 * length insns)
assemble-length_example = assemble-length insns labels prog conditional_jump_offsets

resolve_sizes-converges_example : resolve_sizes labels insns ≢ err (value_error not_converged)
resolve_sizes-converges_example = resolve_sizes-converges labels insns

validated : validate_labels labels 6 insns ≡ ok tt
unfolding validate_labels validate_targets targets
validated = refl

validate_labels-IsResolved_example : IsResolved labels 6 (jump jeq 39 (some 1) none)
validate_labels-IsResolved_example =
    validate_labels-IsResolved labels 6 insns validated 3 (jump jeq 39 (some 1) none) refl

records-Fits : All Fits records
records-Fits = ground arith

unpack_from-encode_all_example : unpack_from (encode_all records) (3 * 8) ≡ get_elem? records 3
unpack_from-encode_all_example = unpack_from-encode_all records 3 records-Fits
