-- ===== src/Bpf/Assemble.antt =====
-- src/seccompy/bpf.py: `assemble` and its helpers, from labels to packed instructions.
use seccompy.Base.{
  ℕ, zero, suc, ◌+◌, ◌-◌, Bool, true, false, not, ◌||◌, Option, none, some, List, [], ◌∷◌, ◌++◌,
  ltb, ◌==◌, if◌then◌else◌, length, get_elem?, replicate, Eq, Dict, lookup,
}
use seccompy.Base.Int.{ℤ, in_range, index}
use seccompy.Errors.{
  Result, ok, err, ◌>>=◌, ◌>>◌, raise_if, or_raise, value_error, key_error, index_error,
  undefined_label, label_out_of_range, not_converged, backward_jump, ja_out_of_range,
  jump_out_of_range, ja_without_target,
}
use seccompy.Bpf.{
  JumpOp, opcode, Insn, load, mask, jump, ja, ret, bpf_ld_abs_w, bpf_alu_and_k, bpf_ret_k, bpf_ja,
  u32_max,
}
use seccompy.Bpf.Pack.{sock_filter, pack}

abbrev pub max_cond_jump : ℕ
max_cond_jump = 255

-- `_positions`, from the position of the first instruction.
unfoldable pub positions_from : ℕ → List ℕ → List ℕ
positions_from p [] = p ∷ []
positions_from p (s ∷ ss) = p ∷ positions_from (p + s) ss

unfoldable pub positions : List ℕ → List ℕ
unfolding positions_from
positions sizes = positions_from 0 sizes

-- `off is not None and off > _MAX_COND_JUMP`
abbrev pub is_far : Option ℕ → Bool
is_far none = false
is_far (some off) = ltb max_cond_jump off

-- `off or 0`
abbrev pub or_zero : Option ℕ → ℕ
or_zero none = 0
or_zero (some off) = off

module _ {L : Type 0} where
  abbrev pub option_list : Option L → List L
  option_list none = []
  option_list (some t) = t ∷ []

  -- `_targets`
  unfoldable pub targets : Insn L → List L
  targets (jump op k jt jf) = option_list jt ++ option_list jf
  targets (ja t) = t ∷ []
  targets _ = []

  -- `_expanded_size`
  abbrev pub expanded_size : Option L → Option L → ℕ
  expanded_size none jf = 2
  expanded_size (some t) none = 2
  expanded_size (some t) (some f) = 3

module _ {L : Type 0} ⦃e : Eq L⦄ (labels : Dict L ℤ) where
  -- The inner loop of `_validate_labels`; `n` is the number of instructions.
  unfoldable pub validate_targets : ℕ → List L → Result (Unit {0})
  validate_targets n [] = ok tt
  validate_targets n (t ∷ ts) = do
    idx ← or_raise (lookup t labels) (value_error undefined_label)
    raise_if (not (in_range idx n)) (value_error label_out_of_range)
    validate_targets n ts

  -- `_validate_labels`
  unfoldable pub validate_labels : ℕ → List (Insn L) → Result (Unit {0})
  unfolding validate_targets targets
  validate_labels n [] = ok tt
  validate_labels n (x ∷ xs) = do validate_targets n (targets x); validate_labels n xs

  -- `pos[labels[target]]`
  unfoldable pub position_of : L → List ℕ → Result ℕ
  position_of t ps = do
    idx ← or_raise (lookup t labels) key_error
    or_raise (index ps idx) index_error

  -- `_offset`
  unfoldable pub offset : Option L → List ℕ → ℕ → Result (Option ℕ)
  offset none ps i = ok none
  offset (some t) ps i = do
    target ← position_of t ps
    here ← or_raise (get_elem? ps i) index_error
    raise_if (ltb target (here + 1)) (value_error backward_jump)
    ok (some (target - here - 1))

  -- `_needs_expansion`, its loop over the two targets written out.
  unfoldable pub needs_expansion : Option L → Option L → List ℕ → ℕ → Result Bool
  needs_expansion jt jf ps i = do
    off ← offset jt ps i
    if is_far off then ok true else (offset jf ps i >>= λ off'. ok (is_far off'))

  -- One turn of the inner loop of `_resolve_sizes`: the new size and whether it changed.
  unfoldable pub resize : List ℕ → ℕ → Insn L → ℕ → Result (ℕ × Bool)
  resize ps i (jump op k jt jf) s =
      if ltb 1 s
      then ok (s, false)
      else (needs_expansion jt jf ps i >>= λ far.
          ok (if far then (expanded_size jt jf, true) else (s, false)))
  resize ps i _ s = ok (s, false)

  -- The inner loop of `_resolve_sizes`, from index `i`.
  unfoldable pub sweep : List ℕ → ℕ → List (Insn L) → List ℕ → Result (List ℕ × Bool)
  sweep ps i [] ss = ok (ss, false)
  sweep ps i (x ∷ xs) [] = err index_error
  sweep ps i (x ∷ xs) (s ∷ ss) = do
    (s', changed) ← resize ps i x s
    (ss', changed') ← sweep ps (i + 1) xs ss
    ok (s' ∷ ss', changed || changed')

  -- The outer loop of `_resolve_sizes`, by the rounds left.
  unfoldable pub resolve_rounds : ℕ → List (Insn L) → List ℕ → Result (List ℕ)
  resolve_rounds zero insns sizes = err (value_error not_converged)
  resolve_rounds (suc rounds) insns sizes = sweep (positions sizes) 0 insns sizes >>= λ r.
      elim r.1 [ true ↦ resolve_rounds rounds insns r.0 | false ↦ ok r.0 ]

  -- `_resolve_sizes`
  unfoldable pub resolve_sizes : List (Insn L) → Result (List ℕ)
  resolve_sizes insns = resolve_rounds (length insns + 1) insns (replicate (length insns) 1)

  -- `_ja_bytes`
  unfoldable pub ja_bytes : Option L → List ℕ → ℕ → Result (List ℕ)
  ja_bytes none ps pc = err (value_error ja_without_target)
  ja_bytes (some t) ps pc = do
    target ← position_of t ps
    raise_if (ltb target (pc + 1) || ltb u32_max (target - pc - 1)) (value_error ja_out_of_range)
    pack (sock_filter bpf_ja 0 0 (target - pc - 1))

  -- `_emit_expanded`
  unfoldable pub emit_expanded : JumpOp → ℕ → Option L → Option L → List ℕ → ℕ → Result (List ℕ)
  emit_expanded op k none jf ps i = do
    hop ← pack (sock_filter (opcode op) 1 0 k)
    here ← or_raise (get_elem? ps i) index_error
    to_jf ← ja_bytes jf ps (here + 1)
    ok (hop ++ to_jf)
  emit_expanded op k (some t) none ps i = do
    hop ← pack (sock_filter (opcode op) 0 1 k)
    here ← or_raise (get_elem? ps i) index_error
    to_jt ← ja_bytes (some t) ps (here + 1)
    ok (hop ++ to_jt)
  emit_expanded op k (some t) (some f) ps i = do
    hop ← pack (sock_filter (opcode op) 0 1 k)
    here ← or_raise (get_elem? ps i) index_error
    to_jt ← ja_bytes (some t) ps (here + 1)
    to_jf ← ja_bytes (some f) ps (here + 2)
    ok (hop ++ (to_jt ++ to_jf))

  -- `_emit`
  unfoldable pub emit : Insn L → List ℕ → ℕ → ℕ → Result (List ℕ)
  emit (load k) ps i s = pack (sock_filter bpf_ld_abs_w 0 0 k)
  emit (mask k) ps i s = pack (sock_filter bpf_alu_and_k 0 0 k)
  emit (ja t) ps i s = do
    off ← offset (some t) ps i
    raise_if (ltb u32_max (or_zero off)) (value_error ja_out_of_range)
    pack (sock_filter bpf_ja 0 0 (or_zero off))
  emit (ret k) ps i s = pack (sock_filter bpf_ret_k 0 0 k)
  emit (jump op k jt jf) ps i s = do
    off ← offset jt ps i
    off' ← offset jf ps i
    let short =
        raise_if (is_far off || is_far off') (value_error jump_out_of_range)
        >> pack (sock_filter (opcode op) (or_zero off) (or_zero off') k)
    if s == 1 then short else emit_expanded op k jt jf ps i

  -- The last loop of `assemble`, from index `i`.
  unfoldable pub emit_all : List ℕ → ℕ → List (Insn L) → List ℕ → Result (List ℕ)
  emit_all ps i [] ss = ok []
  emit_all ps i (x ∷ xs) [] = err index_error
  emit_all ps i (x ∷ xs) (s ∷ ss) = do
    bytes ← emit x ps i s
    rest ← emit_all ps (i + 1) xs ss
    ok (bytes ++ rest)

-- `assemble`
unfoldable pub assemble : {L : Type 0} ⦃e : Eq L⦄ → List (Insn L) → Dict L ℤ → Result (List ℕ)
assemble insns labels = do
  validate_labels labels (length insns) insns
  sizes ← resolve_sizes labels insns
  emit_all labels (positions sizes) 0 insns sizes
