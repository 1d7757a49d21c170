-- ===== src/Bpf/Machine.antt =====
-- tests/test_bpf.py: the interpreters `run_packed`, of packed bytes, and `run_source`, of
-- instructions with labels. A loop runs on fuel; a Python exception is the outcome `raised`.
use seccompy.Base.{
  ℕ, zero, suc, ◌+◌, ◌*◌, Bool, not, Option, none, some, List, bit_and, ltb, leb, ◌==◌,
  if◌then◌else◌, get_or, Eq, Dict, lookup,
}
use seccompy.Base.Int.{ℤ, pos, next, index}
use seccompy.Bpf.{
  JumpOp, jeq, jgt, jgeq, jset, Insn, load, mask, jump, ja, ret, bpf_ld_abs_w, bpf_alu_and_k,
  bpf_ret_k, bpf_ja, bpf_jeq, bpf_jgt, bpf_jgeq, bpf_jset,
}
use seccompy.Bpf.Pack.{SockFilter, unpack_from}

-- `running` is the outcome when the fuel is spent.
pub data Outcome : Type 0 where
  returned : ℕ → Outcome
  raised running : Outcome

-- What one turn of a loop leads to.
pub data Turn (S : Type 0) : Type 0 where
  continue : S → Turn S
  halt : ℕ → Turn S
  fail : Turn S

unfoldable pub run : {S : Type 0} → (S → Turn S) → ℕ → S → Outcome
run turn zero s = running
run turn (suc fuel) s = elim (turn s) [
  | continue s' ↦ run turn fuel s'
  | halt k ↦ returned k
  | fail ↦ raised
]

-- `int.from_bytes(data[k : k + 4].ljust(4, b"\0"), "little")`
unfoldable pub word : List ℕ → ℕ → ℕ
word packet k =
    get_or packet k 0
    + get_or packet (k + 1) 0 * 256
    + get_or packet (k + 2) 0 * 65536
    + get_or packet (k + 3) 0 * 16777216

abbrev pub holds : JumpOp → ℕ → ℕ → Bool
holds jeq acc k = acc == k
holds jgt acc k = ltb k acc
holds jgeq acc k = leb k acc
holds jset acc k = not (bit_and acc k == 0)

-- A state is the program counter and the accumulator.
unfoldable pub exec_packed : List ℕ → ℕ → ℕ → SockFilter → Turn (ℕ × ℕ)
exec_packed packet pc acc r =
    if r.code == bpf_ld_abs_w
    then continue (pc + 1, word packet r.k)
    else if r.code == bpf_alu_and_k
    then continue (pc + 1, bit_and acc r.k)
    else if r.code == bpf_ja
    then continue (pc + (1 + r.k), acc)
    else if r.code == bpf_jeq
    then continue (pc + (1 + (if holds jeq acc r.k then r.jt else r.jf)), acc)
    else if r.code == bpf_jgt
    then continue (pc + (1 + (if holds jgt acc r.k then r.jt else r.jf)), acc)
    else if r.code == bpf_jgeq
    then continue (pc + (1 + (if holds jgeq acc r.k then r.jt else r.jf)), acc)
    else if r.code == bpf_jset
    then continue (pc + (1 + (if holds jset acc r.k then r.jt else r.jf)), acc)
    else if r.code == bpf_ret_k
    then halt r.k
    else fail

unfoldable pub packed_turn : List ℕ → List ℕ → ℕ × ℕ → Turn (ℕ × ℕ)
packed_turn prog packet (pc, acc) = elim (unpack_from prog (pc * 8)) [
  | none ↦ fail
  | some r ↦ exec_packed packet pc acc r
]

-- `run_packed`
unfoldable pub run_packed : ℕ → List ℕ → List ℕ → Outcome
run_packed fuel prog packet = run (packed_turn prog packet) fuel (0, 0)

module _ {L : Type 0} ⦃e : Eq L⦄ (labels : Dict L ℤ) where
  -- `labels[target] if target is not None else pc + 1`
  abbrev pub jump_to : Option L → ℤ → ℕ → Turn (ℤ × ℕ)
  jump_to none pc acc = continue (next pc, acc)
  jump_to (some t) pc acc = elim (lookup t labels) [ none ↦ fail | some j ↦ continue (j, acc) ]

  unfoldable pub exec_source : List ℕ → ℤ → ℕ → Insn L → Turn (ℤ × ℕ)
  exec_source packet pc acc (load k) = continue (next pc, word packet k)
  exec_source packet pc acc (mask k) = continue (next pc, bit_and acc k)
  exec_source packet pc acc (jump op k jt jf) = jump_to (if holds op acc k then jt else jf) pc acc
  exec_source packet pc acc (ja t) = jump_to (some t) pc acc
  exec_source packet pc acc (ret k) = halt k

  unfoldable pub source_turn : List (Insn L) → List ℕ → ℤ × ℕ → Turn (ℤ × ℕ)
  source_turn insns packet (pc, acc) = elim (index insns pc) [
    | none ↦ fail
    | some x ↦ exec_source packet pc acc x
  ]

-- `run_source`
unfoldable pub run_source :
    {L : Type 0} ⦃e : Eq L⦄ → ℕ → List (Insn L) → Dict L ℤ → List ℕ → Outcome
run_source fuel insns labels packet = run (source_turn labels insns packet) fuel (pos 0, 0)
