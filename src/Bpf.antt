-- ===== src/Bpf.antt =====
-- src/seccompy/bpf.py: the instruction model, with the checks that the constructors make.
pub mod Pack
pub mod Assemble
pub mod Machine
pub mod Encoding
pub mod Sizes
pub mod Emission
pub mod Layout
pub mod Simulation
pub mod Agreement
pub mod Termination
pub mod Validation
pub mod Correct
mod Tests
use seccompy.Base.{ℕ, ◌≤◌, Bool, true, false, Option, none, some, ◌==◌, leb, if◌then◌else◌}
use seccompy.Base.Int.{ℤ, pos, negsuc, in_range}
use seccompy.Errors.{Result, ok, err, ◌>>=◌, value_error, not_u32, not_jump_opcode}

abbrev pub bpf_ld_abs_w : ℕ
bpf_ld_abs_w = 0x20

abbrev pub bpf_alu_and_k : ℕ
bpf_alu_and_k = 0x54

abbrev pub bpf_ret_k : ℕ
bpf_ret_k = 0x06

abbrev pub bpf_ja : ℕ
bpf_ja = 0x05

abbrev pub bpf_jeq : ℕ
bpf_jeq = 0x15

abbrev pub bpf_jgt : ℕ
bpf_jgt = 0x25

abbrev pub bpf_jgeq : ℕ
bpf_jgeq = 0x35

abbrev pub bpf_jset : ℕ
bpf_jset = 0x45

abbrev pub u32_max : ℕ
u32_max = 0xFFFFFFFF

-- The members of `_JUMP_OPS`, and their numbers.
pub data JumpOp : Type 0 where
  jeq jgt jgeq jset : JumpOp

abbrev pub opcode : JumpOp → ℕ
opcode jeq = bpf_jeq
opcode jgt = bpf_jgt
opcode jgeq = bpf_jgeq
opcode jset = bpf_jset

-- An instruction; a label is of any type `L`. The subclasses of `Insn` are the constructors.
pub data Insn (L : Type 0) : Type 0 where
  load : ℕ → Insn L
  mask : ℕ → Insn L
  jump : JumpOp → ℕ → Option L → Option L → Insn L
  ja : L → Insn L
  ret : ℕ → Insn L

-- `_check_u32`: the value, if it fits.
unfoldable pub check_u32 : ℤ → Result ℕ
check_u32 (pos n) = if leb n u32_max then ok n else err (value_error not_u32)
check_u32 (negsuc n) = err (value_error not_u32)

-- The membership test `op in _JUMP_OPS`, which finds the operation.
unfoldable pub jump_op? : ℕ → Option JumpOp
jump_op? op =
    if op == bpf_jeq
    then some jeq
    else if op == bpf_jgt
    then some jgt
    else if op == bpf_jgeq
    then some jgeq
    else if op == bpf_jset
    then some jset
    else none

-- The constructors `Load`, `And`, `Jump` and `Ret` with their `__post_init__`.
module _ {L : Type 0} where
  unfoldable pub new_load : ℤ → Result (Insn L)
  new_load k = do n ← check_u32 k; ok (load n)

  unfoldable pub new_and : ℤ → Result (Insn L)
  new_and k = do n ← check_u32 k; ok (mask n)

  unfoldable pub new_jump : ℕ → ℤ → Option L → Option L → Result (Insn L)
  unfolding jump_op?
  new_jump op k jt jf = elim (jump_op? op) [
    | none ↦ err (value_error not_jump_opcode)
    | some o ↦ check_u32 k >>= λ n. ok (jump o n jt jf)
  ]

  unfoldable pub new_ret : ℤ → Result (Insn L)
  new_ret k = do n ← check_u32 k; ok (ret n)

  -- What `__post_init__` makes sure of.
  abbrev pub IsInsn : Insn L → Type 0
  IsInsn (load k) = k ≤ u32_max
  IsInsn (mask k) = k ≤ u32_max
  IsInsn (jump op k jt jf) = k ≤ u32_max
  IsInsn (ja t) = Unit
  IsInsn (ret k) = k ≤ u32_max
