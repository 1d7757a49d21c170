-- ===== src/Filter/Compile.antt =====
-- src/seccompy/filter.py: `Filter._compile` and `_emit_cond`, from rules to labelled instructions.
use seccompy.Base.{
  ℕ, ◌+◌, ◌*◌, ◌/◌, ◌%◌, ◌^◌, none, some, List, [], ◌∷◌, ◌++◌, map, ◌==◌, if◌then◌else◌, length,
  Dict, insert,
}
use seccompy.Base.Int.{ℤ, pos}
use seccompy.Errors.{Result, ok, ◌>>=◌, ◌>>◌}
use seccompy.Bpf.{Insn, load, mask, jump, ja, ret, jeq, jgt, jgeq, check_u32}
use seccompy.Bpf.Assemble.{assemble}
use seccompy.Filter.Args.{ArgCmp, CmpOp, eq, ne, lt, le, gt, ge, masked_eq}
use seccompy.Filter.Action
use seccompy.Filter.Labels.{Label, block, next, hit, kill, label_eq}

abbrev pub off_nr : ℕ
off_nr = 0

abbrev pub off_arch : ℕ
off_arch = 4

abbrev pub off_arg0 : ℕ
off_arg0 = 16

-- `x & 0xFFFFFFFF` and `(x >> 32) & 0xFFFFFFFF`
abbrev pub low_word : ℕ → ℕ
low_word x = x % 2 ^ 32

abbrev pub high_word : ℕ → ℕ
high_word x = x / 2 ^ 32 % 2 ^ 32

abbrev pub lo_off : ArgCmp → ℕ
lo_off c = off_arg0 + 8 * c.index

abbrev pub hi_off : ArgCmp → ℕ
hi_off c = lo_off c + 4

-- `_Rule`
pub record Rule : Type 0 where
  pub action : ℕ
  pub args : List ArgCmp

-- The instructions and labels under construction.
pub record Asm : Type 0 where
  pub insns : List (Insn Label)
  pub labels : Dict Label ℤ

-- `insns.append`, or a row of them.
abbrev pub append : List (Insn Label) → Asm → Asm
append xs a = record a { insns = a.insns ++ xs }

-- `labels[l] = len(insns)`
abbrev pub mark : Label → Asm → Asm
mark l a = record a { labels = insert l (pos (length a.insns)) a.labels }

-- The body of the loop over the two words in the masked case.
unfoldable pub masked_word : ℕ → ℕ → ℕ → Label → List (Insn Label)
masked_word off m v fail =
    if m == 0 then [] else load off ∷ mask m ∷ jump jeq v none (some fail) ∷ []

-- The instructions that `_emit_cond` appends.
unfoldable pub cond_insns : ArgCmp → CmpOp → Label → Label → List (Insn Label)
unfolding masked_word
cond_insns c eq fail passed =
    load (lo_off c)
    ∷ jump jeq (low_word c.value) none (some fail)
    ∷ load (hi_off c)
    ∷ jump jeq (high_word c.value) none (some fail)
    ∷ []
cond_insns c ne fail passed =
    load (lo_off c)
    ∷ jump jeq (low_word c.value) none (some passed)
    ∷ load (hi_off c)
    ∷ jump jeq (high_word c.value) (some fail) none
    ∷ []
cond_insns c lt fail passed =
    load (hi_off c)
    ∷ jump jgt (high_word c.value) (some fail) none
    ∷ jump jeq (high_word c.value) none (some passed)
    ∷ load (lo_off c)
    ∷ jump jgeq (low_word c.value) (some fail) none
    ∷ []
cond_insns c le fail passed =
    load (hi_off c)
    ∷ jump jgt (high_word c.value) (some fail) none
    ∷ jump jeq (high_word c.value) none (some passed)
    ∷ load (lo_off c)
    ∷ jump jgt (low_word c.value) (some fail) none
    ∷ []
cond_insns c gt fail passed =
    load (hi_off c)
    ∷ jump jgt (high_word c.value) (some passed) none
    ∷ jump jeq (high_word c.value) none (some fail)
    ∷ load (lo_off c)
    ∷ jump jgt (low_word c.value) (some passed) (some fail)
    ∷ []
cond_insns c ge fail passed =
    load (hi_off c)
    ∷ jump jgt (high_word c.value) (some passed) none
    ∷ jump jeq (high_word c.value) none (some fail)
    ∷ load (lo_off c)
    ∷ jump jgeq (low_word c.value) (some passed) (some fail)
    ∷ []
cond_insns c masked_eq fail passed =
    masked_word (lo_off c) (low_word c.mask) (low_word c.value) fail
    ++ masked_word (hi_off c) (high_word c.mask) (high_word c.value) fail

-- `_emit_cond`
unfoldable pub emit_cond : ArgCmp → Label → Label → Asm → Asm
unfolding cond_insns
emit_cond c fail passed a = mark passed (append (cond_insns c c.op fail passed) a)

-- The loop over `rule.args`, from condition `j`.
unfoldable pub emit_conds : ℕ → ℕ → ℕ → List ArgCmp → Asm → Asm
unfolding emit_cond
emit_conds nr i j [] a = a
emit_conds nr i j (c ∷ cs) a = emit_conds nr i (j + 1) cs (emit_cond c (next nr i) (hit nr i j) a)

-- A rule with conditions.
unfoldable pub emit_rule : ℕ → ℕ → Rule → Asm → Asm
unfolding emit_conds
emit_rule nr i r a = mark (next nr i) (append (ret r.action ∷ []) (emit_conds nr i 0 r.args a))

-- The loop over the rules of a syscall, from rule `i`, with the default return behind them. A rule
-- with no conditions ends it.
unfoldable pub emit_rules : ℕ → ℕ → ℕ → List Rule → Asm → Asm
unfolding emit_rule
emit_rules default nr i [] a = append (ret default ∷ []) a
emit_rules default nr i (r ∷ rs) a = elim r.args [
  | [] ↦ append (ret r.action ∷ []) a
  | c ∷ cs ↦ emit_rules default nr (i + 1) rs (emit_rule nr i r a)
]

-- The loop over the syscalls.
unfoldable pub emit_blocks : ℕ → Dict ℕ (List Rule) → Asm → Asm
unfolding emit_rules
emit_blocks default [] a = a
emit_blocks default ((nr, rs) ∷ rules) a =
    emit_blocks default rules (emit_rules default nr 0 rs (mark (block nr) a))

abbrev pub dispatch : ℕ × List Rule → Insn Label
dispatch (nr, rs) = jump jeq (nr % 2 ^ 32) (some (block nr)) none

-- The instructions before the blocks.
unfoldable pub prologue : ℕ → ℕ → Dict ℕ (List Rule) → Asm
prologue arch default rules = record {
  insns =
      (load off_arch ∷ jump jeq arch none (some kill) ∷ load off_nr ∷ [])
      ++ (map dispatch rules ++ ret default ∷ []);
  labels = [];
}

-- All that `_compile` hands to the assembler.
unfoldable pub build : ℕ → ℕ → Dict ℕ (List Rule) → Asm
unfolding prologue emit_blocks
build arch default rules =
    append (ret Action.kill_process ∷ [])
      (mark kill (emit_blocks default rules (prologue arch default rules)))

-- The checks that the instructions' constructors make.
unfoldable pub check_insns : List (Insn Label) → Result (Unit {0})
check_insns [] = ok tt
check_insns (load k ∷ xs) = check_u32 (pos k) >>= λ _. check_insns xs
check_insns (mask k ∷ xs) = check_u32 (pos k) >>= λ _. check_insns xs
check_insns (jump op k jt jf ∷ xs) = check_u32 (pos k) >>= λ _. check_insns xs
check_insns (ja t ∷ xs) = check_insns xs
check_insns (ret k ∷ xs) = check_u32 (pos k) >>= λ _. check_insns xs

-- `_compile`, for a machine whose `audit_arch()` is `arch`.
unfoldable pub compile : ℕ → ℕ → Dict ℕ (List Rule) → Result (List ℕ)
unfolding build
compile arch default rules =
    let a = build arch default rules in check_insns a.insns >> assemble a.insns a.labels
