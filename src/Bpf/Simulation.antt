-- ===== src/Bpf/Simulation.antt =====
-- The two interpreters of tests/test_bpf.py in step: a source instruction, and the one or two
-- records that carry it out.
use seccompy.Base.{
  ℕ, zero, suc, ◌+◌, ◌≤◌, ◌<◌, ◌≡◌, refl, ap, ◌∙◌, inl, inr, Option, none, some, List, arith,
  length, get_elem?, lt-length_of_get_elem?, Eq, Dict, lookup, if◌then◌else◌, dec_lt,
}
use seccompy.Base.Int.{ℤ, pos}
use seccompy.Bpf.{JumpOp, jeq, jgt, jgeq, jset, opcode, Insn, jump, ja, bpf_ja}
use seccompy.Bpf.Pack.{SockFilter, sock_filter}
use seccompy.Bpf.Assemble.{position_of}
use seccompy.Bpf.Machine.{
  Outcome, returned, raised, Turn, continue, halt, fail, run, holds, exec_packed, exec_source,
  jump_to, source_turn,
}
use seccompy.Bpf.Emission.{Leads, Arrives}
use seccompy.Bpf.Layout.{Located}

-- `run_packed`'s loop body over records in place of bytes.
unfoldable pub record_turn : List SockFilter → List ℕ → ℕ × ℕ → Turn (ℕ × ℕ)
record_turn prog packet (pc, acc) = elim (get_elem? prog pc) [
  | none ↦ fail
  | some r ↦ exec_packed packet pc acc r
]

module _ {S : Type 0} (turn : S → Turn S) (fuel : ℕ) (s : S) where
  pub run-continue : {s' : S} → turn s ≡ continue s' → run turn (suc fuel) s ≡ run turn fuel s'
  unfolding run
  run-continue h = rw (h, run)

  pub run-halt : {k : ℕ} → turn s ≡ halt k → run turn (suc fuel) s ≡ returned k
  unfolding run
  run-halt h = rw (h, run)

  pub run-fail : turn s ≡ fail → run turn (suc fuel) s ≡ raised
  unfolding run
  run-fail h = rw (h, run)

module _ (prog : List SockFilter) (packet : List ℕ) (pc acc : ℕ) where
  pub record_turn-some :
      {r : SockFilter}
      → get_elem? prog pc ≡ some r
      → record_turn prog packet (pc, acc) ≡ exec_packed packet pc acc r
  unfolding record_turn
  record_turn-some h = rw (h, record_turn)

  pub record_turn-none : get_elem? prog pc ≡ none → record_turn prog packet (pc, acc) ≡ fail
  unfolding record_turn
  record_turn-none h = rw (h, record_turn)

pub exec_packed-jump :
    (packet : List ℕ) (pc acc : ℕ) (op : JumpOp) (a b k : ℕ)
    → exec_packed packet pc acc (sock_filter (opcode op) a b k)
      ≡ continue (pc + (1 + (if holds op acc k then a else b)), acc)
unfolding exec_packed
exec_packed-jump packet pc acc jeq a b k = refl
exec_packed-jump packet pc acc jgt a b k = refl
exec_packed-jump packet pc acc jgeq a b k = refl
exec_packed-jump packet pc acc jset a b k = refl

pub exec_packed-ja :
    (packet : List ℕ) (pc acc off : ℕ)
    → exec_packed packet pc acc (sock_filter bpf_ja 0 0 off) ≡ continue (pc + (1 + off), acc)
unfolding exec_packed
exec_packed-ja packet pc acc off = refl

module _ {L : Type 0} ⦃e : Eq L⦄ (labels : Dict L ℤ) where
  -- Every target of the instruction is a label at a position in the program.
  abbrev pub Resolves : ℕ → Option L → Type 0
  Resolves n none = Unit
  Resolves n (some t) = (j : ℕ) × (lookup t labels ≡ some (pos j)) × (j ≤ n)

  abbrev pub IsResolved : ℕ → Insn L → Type 0
  IsResolved n (jump op k jt jf) = Resolves n jt × Resolves n jf
  IsResolved n (ja t) = Resolves n (some t)
  IsResolved n _ = Unit

module _ {L : Type 0} ⦃e : Eq L⦄ (labels : Dict L ℤ) (insns : List (Insn L)) (ps packet : List ℕ)
    (prog : List SockFilter) where
  abbrev pub source : ℕ → ℕ → ℕ → Outcome
  source f i acc = run (source_turn labels insns packet) f (pos i, acc)

  abbrev pub target : ℕ → ℕ → ℕ → Outcome
  target g here acc = run (record_turn prog packet) g (here, acc)

  -- The packed program is a layout of the instructions at the positions `ps`.
  pub record IsLayout : Type 0 where
    pub resolved :
        (i : ℕ) (x : Insn L) → get_elem? insns i ≡ some x → IsResolved labels (length insns) x
    pub located : (i : ℕ) (x : Insn L) → get_elem? insns i ≡ some x → Located labels ps prog x i
    pub last : get_elem? ps (length insns) ≡ some (length prog)
    pub mono : (j k a b : ℕ) → j ≤ k → get_elem? ps j ≡ some a → get_elem? ps k ≡ some b → a ≤ b
    pub bound : length ps ≡ length insns + 1

  -- Enough fuel for each: the runs agree from instruction `i`.
  abbrev pub Agrees : ℕ → Type 0
  Agrees f =
      (g i here acc : ℕ)
      → get_elem? ps i ≡ some here
      → length insns < f + i
      → length prog < g + here
      → source f i acc ≡ target g here acc

  pub source_turn-some :
      (i acc : ℕ) {x : Insn L}
      → get_elem? insns i ≡ some x
      → source_turn labels insns packet (pos i, acc) ≡ exec_source labels packet (pos i) acc x
  unfolding source_turn
  source_turn-some i acc h = rw (h, source_turn)

  pub source_turn-none :
      (i acc : ℕ) → get_elem? insns i ≡ none → source_turn labels insns packet (pos i, acc) ≡ fail
  unfolding source_turn
  source_turn-none i acc h = rw (h, source_turn)

  module _ (layout : IsLayout) where
    pub position-le : (i here : ℕ) → get_elem? ps i ≡ some here → here ≤ length prog
    position-le i here p =
        layout.mono i (length insns) here (length prog)
          (omega (arith, lt-length_of_get_elem? ps i p, layout.bound)) p layout.last

    -- A later position belongs to a later instruction.
    pub index-lt :
        (i j here at : ℕ)
        → get_elem? ps i ≡ some here
        → get_elem? ps j ≡ some at
        → here < at
        → i < j
    index-lt i j here at p q lt = elim (dec_lt i j) [
      | yes h ↦ h
      | no h ↦ absurd (omega (arith, layout.mono j i at here (omega arith) q p))
    ]

    -- The index that a jump leads to, at its position.
    pub Leads-index :
        (t : Option L) (i here after at : ℕ)
        → get_elem? ps (i + 1) ≡ some after
        → Resolves labels (length insns) t
        → Leads labels ps after t at
        → (j : ℕ) × (get_elem? ps j ≡ some at)
          × ((acc : ℕ) → jump_to labels t (pos i) acc ≡ continue (pos j, acc))
    Leads-index none i here after at next r l = (i + 1, next ∙ ap some l, λ acc. refl)
    Leads-index (some t) i here after at next (j, found, le) l =
        (j, unfold position_of in ground arith, λ acc. rw (found, jump_to))

    pub Arrives-lt :
        (here d at : ℕ) (tail : List SockFilter) → Arrives labels ps here tail d at → here < at
    Arrives-lt here d at tail (inl there) = omega arith
    Arrives-lt here d at tail (inr (off, found, there)) = omega arith

    -- Control that skips `d` records behind `here` comes to `at`, with fuel to go on.
    pub Arrives-target :
        (here d at : ℕ) (tail : List SockFilter)
        → ((d' : ℕ) → d' < length tail → get_elem? prog (here + suc d') ≡ get_elem? tail d')
        → Arrives labels ps here tail d at
        → (g : ℕ) → length prog < suc g + here
        → (g' : ℕ) × (length prog < g' + at)
          × ((acc : ℕ) → target g (here + (1 + d)) acc ≡ target g' at acc)
    Arrives-target here d at tail inside (inl there) g enough =
        (g, omega arith, λ acc. ap (λ t. target g t acc) (omega arith))
    Arrives-target here d at tail inside (inr (off, found, there)) zero enough =
        let read = inside d (lt-length_of_get_elem? tail d found) ∙ found in
        absurd (omega (arith, lt-length_of_get_elem? prog (here + suc d) read))
    Arrives-target here d at tail inside (inr (off, found, there)) (suc g) enough =
        let pc : here + suc d ≡ here + (1 + d) = omega arith in
        let read : get_elem? prog (here + (1 + d)) ≡ some (sock_filter bpf_ja 0 0 off) =
          rw pc at (inside d (lt-length_of_get_elem? tail d found) ∙ found) in
        let to : here + (1 + d) + (1 + off) ≡ at = omega arith in
        (
          g,
          omega arith,
          λ acc.
              run-continue (record_turn prog packet) g (here + (1 + d), acc)
                (record_turn-some prog packet (here + (1 + d)) acc read
                  ∙ exec_packed-ja packet (here + (1 + d)) acc off)
              ∙ ap (λ t. target g t acc) to,
        )
