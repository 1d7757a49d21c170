-- ===== src/Bpf/Emission.antt =====
-- What `_emit` of src/seccompy/bpf.py writes for one instruction, in terms of the records and of
-- the positions that its jumps lead to.
use seccompy.Base.{
  ℕ, suc, ◌+◌, ◌-◌, ◌≡◌, refl, sym, ap₂, ◌∙◌, ◌⊎◌, inl, inr, Option, none, some, List, [], ◌∷◌,
  ◌++◌, arith, length, get_elem?, All, Eq, Dict,
}
use seccompy.Base.Int.{ℤ}
use seccompy.Errors.{ok, ok-injective, >>=-eq-ok, Result-cases}
use seccompy.Bpf.{
  JumpOp, opcode, Insn, load, mask, jump, ja, ret, bpf_ld_abs_w, bpf_alu_and_k, bpf_ret_k, bpf_ja,
}
use seccompy.Bpf.Pack.{SockFilter, sock_filter, Fits, encode, pack}
use seccompy.Bpf.Assemble.{
  or_zero, position_of, offset, ja_bytes, emit_expanded, emit, expanded_size,
}
use seccompy.Bpf.Encoding.{pack-eq-ok, encode_all}
use seccompy.Bpf.Sizes.{SizeOf}

module _ {L : Type 0} ⦃e : Eq L⦄ (labels : Dict L ℤ) (ps : List ℕ) where
  -- A jump's target leads to position `at`; with no label that is `after`.
  abbrev pub Leads : ℕ → Option L → ℕ → Type 0
  Leads after none at = after ≡ at
  Leads after (some t) at = position_of labels t ps ≡ ok at

  -- Control that skips `d` records behind position `here` comes to `at`, at once or by a JA.
  abbrev pub Arrives : ℕ → List SockFilter → ℕ → ℕ → Type 0
  Arrives here tail d at =
      (here + 1 + d ≡ at)
      ⊎ ((off : ℕ) × (get_elem? tail d ≡ some (sock_filter bpf_ja 0 0 off))
          × (here + 1 + d + 1 + off ≡ at))

  -- The records that stand for an instruction at position `here`.
  abbrev pub Stands : ℕ → Insn L → List SockFilter → Type 0
  Stands here (load k) rs = rs ≡ sock_filter bpf_ld_abs_w 0 0 k ∷ []
  Stands here (mask k) rs = rs ≡ sock_filter bpf_alu_and_k 0 0 k ∷ []
  Stands here (ret k) rs = rs ≡ sock_filter bpf_ret_k 0 0 k ∷ []
  Stands here (ja t) rs =
      (off : ℕ) × (rs ≡ sock_filter bpf_ja 0 0 off ∷ [])
      × (position_of labels t ps ≡ ok (here + 1 + off))
  Stands here (jump op k jt jf) rs =
      (a b at at' : ℕ) × (tail : List SockFilter) × (rs ≡ sock_filter (opcode op) a b k ∷ tail)
      × Leads (here + length rs) jt at
      × Arrives here tail a at
      × Leads (here + length rs) jf at'
      × Arrives here tail b at'

  -- The bytes are the records that stand for the instruction, as many as its size.
  abbrev pub Emits : ℕ → Insn L → ℕ → List ℕ → Type 0
  Emits here x s bytes =
      (rs : List SockFilter) × (bytes ≡ encode_all rs)
      × All Fits rs
      × (length rs ≡ s)
      × Stands here x rs

  offset-eq-ok :
      (t : L) (i here : ℕ) (off : Option ℕ)
      → get_elem? ps i ≡ some here
      → offset labels (some t) ps i ≡ ok off
      → (o : ℕ) × (off ≡ some o) × (position_of labels t ps ≡ ok (here + 1 + o))
  unfolding offset
  offset-eq-ok t i here off p h = elim (Result-cases (position_of labels t ps)) [
    | inl (at, q) ↦ (at - here - 1, ground arith, ground arith)
    | inr (x, q) ↦ absurd (ground arith)
  ]

  ja_bytes-eq-ok :
      (t : L) (pc : ℕ) (bytes : List ℕ)
      → ja_bytes labels (some t) ps pc ≡ ok bytes
      → (o : ℕ) × (bytes ≡ encode (sock_filter bpf_ja 0 0 o))
        × Fits (sock_filter bpf_ja 0 0 o)
        × (position_of labels t ps ≡ ok (pc + 1 + o))
  unfolding ja_bytes
  ja_bytes-eq-ok t pc bytes h = elim (Result-cases (position_of labels t ps)) [
    | inl (at, q) ↦
        let packed : pack (sock_filter bpf_ja 0 0 (at - pc - 1)) ≡ ok bytes = ground arith in
        let (fit, same) = pack-eq-ok (sock_filter bpf_ja 0 0 (at - pc - 1)) packed in
        (at - pc - 1, same, fit, ground arith)
    | inr (x, q) ↦ absurd (ground arith)
  ]

  -- One record: the bytes are its encoding.
  pack_one :
      (r : SockFilter) (bytes : List ℕ)
      → pack r ≡ ok bytes
      → (bytes ≡ encode_all (r ∷ [])) × All Fits (r ∷ [])
  unfolding encode_all encode
  pack_one r bytes h = let (fit, same) = pack-eq-ok r h in (same, (fit, tt))

  Leads-of_offset :
      (t : Option L) (i here : ℕ) (off : Option ℕ)
      → get_elem? ps i ≡ some here
      → offset labels t ps i ≡ ok off
      → (at : ℕ) × Leads (here + 1) t at × (here + 1 + or_zero off ≡ at)
  unfolding offset
  Leads-of_offset none i here off p h = (here + 1, refl, ground arith)
  Leads-of_offset (some t) i here off p h =
      let (o, same, there) = offset-eq-ok t i here off p (unfold offset in h) in
      (here + 1 + o, there, ground arith)

  emit_short :
      (op : JumpOp) (k : ℕ) (jt jf : Option L) (i here : ℕ) (bytes : List ℕ)
      → get_elem? ps i ≡ some here
      → emit labels (jump op k jt jf) ps i 1 ≡ ok bytes
      → Emits here (jump op k jt jf) 1 bytes
  unfolding emit
  emit_short op k jt jf i here bytes p h =
      let (off, q, h₁) = >>=-eq-ok (offset labels jt ps i) _ h in
      let (off', q', h₂) = >>=-eq-ok (offset labels jf ps i) _ h₁ in
      let r = sock_filter (opcode op) (or_zero off) (or_zero off') k in
      let packed : pack r ≡ ok bytes = ground arith in
      let (same, fit) = pack_one r bytes packed in
      let (at, leads, arrives) = Leads-of_offset jt i here off p q in
      let (at', leads', arrives') = Leads-of_offset jf i here off' p q' in
      (
        r ∷ [],
        same,
        fit,
        refl,
        (or_zero off, or_zero off', at, at', [], refl, leads, inl arrives, leads', inl arrives'),
      )

  -- At a size above 1 a jump is emitted in its expanded form.
  emit_expanded_of_emit :
      (op : JumpOp) (k : ℕ) (jt jf : Option L) (i n : ℕ) (bytes : List ℕ)
      → emit labels (jump op k jt jf) ps i (suc (suc n)) ≡ ok bytes
      → emit_expanded labels op k jt jf ps i ≡ ok bytes
  unfolding emit
  emit_expanded_of_emit op k jt jf i n bytes h =
      let (off, q, h₁) = >>=-eq-ok (offset labels jt ps i) _ h in
      let (off', q', h₂) = >>=-eq-ok (offset labels jf ps i) _ h₁ in ground (arith, h₂)

  emit_long :
      (op : JumpOp) (k : ℕ) (jt jf : Option L) (i here : ℕ) (bytes : List ℕ)
      → get_elem? ps i ≡ some here
      → emit_expanded labels op k jt jf ps i ≡ ok bytes
      → Emits here (jump op k jt jf) (expanded_size jt jf) bytes
  unfolding emit_expanded encode_all encode
  emit_long op k none none i here bytes p h = absurd (unfold ja_bytes in ground arith)
  emit_long op k none (some f) i here bytes p h =
      let hop = sock_filter (opcode op) 1 0 k in
      let (b₀, q₀, h₀) = >>=-eq-ok (pack hop) _ h in
      let (b₁, q₁, h₁) = >>=-eq-ok (ja_bytes labels (some f) ps (here + 1)) _ (rw p at h₀) in
      let (fit, same) = pack-eq-ok hop q₀ in
      let (o, same', fit', there) = ja_bytes-eq-ok f (here + 1) b₁ q₁ in
      (
        hop ∷ sock_filter bpf_ja 0 0 o ∷ [],
        sym (ok-injective h₁) ∙ ap₂ ◌++◌ same same',
        (fit, (fit', tt)),
        refl,
        (
          1,
          0,
          here + 2,
          here + 1 + 1 + o,
          sock_filter bpf_ja 0 0 o ∷ [],
          refl,
          refl,
          inl (omega arith),
          there,
          inr (o, refl, omega arith),
        ),
      )
  emit_long op k (some t) none i here bytes p h =
      let hop = sock_filter (opcode op) 0 1 k in
      let (b₀, q₀, h₀) = >>=-eq-ok (pack hop) _ h in
      let (b₁, q₁, h₁) = >>=-eq-ok (ja_bytes labels (some t) ps (here + 1)) _ (rw p at h₀) in
      let (fit, same) = pack-eq-ok hop q₀ in
      let (o, same', fit', there) = ja_bytes-eq-ok t (here + 1) b₁ q₁ in
      (
        hop ∷ sock_filter bpf_ja 0 0 o ∷ [],
        sym (ok-injective h₁) ∙ ap₂ ◌++◌ same same',
        (fit, (fit', tt)),
        refl,
        (
          0,
          1,
          here + 1 + 1 + o,
          here + 2,
          sock_filter bpf_ja 0 0 o ∷ [],
          refl,
          there,
          inr (o, refl, omega arith),
          refl,
          inl (omega arith),
        ),
      )
  emit_long op k (some t) (some f) i here bytes p h =
      let hop = sock_filter (opcode op) 0 1 k in
      let (b₀, q₀, h₀) = >>=-eq-ok (pack hop) _ h in
      let (b₁, q₁, h₁) = >>=-eq-ok (ja_bytes labels (some t) ps (here + 1)) _ (rw p at h₀) in
      let (b₂, q₂, h₂) = >>=-eq-ok (ja_bytes labels (some f) ps (here + 2)) _ h₁ in
      let (fit, same) = pack-eq-ok hop q₀ in
      let (o, same', fit', there) = ja_bytes-eq-ok t (here + 1) b₁ q₁ in
      let (o', same'', fit'', there') = ja_bytes-eq-ok f (here + 2) b₂ q₂ in
      (
        hop ∷ sock_filter bpf_ja 0 0 o ∷ sock_filter bpf_ja 0 0 o' ∷ [],
        sym (ok-injective h₂) ∙ ap₂ ◌++◌ same (ap₂ ◌++◌ same' same''),
        (fit, (fit', (fit'', tt))),
        refl,
        (
          0,
          1,
          here + 1 + 1 + o,
          here + 2 + 1 + o',
          sock_filter bpf_ja 0 0 o ∷ sock_filter bpf_ja 0 0 o' ∷ [],
          refl,
          there,
          inr (o, refl, omega arith),
          there',
          inr (o', refl, omega arith),
        ),
      )

  emit_plain :
      (x : Insn L) (r : SockFilter) (here s : ℕ) (bytes : List ℕ)
      → s ≡ 1
      → Stands here x (r ∷ [])
      → pack r ≡ ok bytes
      → Emits here x s bytes
  emit_plain x r here s bytes one stands h =
      let (same, fit) = pack_one r bytes h in (r ∷ [], same, fit, sym one, stands)

  -- Whatever `_emit` returns stands for the instruction, at either of its sizes.
  pub emit-Emits :
      (x : Insn L) (i here s : ℕ) (bytes : List ℕ)
      → get_elem? ps i ≡ some here
      → SizeOf x s
      → emit labels x ps i s ≡ ok bytes
      → Emits here x s bytes
  unfolding emit
  emit-Emits (load k) i here s bytes p v h =
      emit_plain (load k) (sock_filter bpf_ld_abs_w 0 0 k) here s bytes v refl h
  emit-Emits (mask k) i here s bytes p v h =
      emit_plain (mask k) (sock_filter bpf_alu_and_k 0 0 k) here s bytes v refl h
  emit-Emits (ja t) i here s bytes p v h =
      let (off, q, h₁) = >>=-eq-ok (offset labels (some t) ps i) _ h in
      let (o, same, there) = offset-eq-ok t i here off p q in
      let r = sock_filter bpf_ja 0 0 o in
      let packed : pack r ≡ ok bytes = ground arith in
      emit_plain (ja t) r here s bytes v (o, refl, there) packed
  emit-Emits (ret k) i here s bytes p v h =
      emit_plain (ret k) (sock_filter bpf_ret_k 0 0 k) here s bytes v refl h
  emit-Emits (jump op k jt jf) i here s bytes p (inl one) h =
      rw one (emit_short op k jt jf i here bytes p (rw one at h))
  emit-Emits (jump op k none jf) i here s bytes p (inr more) h = rw more (
      emit_long op k none jf i here bytes p
        (emit_expanded_of_emit op k none jf i 0 bytes (rw more at h)))
  emit-Emits (jump op k (some t) none) i here s bytes p (inr more) h = rw more (
      emit_long op k (some t) none i here bytes p
        (emit_expanded_of_emit op k (some t) none i 0 bytes (rw more at h)))
  emit-Emits (jump op k (some t) (some f)) i here s bytes p (inr more) h = rw more (
      emit_long op k (some t) (some f) i here bytes p
        (emit_expanded_of_emit op k (some t) (some f) i 1 bytes (rw more at h)))
