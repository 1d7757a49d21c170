-- ===== src/Filter/Labels.antt =====
-- The labels that `_compile` of src/seccompy/filter.py makes. Each is an f-string there; a label is
-- its parts here.
use seccompy.Base.{ℕ, ◌≡◌, ◌↔◌, Bool, true, false, ◌&&◌, arith, ◌==◌, Eq}

-- `block_{nr}`, `next_{nr}_{i}`, `hit_{nr}_{i}_{j}` and `kill`.
pub data Label : Type 0 where
  block : ℕ → Label
  next : ℕ → ℕ → Label
  hit : ℕ → ℕ → ℕ → Label
  kill : Label

abbrev pub beq : Label → Label → Bool
beq (block n) (block m) = n == m
beq (next n i) (next m j) = n == m && i == j
beq (hit n i k) (hit m j l) = n == m && (i == j && k == l)
beq kill kill = true
beq _ _ = false

pub beq_iff : (a b : Label) → (beq a b ≡ true) ↔ (a ≡ b)
beq_iff (block n) (block m) = ground arith
beq_iff (next n i) (next m j) = ground arith
beq_iff (hit n i k) (hit m j l) = ground arith
beq_iff kill kill = ground arith
beq_iff _ _ = ground arith

instance abbrev pub label_eq : Eq Label
label_eq = record { beq = beq; beq_iff = beq_iff }
