-- ===== src/Base/Dicts.antt =====
-- A Python dict as an association list in insertion order. `lookup` is `d.get(k)`, `insert` is
-- `d[k] = v`.
use mathlib.Core.Path.{◌≡◌}
use mathlib.Core.Logic.{◌↔◌}
use mathlib.Core.Bool.{Bool, true}
use mathlib.Core.List.{List, [], ◌∷◌}
use mathlib.Core.Option.{Option, none, some, some-injective}
use Prim.Native.Nat.{ℕ}
use Prim.Native.String.{String}
use text.Mathlib.Text.{◌==◌ as text_eq}
use text.Mathlib.TextEquality.{eq_iff}
use mathlib.Core.Path.{refl, sym, ◌∙◌, subst}
use seccompy.Base.Lists.{All}
use mathlib.Core.Logic.{◌≢◌, inl, inr}
use mathlib.Core.Bool.{false}
use seccompy.Base.Tests.{if◌then◌else◌, ◌==◌, ==_iff, Bool-cases}

-- Keys with a test for equality.
pub record Eq {ℓ} (A : Type ℓ) : Type ℓ where
  pub beq : A → A → Bool
  pub beq_iff : (a b : A) → (beq a b ≡ true) ↔ (a ≡ b)

instance abbrev pub nat_eq : Eq ℕ
nat_eq = record { beq = ◌==◌; beq_iff = ==_iff }

instance abbrev pub string_eq : Eq String
string_eq = record { beq = text_eq; beq_iff = eq_iff }

abbrev pub Dict {ℓ κ} : Type ℓ → Type κ → Type (ℓ ⊔ κ)
Dict K V = List (K × V)

module _ {ℓ} {K : Type ℓ} ⦃e : Eq K⦄ where
  pub beq_ne : (a b : K) → a ≢ b → e.beq a b ≡ false
  beq_ne a b ne = elim (Bool-cases (e.beq a b)) [
    | inl same ↦ absurd (ne ((e.beq_iff a b).0 same))
    | inr other ↦ other
  ]

module _ {ℓ κ} {K : Type ℓ} {V : Type κ} ⦃e : Eq K⦄ where
  abbrev pub lookup : K → Dict K V → Option V
  lookup k [] = none
  lookup k ((j, v) ∷ d) = if e.beq j k then some v else lookup k d

  abbrev pub insert : K → V → Dict K V → Dict K V
  insert k v [] = (k, v) ∷ []
  insert k v ((j, w) ∷ d) = if e.beq j k then (j, v) ∷ d else (j, w) ∷ insert k v d

  pub lookup-insert_self : (k : K) (v : V) (d : Dict K V) → lookup k (insert k v d) ≡ some v
  lookup-insert_self k v [] = rw ((e.beq_iff k k).1 refl)
  lookup-insert_self k v ((j, w) ∷ d) = elim (Bool-cases (e.beq j k)) [
    | inl same ↦ rw same (rw same)
    | inr other ↦ rw other (rw other (lookup-insert_self k v d))
  ]

  pub lookup-insert_ne :
      (j k : K) (v : V) (d : Dict K V) → j ≢ k → lookup j (insert k v d) ≡ lookup j d
  lookup-insert_ne j k v [] ne = rw (beq_ne k j (λ p. ne (sym p)))
  lookup-insert_ne j k v ((i, w) ∷ d) ne = elim (Bool-cases (e.beq i k)) [
    | inl same ↦
        let apart : e.beq i j ≡ false = beq_ne i j (λ p. ne (sym p ∙ (e.beq_iff i k).0 same)) in
        rw same (rw apart)
    | inr other ↦ rw other (elim (Bool-cases (e.beq i j)) [
      | inl here ↦ rw here
      | inr there ↦ rw there (lookup-insert_ne j k v d ne)
    ])
  ]

  -- What holds of all values holds of one that is found.
  pub All-lookup {μ} :
      (P : V → Type μ) (k : K) (v : V) (d : Dict K V)
      → All (λ (x : K × V). P x.1) d
      → lookup k d ≡ some v
      → P v
  All-lookup P k v [] h g = absurd (cc)
  All-lookup P k v ((j, w) ∷ d) h g = elim (Bool-cases (e.beq j k)) [
    | inl here ↦ let same : w ≡ v = some-injective _ _ (rw here at g) in subst P same h.0
    | inr there ↦ All-lookup P k v d h.1 (rw there at g)
  ]
