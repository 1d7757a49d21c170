-- ===== src/Kernel/Bytes.antt =====
-- src/seccompy/_syscall.py: what a ctypes structure that was filled is read back as.
use seccompy.Base.{
  ℕ, zero, suc, ◌+◌, ◌*◌, ◌/◌, ◌%◌, ◌^◌, ◌≡◌, ◌<◌, refl, ap, ◌∙◌, List, [], ◌∷◌, ◌++◌, arith, drop,
}
use seccompy.Kernel.Structs.{bytes_of, number_of, fill, fields}

pub number_of-bytes_of :
    (w n : ℕ) (bs : List ℕ) → n < 256 ^ w → number_of w (bytes_of w n ++ bs) ≡ n
unfolding number_of bytes_of
number_of-bytes_of zero n bs h = omega (arith, h)
number_of-bytes_of (suc w) n bs h =
    ap (λ k. n % 256 + 256 * k) (number_of-bytes_of w (n / 256) bs (omega (arith, h))) ∙ omega arith

pub drop-bytes_of : (w n : ℕ) (bs : List ℕ) → drop w (bytes_of w n ++ bs) ≡ bs
unfolding bytes_of
drop-bytes_of zero n bs = refl
drop-bytes_of (suc w) n bs = drop-bytes_of w (n / 256) bs

-- There is a number for each field, and it fits.
abbrev pub Fit : List ℕ → List ℕ → Type 0
Fit [] [] = Unit
Fit [] (v ∷ vs) = ⊥
Fit (w ∷ ws) [] = ⊥
Fit (w ∷ ws) (v ∷ vs) = (v < 256 ^ w) × Fit ws vs

-- A structure that is filled with numbers that fit its fields is read back as these numbers.
pub fields-fill : (ws vs : List ℕ) → Fit ws vs → fields ws (fill ws vs) ≡ vs
unfolding fill fields
fields-fill [] [] h = refl
fields-fill [] (v ∷ vs) h = absurd h
fields-fill (w ∷ ws) [] h = absurd h
fields-fill (w ∷ ws) (v ∷ vs) h =
    let tail = ap (fields ws) (drop-bytes_of w v (fill ws vs)) ∙ fields-fill ws vs h.1 in
    ap (λ (x : ℕ). x ∷ fields ws (drop w (bytes_of w v ++ fill ws vs)))
      (number_of-bytes_of w v (fill ws vs) h.0)
    ∙ ap (λ (t : List ℕ). v ∷ t) tail
