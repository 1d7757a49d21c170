-- ===== src/Bpf/Pack.antt =====
-- `struct.pack("<HBBI", …)` and `struct.unpack_from`: a `struct sock_filter` as eight bytes.
use seccompy.Base.{
  ℕ, ◌+◌, ◌*◌, ◌/◌, ◌%◌, ◌^◌, ◌<◌, Bool, ◌&&◌, Option, none, some, List, [], ◌∷◌, ltb, drop,
  if◌then◌else◌,
}
use seccompy.Errors.{Result, ok, err, struct_error}

pub record SockFilter : Type 0 where
  pub code : ℕ
  pub jt : ℕ
  pub jf : ℕ
  pub k : ℕ

abbrev pub sock_filter : ℕ → ℕ → ℕ → ℕ → SockFilter
sock_filter c t f k = record { code = c; jt = t; jf = f; k = k }

-- The fields fit their widths.
abbrev pub Fits : SockFilter → Type 0
Fits r = (r.code < 2 ^ 16) × (r.jt < 2 ^ 8) × (r.jf < 2 ^ 8) × (r.k < 2 ^ 32)

abbrev pub fits : SockFilter → Bool
fits r = ltb r.code (2 ^ 16) && ltb r.jt (2 ^ 8) && ltb r.jf (2 ^ 8) && ltb r.k (2 ^ 32)

-- The eight little-endian bytes.
unfoldable pub encode : SockFilter → List ℕ
encode r =
    (r.code % 256)
    ∷ (r.code / 256)
    ∷ r.jt
    ∷ r.jf
    ∷ (r.k % 256)
    ∷ (r.k / 256 % 256)
    ∷ (r.k / 65536 % 256)
    ∷ (r.k / 16777216)
    ∷ []

-- A field out of its range raises a `struct.error`.
unfoldable pub pack : SockFilter → Result (List ℕ)
pack r = if fits r then ok (encode r) else err struct_error

abbrev pub decode : List ℕ → Option SockFilter
decode (c₀ ∷ c₁ ∷ t ∷ f ∷ k₀ ∷ k₁ ∷ k₂ ∷ k₃ ∷ _) =
    some (sock_filter (c₀ + c₁ * 256) t f (k₀ + k₁ * 256 + k₂ * 65536 + k₃ * 16777216))
decode _ = none

-- `struct.unpack_from("<HBBI", prog, at)`; `none` where fewer than eight bytes are left.
unfoldable pub unpack_from : List ℕ → ℕ → Option SockFilter
unpack_from prog at = decode (drop at prog)
