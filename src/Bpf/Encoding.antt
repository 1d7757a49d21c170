-- ===== src/Bpf/Encoding.antt =====
-- Packing and unpacking of src/seccompy/bpf.py's records: a packed program read at a multiple of
-- eight gives its records back.

use seccompy.Base.{
  ℕ, zero, suc, ◌+◌, ◌*◌, ◌≡◌, refl, ◌∙◌, ap, some, List, [], ◌∷◌, ◌++◌, arith, length, get_elem?,
  drop, All,
}
use seccompy.Errors.{ok}
use seccompy.Bpf.Pack.{SockFilter, Fits, encode, pack, decode, unpack_from}

-- Packing succeeds on the fields that fit, and on no others.
pub pack-eq-ok : (r : SockFilter) {bytes : List ℕ} → pack r ≡ ok bytes → Fits r × (bytes ≡ encode r)
unfolding pack
pack-eq-ok r h = ground arith

pub pack-Fits : (r : SockFilter) → Fits r → pack r ≡ ok (encode r)
unfolding pack
pack-Fits r h = ground arith

pub decode-encode : (r : SockFilter) (rest : List ℕ) → Fits r → decode (encode r ++ rest) ≡ some r
unfolding encode
decode-encode r rest h = ground arith

-- The bytes of a program.
unfoldable pub encode_all : List SockFilter → List ℕ
encode_all [] = []
encode_all (r ∷ rs) = encode r ++ encode_all rs

pub length-encode_all : (rs : List SockFilter) → length (encode_all rs) ≡ length rs * 8
unfolding encode_all encode
length-encode_all [] = refl
length-encode_all (r ∷ rs) = omega (arith, length-encode_all rs)

pub encode_all-append :
    (rs ss : List SockFilter) → encode_all (rs ++ ss) ≡ encode_all rs ++ encode_all ss
unfolding encode_all encode
encode_all-append [] ss = refl
encode_all-append (r ∷ rs) ss = rw (encode_all-append rs ss)

drop-encode :
    (n : ℕ) (r : SockFilter) (rest : List ℕ)
    → drop (suc n * 8) (encode r ++ rest) ≡ drop (n * 8) rest
unfolding encode
drop-encode n r rest =
    let e : suc n * 8 ≡ suc (suc (suc (suc (suc (suc (suc (suc (n * 8)))))))) = omega arith in rw e

-- Where the fields of all records fit, reading record `pc` of their packed bytes gives record `pc`
-- of the list, and nothing where there is none.
pub unpack_from-encode_all :
    (rs : List SockFilter) (pc : ℕ)
    → All Fits rs
    → unpack_from (encode_all rs) (pc * 8) ≡ get_elem? rs pc
unfolding unpack_from encode_all
unpack_from-encode_all [] zero h = refl
unpack_from-encode_all [] (suc pc) h = let e : suc pc * 8 ≡ suc (pc * 8 + 7) = omega arith in rw e
unpack_from-encode_all (r ∷ rs) zero h = decode-encode r (encode_all rs) h.0
unpack_from-encode_all (r ∷ rs) (suc pc) h =
    ap decode (drop-encode pc r (encode_all rs)) ∙ unpack_from-encode_all rs pc h.1

pub encode_all-nil : encode_all [] ≡ []
unfolding encode_all
encode_all-nil = refl
