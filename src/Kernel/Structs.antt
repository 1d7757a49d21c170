-- ===== src/Kernel/Structs.antt =====
-- src/seccompy/_syscall.py: the ctypes structures, as the widths of their fields in bytes, and the
-- little-endian bytes that hold them. The nested `SeccompData` stands in its place field by field.
use seccompy.Base.{
  ℕ, zero, suc, ◌+◌, ◌-◌, ◌*◌, ◌/◌, ◌%◌, ◌^◌, List, [], ◌∷◌, ◌++◌, ltb, drop, replicate,
  if◌then◌else◌,
}
use seccompy.Base.Int.{ℤ, pos, negsuc}

-- The widths of the fields, of which each is aligned to its own width.
abbrev pub seccomp_data : List ℕ
seccomp_data = 4 ∷ 4 ∷ 8 ∷ replicate 6 8

abbrev pub seccomp_notif : List ℕ
seccomp_notif = 8 ∷ 4 ∷ 4 ∷ seccomp_data

abbrev pub seccomp_notif_resp : List ℕ
seccomp_notif_resp = 8 ∷ 8 ∷ 4 ∷ 4 ∷ []

abbrev pub seccomp_notif_addfd : List ℕ
seccomp_notif_addfd = 8 ∷ 4 ∷ 4 ∷ 4 ∷ 4 ∷ []

abbrev pub seccomp_notif_sizes : List ℕ
seccomp_notif_sizes = 2 ∷ 2 ∷ 2 ∷ []

-- The next multiple of a width.
abbrev pub round_up : ℕ → ℕ → ℕ
round_up n w = n + (w - n % w) % w

abbrev pub max_of : ℕ → ℕ → ℕ
max_of a b = if ltb a b then b else a

abbrev pub sizeof_from : ℕ → ℕ → List ℕ → ℕ
sizeof_from at align [] = round_up at align
sizeof_from at align (w ∷ ws) = sizeof_from (round_up at w + w) (max_of align w) ws

-- `ctypes.sizeof`
abbrev pub sizeof : List ℕ → ℕ
sizeof ws = sizeof_from 0 1 ws

-- The lowest bytes of a number.
unfoldable pub bytes_of : ℕ → ℕ → List ℕ
bytes_of zero n = []
bytes_of (suc w) n = (n % 256) ∷ bytes_of w (n / 256)

-- The number in the first bytes; what is missing is zero, as a fresh structure is.
unfoldable pub number_of : ℕ → List ℕ → ℕ
number_of zero bs = 0
number_of (suc w) [] = 0
number_of (suc w) (b ∷ bs) = b + 256 * number_of w bs

-- A structure filled with numbers, and its bytes read as a structure.
unfoldable pub fill : List ℕ → List ℕ → List ℕ
unfolding bytes_of
fill [] vs = []
fill (w ∷ ws) [] = bytes_of w 0 ++ fill ws []
fill (w ∷ ws) (v ∷ vs) = bytes_of w v ++ fill ws vs

unfoldable pub fields : List ℕ → List ℕ → List ℕ
unfolding number_of
fields [] bs = []
fields (w ∷ ws) bs = number_of w bs ∷ fields ws (drop w bs)

-- Two's complement: what `c_int32` and `c_int64` keep of a number, and how they read it.
unfoldable pub wrap : ℕ → ℤ → ℕ
wrap bits (pos n) = n % 2 ^ bits
wrap bits (negsuc n) = 2 ^ bits - 1 - n % 2 ^ bits

unfoldable pub signed : ℕ → ℕ → ℤ
signed bits n = if ltb n (2 ^ (bits - 1)) then pos n else negsuc (2 ^ bits - 1 - n)

-- `-n`
abbrev pub neg : ℕ → ℤ
neg zero = pos 0
neg (suc n) = negsuc n
