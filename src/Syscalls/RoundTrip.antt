-- ===== src/Syscalls/RoundTrip.antt =====
-- src/seccompy/syscalls.py: `syscall_nr` and `syscall_name` undo each other.
use Prim.Native.String.{String}
use seccompy.Base.{
  ℕ, ◌^◌, ◌<◌, ◌≡◌, refl, Bool, true, false, ◌&&◌, Option, none, some, [], ◌∷◌, arith, leb, Dict,
  nat_eq, string_eq, lookup, All-lookup,
}
use seccompy.Base.Int.{pos, negsuc}
use seccompy.Errors.{
  Error, ok, or_raise, >>=-eq-ok, unsupported_error, value_error, unknown_syscall,
}
use seccompy.Bpf.{u32_max}
use seccompy.Syscalls.{
  Arch, x86_64, aarch64, arches, native, Syscall, name, number, syscall_nr, find_name, syscall_name,
}

abbrev is_none {ℓ} : {A : Type ℓ} → Option A → Bool
is_none none = true
is_none (some a) = false

-- No name stands twice; all numbers fit 32 bits; no number stands twice.
unfoldable names_differ : Dict String ℕ → Bool
names_differ [] = true
names_differ ((s, n) ∷ table) = is_none (lookup s table) && names_differ table

unfoldable numbers_fit : Dict String ℕ → Bool
numbers_fit [] = true
numbers_fit ((s, n) ∷ table) = leb n u32_max && numbers_fit table

unfoldable numbers_differ : Dict String ℕ → Bool
unfolding find_name
numbers_differ [] = true
numbers_differ ((s, n) ∷ table) = is_none (find_name n table) && numbers_differ table

lookup-find_name :
    (n : ℕ) (s : String) (table : Dict String ℕ)
    → names_differ table ≡ true
    → find_name n table ≡ some s
    → lookup s table ≡ some n
unfolding names_differ find_name
lookup-find_name n s [] d h = absurd (cc)
lookup-find_name n s ((t, m) ∷ table) d h =
    ground (arith, string_eq.beq_iff t s, string_eq.beq_iff s s, lookup-find_name n s table)

find_name-lookup :
    (n : ℕ) (s : String) (table : Dict String ℕ)
    → numbers_differ table ≡ true
    → lookup s table ≡ some n
    → find_name n table ≡ some s
unfolding numbers_differ find_name
find_name-lookup n s [] d h = absurd (cc)
find_name-lookup n s ((t, m) ∷ table) d h =
    ground (arith, string_eq.beq_iff t s, string_eq.beq_iff s s, find_name-lookup n s table)

lookup-fits :
    (n : ℕ) (s : String) (table : Dict String ℕ)
    → numbers_fit table ≡ true
    → lookup s table ≡ some n
    → n < 2 ^ 32
unfolding numbers_fit
lookup-fits n s [] d h = absurd (cc)
lookup-fits n s ((t, m) ∷ table) d h = ground (arith, lookup-fits n s table)

x86_64-distinct : names_differ x86_64.table ≡ true
unfolding names_differ
x86_64-distinct = refl

aarch64-distinct : names_differ aarch64.table ≡ true
unfolding names_differ
aarch64-distinct = refl

x86_64-numbers : numbers_differ x86_64.table ≡ true
unfolding numbers_differ find_name
x86_64-numbers = refl

x86_64-fits : numbers_fit x86_64.table ≡ true
unfolding numbers_fit
x86_64-fits = refl

aarch64-fits : numbers_fit aarch64.table ≡ true
unfolding numbers_fit
aarch64-fits = refl

pub or_raise-eq-ok :
    {A : Type 0} (m : Option A) (e : Error) {a : A} → or_raise m e ≡ ok a → m ≡ some a
or_raise-eq-ok none e h = cc
or_raise-eq-ok (some a) e h = cc

abbrev IsChecked : Arch → Type 0
IsChecked a = (names_differ a.table ≡ true) × (numbers_fit a.table ≡ true)

-- What `_native` returns: a table without a doubled name whose numbers fit.
native-IsChecked : (machine : String) (a : Arch) → native machine ≡ ok a → IsChecked a
unfolding native
native-IsChecked machine a h =
    All-lookup IsChecked machine a arches
      (
        (x86_64-distinct, x86_64-fits),
        (
          (x86_64-distinct, x86_64-fits),
          ((aarch64-distinct, aarch64-fits), ((aarch64-distinct, aarch64-fits), tt)),
        ),
      )
      (or_raise-eq-ok _ (unsupported_error none) h)

-- A number that `syscall_nr` returns, for a name or for a number, fits 32 bits.
pub syscall_nr-fits :
    (machine : String) (s : Syscall) (n : ℕ) → syscall_nr machine s ≡ ok n → n < 2 ^ 32
unfolding syscall_nr
syscall_nr-fits machine (number (negsuc k)) n h = absurd (cc)
syscall_nr-fits machine (number (pos k)) n h = ground arith
syscall_nr-fits machine (name s) n h =
    let (a, found, there) = >>=-eq-ok (native machine) _ h in
    lookup-fits n s a.table (native-IsChecked machine a found).1 (or_raise-eq-ok _ _ there)

-- A name that `syscall_name` returns for a number is a name of that number: `syscall_nr` gives the
-- number back.
pub syscall_nr-syscall_name :
    (machine : String) (n : ℕ) (s : String)
    → syscall_name machine (pos n) ≡ ok s
    → syscall_nr machine (name s) ≡ ok n
unfolding syscall_nr syscall_name
syscall_nr-syscall_name machine n s h =
    let (a, found, there) = >>=-eq-ok (native machine) _ h in
    rw
      (
        found,
        lookup-find_name n s a.table (native-IsChecked machine a found).0
            (or_raise-eq-ok _ _ there),
      )
      refl

-- On x86-64 no number has two names: `syscall_name` gives the name back.
pub syscall_name-syscall_nr :
    (machine : String) (n : ℕ) (s : String)
    → native machine ≡ ok x86_64
    → syscall_nr machine (name s) ≡ ok n
    → syscall_name machine (pos n) ≡ ok s
unfolding syscall_nr syscall_name
syscall_name-syscall_nr machine n s found h =
    let there : lookup s x86_64.table ≡ some n =
      or_raise-eq-ok _ (value_error unknown_syscall) (rw found at h) in
    rw (found, find_name-lookup n s x86_64.table x86_64-numbers there) refl
