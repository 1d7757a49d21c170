-- ===== src/Notify/Messages.antt =====
-- src/seccompy/notify.py: what the kernel reads in the messages that `respond` sends.
use seccompy.Base.{
  ℕ, zero, suc, ◌%◌, ◌^◌, ◌≡◌, ◌≤◌, ◌<◌, ◌⊎◌, inl, inr, refl, sym, ap, ◌∙◌, subst, true, false, not,
  ◌&&◌, ◌||◌, List, [], ◌∷◌, arith, ◌==◌, Bool-cases,
}
use seccompy.Base.Int.{ℤ, pos, negsuc}
use seccompy.Errors.{
  ok, err, raise_if, raise_if-eq-ok, bounded, bounded-eq, bounded-le, value_error,
  errno_out_of_range, return_value_out_of_range, response_flags_out_of_range, continue_with_result,
}
use seccompy.Bpf.{u32_max}
use seccompy.Kernel.{
  ioctl, Answer, Log, Host, finished, failed, lift->>=-eq-ok, >>=-eq-ok, finished-injective,
}
use seccompy.Kernel.Calls.{error_of, ioctl_call}
use seccompy.Kernel.Retry.{Accepted, retry-eq-ok}
use seccompy.Kernel.Structs.{fill, fields, wrap, signed, neg, seccomp_notif_resp}
use seccompy.Kernel.Bytes.{fields-fill}
use seccompy.Notify.{ioctl_notif_send, max_errno, u64_max, resp_continue}
use seccompy.Notify.Listener
use seccompy.Notify.Listener.{Listener, check_id, in_i64, is_zero, respond}

is_zero-eq : (z : ℤ) → is_zero z ≡ true → z ≡ pos 0
is_zero-eq (pos n) h = ground arith
is_zero-eq (negsuc n) h = absurd (cc)

-- A signed number of 64 bits, and a negated errno, is what its bits are read as.
signed-wrap_64 : (z : ℤ) → in_i64 z ≡ true → signed 64 (wrap 64 z) ≡ z
unfolding signed wrap
signed-wrap_64 (pos n) h = ground arith
signed-wrap_64 (negsuc n) h = ground arith

signed-wrap-neg : (n : ℕ) → n ≤ max_errno → signed 32 (wrap 32 (neg n)) ≡ neg n
unfolding signed wrap
signed-wrap-neg zero h = refl
signed-wrap-neg (suc n) h = ground arith

wrap_64-lt : (z : ℤ) → wrap 64 z < 256 ^ 8
unfolding wrap
wrap_64-lt (pos n) = omega arith
wrap_64-lt (negsuc n) = omega arith

wrap_32-lt : (z : ℤ) → wrap 32 z < 256 ^ 4
unfolding wrap
wrap_32-lt (pos n) = omega arith
wrap_32-lt (negsuc n) = omega arith

-- The bytes of a `struct seccomp_notif_resp` that answer a notification so.
pub record IsResponse (id error val flags : ℤ) (bytes : List ℕ) : Type 0 where
  pub cookie : ℕ
  pub errno : ℕ
  pub value : ℕ
  pub bits : ℕ
  pub result : ℕ
  pub same_id : id ≡ pos cookie
  pub same_errno : error ≡ pos errno
  pub same_flags : flags ≡ pos bits
  pub read : fields seccomp_notif_resp bytes ≡ cookie ∷ value ∷ result ∷ bits ∷ []
  pub same_value : signed 64 value ≡ val
  pub negated : signed 32 result ≡ neg errno
  pub continues_with_zero : (bits % 2 ≡ 0) ⊎ ((error ≡ pos 0) × (val ≡ pos 0))

module _ (host : Host) (fuel : ℕ) where
  ioctl-eq-ok :
      (l : Listener) (request : ℕ) (arg : List ℕ) (log : Log) {a : Answer} {log' : Log}
      → Listener.ioctl host fuel l request arg log ≡ finished (ok a) log'
      → (l.closed ≡ false) × Accepted host (ioctl l.fd request arg) log log'
  unfolding Listener.ioctl ioctl_call
  ioctl-eq-ok l request arg log {a} {log'} h = elim (Bool-cases l.closed) [
    | inl shut ↦ absurd (ground arith)
    | inr unclosed ↦
        let (n, i, made, last, good) =
          retry-eq-ok host error_of fuel (ioctl l.fd request arg) log {a = a} {log' = log'}
            (ground arith) in
        (unclosed, (n, i, made, subst (λ t. failed t.ret ≡ false) (sym last) good))
  ]

  -- A response that succeeds came from an open listener, and its last call handed the kernel the bytes
  -- of a `struct seccomp_notif_resp`. They are read back as the given id, value and flags and as the
  -- negated errno; if the flags say to continue, errno and value are zero.
  pub respond-IsResponse :
      (l : Listener) (id error val flags : ℤ) (log log' : Log)
      → respond host fuel l id error val flags log ≡ finished (ok tt) log'
      → (l.closed ≡ false)
        × ((bytes : List ℕ) × Accepted host (ioctl l.fd ioctl_notif_send bytes) log log'
            × IsResponse id error val flags bytes)
  unfolding respond check_id
  respond-IsResponse l id error val flags log log' h =
      let (i, e₁, h₁) = lift->>=-eq-ok (check_id id) _ log h in
      let (e, e₂, h₂) =
        lift->>=-eq-ok (bounded error max_errno (err (value_error errno_out_of_range))) _ log h₁ in
      let (_, e₃, h₃) =
        lift->>=-eq-ok (raise_if (not (in_i64 val)) (value_error return_value_out_of_range)) _ log
          h₂ in
      let (b, e₄, h₄) =
        lift->>=-eq-ok (bounded flags u32_max (err (value_error response_flags_out_of_range))) _ log
          h₃ in
      let (_, e₅, h₅) =
        lift->>=-eq-ok
          (raise_if (b % 2 == resp_continue && (not (e == 0) || not (is_zero val)))
            (value_error continue_with_result))
          _ log h₄ in
      let bytes = fill seccomp_notif_resp (i ∷ wrap 64 val ∷ wrap 32 (neg e) ∷ b ∷ []) in
      let (a, mid, e₆, h₆) =
        >>=-eq-ok (Listener.ioctl host fuel l ioctl_notif_send bytes) _ log h₅ in
      let (unclosed, accepted) = ioctl-eq-ok l ioctl_notif_send bytes log e₆ in
      let small = bounded-le error max_errno _ e e₂ in
      let in_64 : in_i64 val ≡ true = ground (arith, raise_if-eq-ok (not (in_i64 val)) _ e₃) in
      (
        unclosed,
        (
          bytes,
          subst (Accepted host (ioctl l.fd ioctl_notif_send bytes) log) (finished-injective h₆).1
              accepted,
          record {
            cookie = i;
            errno = e;
            value = wrap 64 val;
            bits = b;
            result = wrap 32 (neg e);
            same_id = bounded-eq id u64_max _ i e₁;
            same_errno = bounded-eq error max_errno _ e e₂;
            same_flags = bounded-eq flags u32_max _ b e₄;
            read = fields-fill seccomp_notif_resp _ (
              omega (arith, bounded-le id u64_max _ i e₁),
              (
                wrap_64-lt val,
                (wrap_32-lt (neg e), (omega (arith, bounded-le flags u32_max _ b e₄), tt)),
              ),
            );
            same_value = signed-wrap_64 val in_64;
            negated = signed-wrap-neg e small;
            continues_with_zero = continue_case e b e₂ (raise_if-eq-ok _ _ e₅);
          },
        ),
      )
    where
      continue_case :
          (e b : ℕ)
          → bounded error max_errno (err (value_error errno_out_of_range)) ≡ ok e
          → (b % 2 == resp_continue && (not (e == 0) || not (is_zero val))) ≡ false
          → (b % 2 ≡ 0) ⊎ ((error ≡ pos 0) × (val ≡ pos 0))
      continue_case e b same h = elim (Bool-cases (b % 2 == resp_continue)) [
        | inr plain ↦ inl (ground arith)
        | inl asked ↦ inr (
          bounded-eq error max_errno _ e same ∙ ap pos (ground arith),
          is_zero-eq val (ground arith),
        )
      ]
