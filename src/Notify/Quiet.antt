-- ===== src/Notify/Quiet.antt =====
-- src/seccompy/notify.py: which calls the methods of a `Listener` make.
use seccompy.Base.{
  ℕ, ◌%◌, ◌≡◌, refl, Bool, true, false, not, ◌&&◌, ◌||◌, List, [], ◌==◌, if◌then◌else◌,
}
use seccompy.Base.Int.{ℤ}
use seccompy.Errors.{Error, Result, err, value_error, runtime_error, bounded, raise_if}
use seccompy.Kernel.{
  Call, Answer, Log, Host, Outcome, waiting, finished, Io, pure, raise, lift, ◌>>=◌, catch, failed,
  finished-injective,
}
use seccompy.Kernel
use seccompy.Kernel.Only.{
  Only, Only-lift, Only-pure, Only-raise, Only-if, Only->>=, Only-catch, Only-retry,
}
use seccompy.Kernel.Calls.{error_of, ioctl_call, enoent}
use seccompy.Errors.{
  seccomp_error, errno_out_of_range, return_value_out_of_range, response_flags_out_of_range,
  continue_with_result, fd_out_of_range, newfd_without_setfd, addfd_flags_out_of_range,
  fd_flags_out_of_range,
}
use seccompy.Bpf.{u32_max}
use seccompy.Kernel.Structs.{fill, bytes_of, seccomp_notif}
use seccompy.Notify.{
  ioctl_notif_recv, ioctl_notif_send, ioctl_notif_id_valid, ioctl_notif_addfd,
  ioctl_notif_set_flags, max_errno, u64_max, resp_continue,
}
use seccompy.Notify.Listener.{Listener}
use seccompy.Notify.Listener

-- An ioctl on the listener's descriptor, while it is open.
pub data IsOwn (l : Listener) : Call → Type 0 where
  of_fd : (request : ℕ) (arg : List ℕ) → l.closed ≡ false → IsOwn l (Kernel.ioctl l.fd request arg)

module _ (host : Host) (fuel : ℕ) (l : Listener) where
  -- The computation makes such calls only.
  abbrev pub Quiet {ℓ} : {A : Type ℓ} → Io A → Type ℓ
  Quiet = Only (IsOwn l)

  Quiet-ioctl : (request : ℕ) (arg : List ℕ) → Quiet (Listener.ioctl host fuel l request arg)
  unfolding Listener.ioctl ioctl_call
  Quiet-ioctl request arg = by_state l.closed refl
    where
      by_state :
          (b : Bool)
          → l.closed ≡ b
          → Quiet (if b then raise runtime_error else ioctl_call host fuel l.fd request arg)
      by_state true e = Only-raise _ runtime_error
      by_state false e =
          Only-retry (IsOwn l) host (Kernel.ioctl l.fd request arg) (of_fd request arg e) error_of
            fuel

  Quiet-lift->>= {ℓ κ} :
      {A : Type ℓ} {B : Type κ} (r : Result A) (k : A → Io B)
      → ((a : A) → Quiet (k a))
      → Quiet (lift r >>= k)
  Quiet-lift->>= r k q = Only->>= (IsOwn l) (lift r) k (Only-lift _ r) q

  Quiet-ioctl->>= {κ} :
      {B : Type κ} (request : ℕ) (arg : List ℕ) (k : Answer → B)
      → Quiet (Listener.ioctl host fuel l request arg >>= λ a. pure (k a))
  Quiet-ioctl->>= request arg k =
      Only->>= (IsOwn l) _ _ (Quiet-ioctl request arg) (λ a. Only-pure _ (k a))

  pub Quiet-recv : Quiet (Listener.recv host fuel l)
  unfolding Listener.recv
  Quiet-recv = Quiet-ioctl->>= ioctl_notif_recv (fill seccomp_notif []) _

  pub Quiet-respond :
      (id error val flags : ℤ) → Quiet (Listener.respond host fuel l id error val flags)
  unfolding Listener.respond
  Quiet-respond id error val flags = Quiet-lift->>= (Listener.check_id id) _ λ i.
      Quiet-lift->>= (bounded error max_errno (err (value_error errno_out_of_range))) _ λ e.
        Quiet-lift->>=
          (raise_if (not (Listener.in_i64 val)) (value_error return_value_out_of_range)) _
          λ _.
            Quiet-lift->>= (bounded flags u32_max (err (value_error response_flags_out_of_range))) _
              λ bits.
                Quiet-lift->>=
                  (raise_if
                    (bits % 2 == resp_continue && (not (e == 0) || not (Listener.is_zero val)))
                    (value_error continue_with_result))
                  _ λ _. Quiet-ioctl->>= ioctl_notif_send _ _

  pub Quiet-addfd :
      (id fd flags newfd newfd_flags : ℤ)
      → Quiet (Listener.addfd host fuel l id fd flags newfd newfd_flags)
  unfolding Listener.addfd
  Quiet-addfd id fd flags newfd newfd_flags = Quiet-lift->>= (Listener.check_id id) _ λ i.
      Quiet-lift->>= (bounded fd 0x7FFFFFFF (err (value_error fd_out_of_range))) _ λ src.
        Quiet-lift->>= (bounded newfd 0x7FFFFFFF (err (value_error fd_out_of_range))) _ λ new.
          Quiet-lift->>=
            (raise_if (not (new == 0) && not (Listener.has_setfd flags))
              (value_error newfd_without_setfd))
            _
            λ _.
              Quiet-lift->>= (bounded flags u32_max (err (value_error addfd_flags_out_of_range))) _
                λ bits.
                  Quiet-lift->>= (Listener.cloexec_only newfd_flags) _
                    λ new_bits. Quiet-ioctl->>= ioctl_notif_addfd _ (λ a. a.ret)

  Quiet-stale : (e : Error) → Quiet (Listener.stale e)
  unfolding Listener.stale
  Quiet-stale (seccomp_error e) =
      Only-if (IsOwn l) (e == enoent) _ _ (Only-pure _ false) (Only-raise _ (seccomp_error e))
  Quiet-stale e = Only-raise _ e

  pub Quiet-valid : (id : ℤ) → Quiet (Listener.valid host fuel l id)
  unfolding Listener.valid
  Quiet-valid id = Quiet-lift->>= (Listener.check_id id) _ λ i.
      Only-catch (IsOwn l)
        (Listener.ioctl host fuel l ioctl_notif_id_valid (bytes_of 8 i) >>= λ a. pure true)
        Listener.stale (Quiet-ioctl->>= ioctl_notif_id_valid (bytes_of 8 i) (λ a. true)) Quiet-stale

  pub Quiet-set_flags : (flags : ℤ) → Quiet (Listener.set_flags host fuel l flags)
  unfolding Listener.set_flags
  Quiet-set_flags flags =
      Quiet-lift->>= (bounded flags u64_max (err (value_error fd_flags_out_of_range))) _
        λ bits. Quiet-ioctl->>= ioctl_notif_set_flags (bytes_of 8 bits) _
