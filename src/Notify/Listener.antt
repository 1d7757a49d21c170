-- ===== src/Notify/Listener.antt =====
-- src/seccompy/notify.py: `sizes`, the pidfd functions and the class `Listener`.
use seccompy.Base.{
  ℕ, ◌-◌, ◌%◌, ◌^◌, Bool, true, false, not, ◌&&◌, ◌||◌, none, List, [], ◌∷◌, leb, ◌==◌,
  if◌then◌else◌, get_or, drop, bit_and,
}
use seccompy.Base.Int.{ℤ, pos, negsuc}
use seccompy.Errors.{
  Error, Result, ok, err, raise_if, bounded, value_error, seccomp_error, unsupported_error,
  runtime_error, type_error, errno_out_of_range, id_out_of_range, return_value_out_of_range,
  response_flags_out_of_range, continue_with_result, fd_out_of_range, newfd_without_setfd,
  addfd_flags_out_of_range, newfd_flags_not_cloexec, fd_flags_out_of_range, listener_closed,
}
use seccompy.Bpf.{u32_max}
use seccompy.Kernel.{
  close, set_inheritable, Answer, Host, Io, os_call, pure, raise, lift, ◌>>=◌, ◌>>◌, catch,
}
use seccompy.Kernel.Structs.{
  fill, fields, bytes_of, wrap, signed, neg, seccomp_notif, seccomp_notif_resp, seccomp_notif_addfd,
}
use seccompy.Kernel.Calls
use seccompy.Kernel.Calls.{enoent}
use seccompy.Notify.{
  NotifSizes, expected_sizes, same_sizes, Notification, ioctl_notif_recv, ioctl_notif_send,
  ioctl_notif_id_valid, ioctl_notif_addfd, ioctl_notif_set_flags, max_errno, u64_max, resp_continue,
  addfd_setfd, o_cloexec,
}

-- `Listener` and its slots.
pub record Listener : Type 0 where
  pub fd : ℤ
  pub closed : Bool

-- `_check_id`
unfoldable pub check_id : ℤ → Result ℕ
check_id id = bounded id u64_max (err (value_error id_out_of_range))

-- A signed number of 64 bits.
abbrev pub in_i64 : ℤ → Bool
in_i64 (pos n) = leb n (2 ^ 63 - 1)
in_i64 (negsuc n) = leb n (2 ^ 63 - 1)

abbrev pub is_zero : ℤ → Bool
is_zero (pos n) = n == 0
is_zero (negsuc n) = false

-- `flags & AddFdFlag.SETFD`, also for a negative number, which is still to be refused.
abbrev pub has_setfd : ℤ → Bool
has_setfd (pos n) = n % 2 == addfd_setfd
has_setfd (negsuc n) = n % 2 == 0

-- `newfd_flags & ~os.O_CLOEXEC` raises where it is not zero.
abbrev pub cloexec_only : ℤ → Result ℕ
cloexec_only (pos n) =
    if n - bit_and n o_cloexec == 0 then ok n else err (value_error newfd_flags_not_cloexec)
cloexec_only (negsuc n) = err (value_error newfd_flags_not_cloexec)

-- `fileno`
unfoldable pub fileno : Listener → Result ℤ
fileno l = if l.closed then err (value_error listener_closed) else ok l.fd

-- `__copy__` and `__deepcopy__`
unfoldable pub copy : Listener → Result Listener
copy l = err type_error

abbrev pub sizes_of : List ℕ → NotifSizes
sizes_of vs = record {
  notif = get_or vs 0 0;
  notif_resp = get_or vs 1 0;
  data_size = get_or vs 2 0;
}

-- The `Notification` of a filled `SeccompNotif`, by its fields.
unfoldable pub notification_of : List ℕ → Notification
unfolding signed
notification_of vs = record {
  id = get_or vs 0 0;
  pid = get_or vs 1 0;
  flags = get_or vs 2 0;
  nr = signed 32 (get_or vs 3 0);
  arch = get_or vs 4 0;
  instruction_pointer = get_or vs 5 0;
  args = drop 6 vs;
}

-- What `valid` makes of an exception.
unfoldable pub stale : Error → Io Bool
stale (seccomp_error e) = if e == enoent then pure false else raise (seccomp_error e)
stale e = raise e

module _ (host : Host) where
  -- `close`
  unfoldable pub close_listener : Listener → Io Listener
  unfolding os_call
  close_listener l =
      if l.closed
      then pure l
      else (os_call host (close l.fd) >>= λ a. pure (record l { closed = true }))

  -- `__exit__`
  unfoldable pub exit : Listener → Io Listener
  unfolding close_listener
  exit l = close_listener l

  -- `__del__`
  unfoldable pub del : Listener → Io Listener
  unfolding close_listener
  del l = catch (close_listener l) (λ e. pure l)

  -- `__enter__`
  unfoldable pub enter : Listener → Io Listener
  enter l = if l.closed then raise runtime_error else pure l

  module _ (fuel : ℕ) where
    -- `sizes`
    unfoldable pub sizes : Io NotifSizes
    unfolding Calls.notif_sizes
    sizes = do raw ← Calls.notif_sizes host fuel; pure (sizes_of raw)

    -- `pidfd_open`
    unfoldable pub pidfd_open : ℤ → ℤ → Io ℤ
    unfolding Calls.pidfd_open os_call
    pidfd_open pid flags = do
      fd ← Calls.pidfd_open host fuel pid flags
      a ← os_call host (set_inheritable fd false)
      pure fd

    -- `pidfd_getfd`
    unfoldable pub pidfd_getfd : ℤ → ℤ → ℤ → Io ℤ
    unfolding Calls.pidfd_getfd os_call
    pidfd_getfd pidfd fd flags = do
      dup ← Calls.pidfd_getfd host fuel pidfd fd flags
      a ← os_call host (set_inheritable dup false)
      pure dup

    -- `Listener(fd)`
    unfoldable pub new_listener : ℤ → Io Listener
    unfolding sizes os_call
    new_listener fd = do
      kernel ← catch sizes (λ e. os_call host (close fd) >>= λ a. raise e)
      if same_sizes kernel expected_sizes
          then (os_call host (set_inheritable fd false) >>= λ a.
              pure (record { fd = fd; closed = false }))
          else (os_call host (close fd) >>= λ a. raise (unsupported_error none))

    -- `_ioctl`
    unfoldable pub ioctl : Listener → ℕ → List ℕ → Io Answer
    unfolding Calls.ioctl_call
    ioctl l request arg =
        if l.closed then raise runtime_error else Calls.ioctl_call host fuel l.fd request arg

    -- `recv`
    unfoldable pub recv : Listener → Io Notification
    unfolding ioctl fill fields notification_of ioctl_notif_recv
    recv l = do
      a ← ioctl l ioctl_notif_recv (fill seccomp_notif [])
      pure (notification_of (fields seccomp_notif a.out))

    -- `respond`
    unfoldable pub respond : Listener → ℤ → ℤ → ℤ → ℤ → Io (Unit {0})
    unfolding ioctl fill wrap check_id ioctl_notif_send
    respond l notif_id error val flags = do
      id ← lift (check_id notif_id)
      e ← lift (bounded error max_errno (err (value_error errno_out_of_range)))
      lift (raise_if (not (in_i64 val)) (value_error return_value_out_of_range))
      bits ← lift (bounded flags u32_max (err (value_error response_flags_out_of_range)))
      lift (
          raise_if (bits % 2 == resp_continue && (not (e == 0) || not (is_zero val)))
            (value_error continue_with_result))
      a ←
          ioctl l ioctl_notif_send
            (fill seccomp_notif_resp (id ∷ wrap 64 val ∷ wrap 32 (neg e) ∷ bits ∷ []))
      pure tt

    -- `addfd`
    unfoldable pub addfd : Listener → ℤ → ℤ → ℤ → ℤ → ℤ → Io ℤ
    unfolding ioctl fill check_id ioctl_notif_addfd
    addfd l notif_id local_fd flags newfd newfd_flags = do
      id ← lift (check_id notif_id)
      src ← lift (bounded local_fd 0x7FFFFFFF (err (value_error fd_out_of_range)))
      new ← lift (bounded newfd 0x7FFFFFFF (err (value_error fd_out_of_range)))
      lift (raise_if (not (new == 0) && not (has_setfd flags)) (value_error newfd_without_setfd))
      bits ← lift (bounded flags u32_max (err (value_error addfd_flags_out_of_range)))
      new_bits ← lift (cloexec_only newfd_flags)
      a ←
          ioctl l ioctl_notif_addfd
            (fill seccomp_notif_addfd (id ∷ bits ∷ src ∷ new ∷ new_bits ∷ []))
      pure a.ret

    -- `valid`
    unfoldable pub valid : Listener → ℤ → Io Bool
    unfolding ioctl bytes_of check_id stale ioctl_notif_id_valid
    valid l notif_id = do
      id ← lift (check_id notif_id)
      catch (ioctl l ioctl_notif_id_valid (bytes_of 8 id) >>= λ a. pure true) stale

    -- `set_flags`
    unfoldable pub set_flags : Listener → ℤ → Io (Unit {0})
    unfolding ioctl bytes_of ioctl_notif_set_flags
    set_flags l flags = do
      bits ← lift (bounded flags u64_max (err (value_error fd_flags_out_of_range)))
      a ← ioctl l ioctl_notif_set_flags (bytes_of 8 bits)
      pure tt
