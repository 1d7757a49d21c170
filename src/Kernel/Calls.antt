-- ===== src/Kernel/Calls.antt =====
-- src/seccompy/_syscall.py: the wrappers of seccomp(2), prctl(2), ioctl(2) and the pidfd calls.
use Prim.Native.String.{String}
use seccompy.Base.{
  ℕ, zero, suc, ◌/◌, ◌%◌, Bool, true, false, not, ◌||◌, none, some, List, [], ◌∷◌, ltb, ◌==◌,
  if◌then◌else◌, length, Dict, string_eq, lookup,
}
use seccompy.Base.Int.{ℤ, pos, in_range}
use seccompy.Errors.{
  Error, Result, ok, err, raise_if, or_raise, value_error, seccomp_error, unsupported_error,
  program_not_whole, program_too_long, pid_out_of_range,
}
use seccompy.Kernel.{
  Arg, int, null, buffer, fprog, Call, syscall, prctl, ioctl, Answer, Host, waiting, finished, Io,
  pure, raise, lift, ◌>>=◌, ◌>>◌, catch, failed,
}
use seccompy.Kernel.Structs.{bytes_of, wrap, fill, fields, seccomp_notif_sizes}

-- The numbers of Linux, as the module `errno` has them.
abbrev pub enoent : ℕ
enoent = 2

abbrev pub eintr : ℕ
eintr = 4

abbrev pub eacces : ℕ
eacces = 13

abbrev pub efault : ℕ
efault = 14

abbrev pub einval : ℕ
einval = 22

abbrev pub enosys : ℕ
enosys = 38

abbrev pub eopnotsupp : ℕ
eopnotsupp = 95

abbrev pub pr_set_no_new_privs : ℕ
pr_set_no_new_privs = 38

abbrev pub seccomp_set_mode_filter : ℕ
seccomp_set_mode_filter = 1

abbrev pub seccomp_get_action_avail : ℕ
seccomp_get_action_avail = 2

abbrev pub seccomp_get_notif_sizes : ℕ
seccomp_get_notif_sizes = 3

-- `_SYS_SECCOMP` and `_SYS_PIDFD`
abbrev pub sys_seccomp : Dict String ℕ
sys_seccomp = ("x86_64", 317) ∷ ("amd64", 317) ∷ ("aarch64", 277) ∷ ("arm64", 277) ∷ []

abbrev pub sys_pidfd : Dict String (ℕ × ℕ)
sys_pidfd =
    ("x86_64", (434, 438))
    ∷ ("amd64", (434, 438))
    ∷ ("aarch64", (434, 438))
    ∷ ("arm64", (434, 438))
    ∷ []

-- What `_call` and `ioctl` raise for an errno.
unfoldable pub error_of : ℕ → Error
error_of e = if e == enosys || e == eopnotsupp then unsupported_error (some e) else seccomp_error e

-- What `probe_flag` makes of an exception.
unfoldable pub probed : Error → Io Bool
probed (seccomp_error e) =
    if e == einval
    then pure false
    else if e == efault || e == eacces
    then pure true
    else raise (seccomp_error e)
probed e = raise e

-- The kernel's limit of instructions.
abbrev pub max_insns : ℕ
max_insns = 4096

module _ (host : Host) where
  -- The loop of `_call`, `ioctl` and `set_no_new_privs`, by the rounds left: a call that a signal
  -- interrupts is made again. Each round starts with `_get_libc`.
  unfoldable pub retry : (ℕ → Error) → ℕ → Call → Io Answer
  retry raised zero c log = waiting
  retry raised (suc fuel) c log =
      let again = retry raised fuel c (c ∷ log) in
      let a = host.answer log c in
      if not host.is_linux
      then finished (err (unsupported_error none)) log
      else if not (failed a.ret)
      then finished (ok a) (c ∷ log)
      else if not (a.errno == eintr)
      then finished (err (raised a.errno)) (c ∷ log)
      else again

  -- `_seccomp_nr`
  unfoldable pub seccomp_nr : Result ℕ
  seccomp_nr = or_raise (lookup host.machine sys_seccomp) (unsupported_error none)

  -- `_pidfd_nr`
  unfoldable pub pidfd_nr : Result (ℕ × ℕ)
  pidfd_nr = or_raise (lookup host.machine sys_pidfd) (unsupported_error none)

  module _ (fuel : ℕ) where
    -- `_call`
    unfoldable pub call : ℕ → List Arg → Io Answer
    unfolding retry error_of
    call nr args = retry error_of fuel (syscall nr args)

    -- `_seccomp`
    unfoldable pub seccomp : ℕ → ℤ → Arg → Io Answer
    unfolding call seccomp_nr
    seccomp op flags uargs = do
      nr ← lift seccomp_nr
      call nr (int (pos op) ∷ int flags ∷ uargs ∷ [])

    -- `action_avail`; `c_uint32` keeps 32 bits of a number.
    unfoldable pub action_avail : ℤ → Io ℤ
    unfolding seccomp bytes_of wrap
    action_avail action = do
      a ← seccomp seccomp_get_action_avail (pos 0) (buffer (bytes_of 4 (wrap 32 action)))
      pure a.ret

    -- `probe_flag`
    unfoldable pub probe_flag : ℤ → Io Bool
    unfolding seccomp probed
    probe_flag flag = catch (seccomp seccomp_set_mode_filter flag null >>= λ a. pure true) probed

    -- `set_no_new_privs`
    unfoldable pub set_no_new_privs : Io (Unit {0})
    unfolding retry
    set_no_new_privs = do
      a ← retry seccomp_error fuel (prctl pr_set_no_new_privs (1 ∷ 0 ∷ 0 ∷ 0 ∷ []))
      pure tt

    -- `set_mode_filter`
    unfoldable pub set_mode_filter : List ℕ → ℕ → Io ℤ
    unfolding seccomp
    set_mode_filter program flags = do
      lift (
          raise_if (not (length program % 8 == 0) || length program == 0)
            (value_error program_not_whole))
      lift (raise_if (ltb max_insns (length program / 8)) (value_error program_too_long))
      a ← seccomp seccomp_set_mode_filter (pos flags) (fprog (length program / 8) program)
      pure a.ret

    -- `notif_sizes`: the three fields of the structure that the kernel fills.
    unfoldable pub notif_sizes : Io (List ℕ)
    unfolding seccomp fill fields
    notif_sizes = do
      a ← seccomp seccomp_get_notif_sizes (pos 0) (buffer (fill seccomp_notif_sizes []))
      pure (fields seccomp_notif_sizes a.out)

    -- `ioctl` on a structure.
    unfoldable pub ioctl_call : ℤ → ℕ → List ℕ → Io Answer
    unfolding retry error_of
    ioctl_call fd request arg = retry error_of fuel (ioctl fd request arg)

    -- `pidfd_open`
    unfoldable pub pidfd_open : ℤ → ℤ → Io ℤ
    unfolding call pidfd_nr
    pidfd_open pid flags = do
      lift (raise_if (not (in_range pid 0x7FFFFFFF)) (value_error pid_out_of_range))
      nrs ← lift pidfd_nr
      a ← call nrs.0 (int pid ∷ int flags ∷ [])
      pure a.ret

    -- `pidfd_getfd`
    unfoldable pub pidfd_getfd : ℤ → ℤ → ℤ → Io ℤ
    unfolding call pidfd_nr
    pidfd_getfd pidfd fd flags = do
      nrs ← lift pidfd_nr
      a ← call nrs.1 (int pidfd ∷ int fd ∷ int flags ∷ [])
      pure a.ret
