-- ===== src/Notify.antt =====
-- src/seccompy/notify.py: the supervisor's side of user notifications. This module has the ioctl
-- requests, the flags and the records.
pub mod Listener
pub mod Messages
pub mod Seen
pub mod Uses
pub mod Quiet
pub mod Lifecycle
pub mod Opening
pub mod Session
mod Tests
use seccompy.Base.{ℕ, ◌+◌, ◌*◌, ◌^◌, Bool, true, false, not, ◌&&◌, List, [], ◌∷◌, bit_or, ◌==◌}
use seccompy.Base.Int.{ℤ}
use seccompy.Kernel.Structs.{
  sizeof, seccomp_data, seccomp_notif, seccomp_notif_resp, seccomp_notif_addfd,
}

abbrev pub ioc_write : ℕ
ioc_write = 1

abbrev pub ioc_read : ℕ
ioc_read = 2

-- `ord("!")`
abbrev pub ioc_magic : ℕ
ioc_magic = 33

-- `_ioc`; a shift to the left is a multiplication.
unfoldable pub ioc : ℕ → ℕ → ℕ → ℕ
ioc direction nr size =
    bit_or (bit_or (bit_or (direction * 2 ^ 30) (size * 2 ^ 16)) (ioc_magic * 2 ^ 8)) nr

unfoldable pub ioctl_notif_recv : ℕ
unfolding ioc
ioctl_notif_recv = ioc (bit_or ioc_read ioc_write) 0 (sizeof seccomp_notif)

unfoldable pub ioctl_notif_send : ℕ
unfolding ioc
ioctl_notif_send = ioc (bit_or ioc_read ioc_write) 1 (sizeof seccomp_notif_resp)

unfoldable pub ioctl_notif_id_valid : ℕ
unfolding ioc
ioctl_notif_id_valid = ioc ioc_write 2 (sizeof (8 ∷ []))

unfoldable pub ioctl_notif_addfd : ℕ
unfolding ioc
ioctl_notif_addfd = ioc ioc_write 3 (sizeof seccomp_notif_addfd)

unfoldable pub ioctl_notif_set_flags : ℕ
unfolding ioc
ioctl_notif_set_flags = ioc ioc_write 4 (sizeof (8 ∷ []))

abbrev pub max_errno : ℕ
max_errno = 4095

abbrev pub u64_max : ℕ
u64_max = 0xFFFFFFFFFFFFFFFF

-- `RespFlag.CONTINUE`, `AddFdFlag.SETFD` and `os.O_CLOEXEC`
abbrev pub resp_continue : ℕ
resp_continue = 1

abbrev pub addfd_setfd : ℕ
addfd_setfd = 1

abbrev pub o_cloexec : ℕ
o_cloexec = 0x80000

pub record NotifSizes : Type 0 where
  pub notif : ℕ
  pub notif_resp : ℕ
  pub data_size : ℕ

-- `_EXPECTED_SIZES`
abbrev pub expected_sizes : NotifSizes
expected_sizes = record {
  notif = sizeof seccomp_notif;
  notif_resp = sizeof seccomp_notif_resp;
  data_size = sizeof seccomp_data;
}

-- `==` of two `NotifSizes`.
abbrev pub same_sizes : NotifSizes → NotifSizes → Bool
same_sizes a b = a.notif == b.notif && (a.notif_resp == b.notif_resp && a.data_size == b.data_size)

pub record Notification : Type 0 where
  pub id : ℕ
  pub pid : ℕ
  pub flags : ℕ
  pub nr : ℤ
  pub arch : ℕ
  pub instruction_pointer : ℕ
  pub args : List ℕ
