-- ===== src/Notify/Tests.antt =====
-- src/seccompy/notify.py at small inputs, and the theorems about it there.
use seccompy.Base.{replicate, ℕ, ◌≡◌, refl, true, false, List, [], ◌∷◌}
use seccompy.Base.Int.{pos}
use seccompy.Errors.{ok, err, runtime_error}
use seccompy.Kernel.{Host, Call, int, buffer, syscall, ioctl, Log, finished, perform, os_call}
use seccompy.Kernel
use seccompy.Kernel.Tests.{accepting}
use seccompy.Kernel.Only.{Adds}
use seccompy.Kernel.Retry.{Accepted}
use seccompy.Kernel.Calls.{
  retry, seccomp_nr, call, seccomp, notif_sizes, ioctl_call, seccomp_get_notif_sizes,
}
use seccompy.Kernel.Structs.{fill, fields, bytes_of, number_of, wrap}
use seccompy.Notify.{
  Notification, ioc, ioctl_notif_recv, ioctl_notif_send, ioctl_notif_id_valid, ioctl_notif_addfd,
  ioctl_notif_set_flags,
}
use seccompy.Notify.Listener
use seccompy.Notify.Listener.{
  recv, Listener, new_listener, sizes, respond, check_id, close_listener,
}
use seccompy.Notify.Messages.{IsResponse, respond-IsResponse}
use seccompy.Notify.Uses
use seccompy.Notify.Uses.{step, after}
use seccompy.Notify.Opening.{IsSyscall, Opening, new_listener-Opening}
use seccompy.Notify.Session.{
  closes, Session, opened, used, closed_listener_makes_no_call, Session-closed_once,
}

-- The requests of linux/seccomp.h.
recv_request : ioctl_notif_recv ≡ 0xC0502100
unfolding ioctl_notif_recv ioc
recv_request = refl

send_request : ioctl_notif_send ≡ 0xC0182101
unfolding ioctl_notif_send ioc
send_request = refl

id_valid_request : ioctl_notif_id_valid ≡ 0x40082102
unfolding ioctl_notif_id_valid ioc
id_valid_request = refl

addfd_request : ioctl_notif_addfd ≡ 0x40182103
unfolding ioctl_notif_addfd ioc
addfd_request = refl

set_flags_request : ioctl_notif_set_flags ≡ 0x40082104
unfolding ioctl_notif_set_flags ioc
set_flags_request = refl

-- A listener on the descriptor 3.
abbrev unclosed : Listener
unclosed = record { fd = pos 3; closed = false }

abbrev shut : Listener
shut = record { fd = pos 3; closed = true }

abbrev opening_log : Log
opening_log =
    Kernel.set_inheritable (pos 3) false
    ∷ syscall 317
        (int (pos seccomp_get_notif_sizes) ∷ int (pos 0) ∷ buffer (0 ∷ 0 ∷ 0 ∷ 0 ∷ 0 ∷ 0 ∷ []) ∷ [])
    ∷ []

new_listener_3 : new_listener accepting 1 (pos 3) [] ≡ finished (ok unclosed) opening_log
unfolding new_listener sizes notif_sizes seccomp call retry seccomp_nr fill fields bytes_of
    number_of os_call perform
new_listener_3 = refl

new_listener-Opening_example :
    (mid : Log) × Adds IsSyscall [] mid
    × Opening accepting 1 (pos 3) [] mid (ok unclosed) opening_log
new_listener-Opening_example =
    new_listener-Opening accepting 1 (pos 3) [] (ok unclosed) opening_log new_listener_3

recv_closed : step accepting 1 Uses.recv shut [] ≡ finished (err runtime_error) []
unfolding step Listener.recv Listener.ioctl
recv_closed = refl

closed_listener_makes_no_call_example :
    (◌≡◌ {A = Log} [] []) × (after shut (err runtime_error) ≡ shut)
closed_listener_makes_no_call_example =
    closed_listener_makes_no_call accepting 1 shut Uses.recv [] (err runtime_error) [] refl
      recv_closed

abbrev closed_log : Log
closed_log = Kernel.close (pos 3) ∷ opening_log

close_3 : step accepting 1 Uses.close unclosed opening_log ≡ finished (ok shut) closed_log
unfolding step close_listener os_call perform
close_3 = refl

exit_3 : step accepting 1 Uses.exit shut closed_log ≡ finished (ok shut) closed_log
unfolding step Listener.exit close_listener
exit_3 = refl

closed_twice : Session accepting 1 (pos 3) [] shut closed_log
closed_twice =
    used shut closed_log Uses.exit (ok shut) closed_log
      (used unclosed opening_log Uses.close (ok shut) closed_log
        (opened unclosed opening_log new_listener_3) close_3)
      exit_3

Session-closed_once_example : (pos 3 ≡ pos 3) × (closes accepting (pos 3) closed_log ≡ 1)
unfolding closes
Session-closed_once_example =
    Session-closed_once accepting 1 (pos 3) [] shut closed_log closed_twice

-- `respond(7, error=13)`
abbrev response : List ℕ
response =
    7 ∷ 0 ∷ 0 ∷ 0 ∷ 0 ∷ 0 ∷ 0 ∷ 0 ∷ 0 ∷ 0 ∷ 0 ∷ 0 ∷ 0 ∷ 0 ∷ 0 ∷ 0 ∷ 0xF3 ∷ 0xFF ∷ 0xFF ∷ 0xFF ∷ 0
    ∷ 0 ∷ 0 ∷ 0 ∷ []

abbrev sent_log : Log
sent_log = ioctl (pos 3) ioctl_notif_send response ∷ []

respond_eacces :
    respond accepting 1 unclosed (pos 7) (pos 13) (pos 0) (pos 0) [] ≡ finished (ok tt) sent_log
unfolding respond check_id Listener.ioctl ioctl_call retry fill bytes_of wrap ioctl_notif_send
respond_eacces = refl

respond-IsResponse_example :
    (false ≡ false)
    × ((bytes : List ℕ) × Accepted accepting (ioctl (pos 3) ioctl_notif_send bytes) [] sent_log
        × IsResponse (pos 7) (pos 13) (pos 0) (pos 0) bytes)
respond-IsResponse_example =
    respond-IsResponse accepting 1 unclosed (pos 7) (pos 13) (pos 0) (pos 0) [] sent_log
      respond_eacces

-- A target with thread id 9 waits with `read(7, 0, 64)` on x86-64.
abbrev notified : List ℕ
notified =
    5
    ∷ 0
    ∷ 0
    ∷ 0
    ∷ 0
    ∷ 0
    ∷ 0
    ∷ 0
    ∷ 9
    ∷ 0
    ∷ 0
    ∷ 0
    ∷ 0
    ∷ 0
    ∷ 0
    ∷ 0
    ∷ 0
    ∷ 0
    ∷ 0
    ∷ 0
    ∷ 0x3E
    ∷ 0
    ∷ 0
    ∷ 0xC0
    ∷ 0
    ∷ 0x10
    ∷ 0
    ∷ 0
    ∷ 0
    ∷ 0
    ∷ 0
    ∷ 0
    ∷ 7
    ∷ 0
    ∷ 0
    ∷ 0
    ∷ 0
    ∷ 0
    ∷ 0
    ∷ 0
    ∷ 0
    ∷ 0
    ∷ 0
    ∷ 0
    ∷ 0
    ∷ 0
    ∷ 0
    ∷ 0
    ∷ 64
    ∷ replicate 31 0

abbrev notifying : Host
notifying = record {
  machine = "x86_64";
  is_linux = true;
  answer = λ log c. record { ret = pos 0; errno = 0; out = notified };
}

abbrev notification : Notification
notification = record {
  id = 5;
  pid = 9;
  flags = 0;
  nr = pos 0;
  arch = 0xC000003E;
  instruction_pointer = 0x1000;
  args = 7 ∷ 0 ∷ 64 ∷ 0 ∷ 0 ∷ 0 ∷ [];
}
