-- ===== src/Notify/Seen.antt =====
-- src/seccompy/notify.py: `recv` reads of a notification what a filter reads of the same system call.
use seccompy.Base.{ℕ, ◌+◌, ◌*◌, ◌^◌, List, [], ◌∷◌, map, drop, replicate}
use seccompy.Bpf.Machine.{word}
use seccompy.Kernel.{Call, ioctl}
use seccompy.Kernel.Structs.{number_of, signed}
use seccompy.Filter.Spec.{argument}
use seccompy.Notify.{Notification}
use seccompy.Notify.Listener
use seccompy.Notify.Listener.{Listener}

-- The number in 8 bytes is a double word, the low word first.
unfoldable pub double_word : List ℕ → ℕ → ℕ
double_word bs k = word bs k + 2 ^ 32 * word bs (k + 4)

-- The fields from an offset on.
fields_at : List ℕ → ℕ → List ℕ → List ℕ
fields_at [] k bs = []
fields_at (w ∷ ws) k bs = number_of w (drop k bs) ∷ fields_at ws (k + w) bs

-- The notification in the bytes of a `struct seccomp_notif`: its id, the target and flags stand in
-- the first 16, and behind them is the `struct seccomp_data` that the filter was run on.
unfoldable pub seen : List ℕ → Notification
unfolding double_word signed argument
seen bytes =
    let packet = drop 16 bytes in
    record {
      id = double_word bytes 0;
      pid = word bytes 8;
      flags = word bytes 12;
      nr = signed 32 (word packet 0);
      arch = word packet 4;
      instruction_pointer = double_word packet 8;
      args = map (argument packet) (0 ∷ 1 ∷ 2 ∷ 3 ∷ 4 ∷ 5 ∷ []);
    }

-- SECCOMP_IOCTL_NOTIF_RECV of linux/seccomp.h with a `struct seccomp_notif` of zeros.
abbrev pub recv_call : Listener → Call
recv_call l = ioctl l.fd 0xC0502100 (replicate 80 0)
