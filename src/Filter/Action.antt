-- ===== src/Filter/Action.antt =====
-- src/seccompy/filter.py: `Action`, whose member `KILL` is another name of `KILL_THREAD`.
use seccompy.Base.{ℕ}

abbrev pub kill_process : ℕ
kill_process = 0x80000000

abbrev pub kill_thread : ℕ
kill_thread = 0x00000000

abbrev pub trap : ℕ
trap = 0x00030000

abbrev pub errno : ℕ
errno = 0x00050000

abbrev pub user_notif : ℕ
user_notif = 0x7FC00000

abbrev pub trace : ℕ
trace = 0x7FF00000

abbrev pub log : ℕ
log = 0x7FFC0000

abbrev pub allow : ℕ
allow = 0x7FFF0000
