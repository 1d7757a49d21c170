-- ===== src/Syscalls/Aarch64/First.antt =====
-- src/seccompy/syscalls.py: `AARCH64_SYSCALLS`, from its start.
use seccompy.Base.{ℕ, [], ◌∷◌, Dict}
use Prim.Native.String.{String}

abbrev pub first_part : Dict String ℕ
first_part =
    ("io_setup", 0)
    ∷ ("io_destroy", 1)
    ∷ ("io_submit", 2)
    ∷ ("io_cancel", 3)
    ∷ ("io_getevents", 4)
    ∷ ("setxattr", 5)
    ∷ ("lsetxattr", 6)
    ∷ ("fsetxattr", 7)
    ∷ ("getxattr", 8)
    ∷ ("lgetxattr", 9)
    ∷ ("fgetxattr", 10)
    ∷ ("listxattr", 11)
    ∷ ("llistxattr", 12)
    ∷ ("flistxattr", 13)
    ∷ ("removexattr", 14)
    ∷ ("lremovexattr", 15)
    ∷ ("fremovexattr", 16)
    ∷ ("getcwd", 17)
    ∷ ("lookup_dcookie", 18)
    ∷ ("eventfd2", 19)
    ∷ ("epoll_create1", 20)
    ∷ ("epoll_ctl", 21)
    ∷ ("epoll_pwait", 22)
    ∷ ("dup", 23)
    ∷ ("dup3", 24)
    ∷ ("fcntl", 25)
    ∷ ("fcntl64", 25)
    ∷ ("inotify_init1", 26)
    ∷ ("inotify_add_watch", 27)
    ∷ ("inotify_rm_watch", 28)
    ∷ ("ioctl", 29)
    ∷ ("ioprio_set", 30)
    ∷ ("ioprio_get", 31)
    ∷ ("flock", 32)
    ∷ ("mknodat", 33)
    ∷ ("mkdirat", 34)
    ∷ ("unlinkat", 35)
    ∷ ("symlinkat", 36)
    ∷ ("linkat", 37)
    ∷ ("renameat", 38)
    ∷ ("umount2", 39)
    ∷ ("mount", 40)
    ∷ ("pivot_root", 41)
    ∷ ("nfsservctl", 42)
    ∷ ("statfs", 43)
    ∷ ("statfs64", 43)
    ∷ ("fstatfs", 44)
    ∷ ("fstatfs64", 44)
    ∷ ("truncate", 45)
    ∷ ("truncate64", 45)
    ∷ ("ftruncate", 46)
    ∷ ("ftruncate64", 46)
    ∷ ("fallocate", 47)
    ∷ ("faccessat", 48)
    ∷ ("chdir", 49)
    ∷ ("fchdir", 50)
    ∷ ("chroot", 51)
    ∷ ("fchmod", 52)
    ∷ ("fchmodat", 53)
    ∷ ("fchownat", 54)
    ∷ ("fchown", 55)
    ∷ ("openat", 56)
    ∷ ("close", 57)
    ∷ ("vhangup", 58)
    ∷ ("pipe2", 59)
    ∷ ("quotactl", 60)
    ∷ ("getdents64", 61)
    ∷ ("lseek", 62)
    ∷ ("llseek", 62)
    ∷ ("read", 63)
    ∷ ("write", 64)
    ∷ ("readv", 65)
    ∷ ("writev", 66)
    ∷ ("pread64", 67)
    ∷ ("pwrite64", 68)
    ∷ ("preadv", 69)
    ∷ ("pwritev", 70)
    ∷ ("sendfile", 71)
    ∷ ("sendfile64", 71)
    ∷ ("pselect6", 72)
    ∷ ("ppoll", 73)
    ∷ ("signalfd4", 74)
    ∷ ("vmsplice", 75)
    ∷ ("splice", 76)
    ∷ ("tee", 77)
    ∷ ("readlinkat", 78)
    ∷ ("fstatat", 79)
    ∷ ("newfstatat", 79)
    ∷ ("fstatat64", 79)
    ∷ ("fstat", 80)
    ∷ ("fstat64", 80)
    ∷ ("sync", 81)
    ∷ ("fsync", 82)
    ∷ ("fdatasync", 83)
    ∷ ("sync_file_range2", 84)
    ∷ ("sync_file_range", 84)
    ∷ ("timerfd_create", 85)
    ∷ ("timerfd_settime", 86)
    ∷ ("timerfd_gettime", 87)
    ∷ ("utimensat", 88)
    ∷ ("acct", 89)
    ∷ ("capget", 90)
    ∷ ("capset", 91)
    ∷ ("personality", 92)
    ∷ ("exit", 93)
    ∷ ("exit_group", 94)
    ∷ ("waitid", 95)
    ∷ ("set_tid_address", 96)
    ∷ ("unshare", 97)
    ∷ ("futex", 98)
    ∷ ("set_robust_list", 99)
    ∷ ("get_robust_list", 100)
    ∷ ("nanosleep", 101)
    ∷ ("getitimer", 102)
    ∷ ("setitimer", 103)
    ∷ ("kexec_load", 104)
    ∷ ("init_module", 105)
    ∷ ("delete_module", 106)
    ∷ ("timer_create", 107)
    ∷ ("timer_gettime", 108)
    ∷ ("timer_getoverrun", 109)
    ∷ ("timer_settime", 110)
    ∷ ("timer_delete", 111)
    ∷ ("clock_settime", 112)
    ∷ ("clock_gettime", 113)
    ∷ ("clock_getres", 114)
    ∷ ("clock_nanosleep", 115)
    ∷ ("syslog", 116)
    ∷ []
