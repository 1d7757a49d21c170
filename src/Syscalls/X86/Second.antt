-- ===== src/Syscalls/X86/Second.antt =====
-- src/seccompy/syscalls.py: `X86_64_SYSCALLS`, its middle.
use seccompy.Base.{ℕ, [], ◌∷◌, Dict}
use Prim.Native.String.{String}

abbrev pub second_part : Dict String ℕ
second_part =
    ("rt_sigtimedwait", 128)
    ∷ ("rt_sigqueueinfo", 129)
    ∷ ("rt_sigsuspend", 130)
    ∷ ("sigaltstack", 131)
    ∷ ("utime", 132)
    ∷ ("mknod", 133)
    ∷ ("uselib", 134)
    ∷ ("personality", 135)
    ∷ ("ustat", 136)
    ∷ ("statfs", 137)
    ∷ ("fstatfs", 138)
    ∷ ("sysfs", 139)
    ∷ ("getpriority", 140)
    ∷ ("setpriority", 141)
    ∷ ("sched_setparam", 142)
    ∷ ("sched_getparam", 143)
    ∷ ("sched_setscheduler", 144)
    ∷ ("sched_getscheduler", 145)
    ∷ ("sched_get_priority_max", 146)
    ∷ ("sched_get_priority_min", 147)
    ∷ ("sched_rr_get_interval", 148)
    ∷ ("mlock", 149)
    ∷ ("munlock", 150)
    ∷ ("mlockall", 151)
    ∷ ("munlockall", 152)
    ∷ ("vhangup", 153)
    ∷ ("modify_ldt", 154)
    ∷ ("pivot_root", 155)
    ∷ ("_sysctl", 156)
    ∷ ("prctl", 157)
    ∷ ("arch_prctl", 158)
    ∷ ("adjtimex", 159)
    ∷ ("setrlimit", 160)
    ∷ ("chroot", 161)
    ∷ ("sync", 162)
    ∷ ("acct", 163)
    ∷ ("settimeofday", 164)
    ∷ ("mount", 165)
    ∷ ("umount2", 166)
    ∷ ("swapon", 167)
    ∷ ("swapoff", 168)
    ∷ ("reboot", 169)
    ∷ ("sethostname", 170)
    ∷ ("setdomainname", 171)
    ∷ ("iopl", 172)
    ∷ ("ioperm", 173)
    ∷ ("create_module", 174)
    ∷ ("init_module", 175)
    ∷ ("delete_module", 176)
    ∷ ("get_kernel_syms", 177)
    ∷ ("query_module", 178)
    ∷ ("quotactl", 179)
    ∷ ("nfsservctl", 180)
    ∷ ("getpmsg", 181)
    ∷ ("putpmsg", 182)
    ∷ ("afs_syscall", 183)
    ∷ ("tuxcall", 184)
    ∷ ("security", 185)
    ∷ ("gettid", 186)
    ∷ ("readahead", 187)
    ∷ ("setxattr", 188)
    ∷ ("lsetxattr", 189)
    ∷ ("fsetxattr", 190)
    ∷ ("getxattr", 191)
    ∷ ("lgetxattr", 192)
    ∷ ("fgetxattr", 193)
    ∷ ("listxattr", 194)
    ∷ ("llistxattr", 195)
    ∷ ("flistxattr", 196)
    ∷ ("removexattr", 197)
    ∷ ("lremovexattr", 198)
    ∷ ("fremovexattr", 199)
    ∷ ("tkill", 200)
    ∷ ("time", 201)
    ∷ ("futex", 202)
    ∷ ("sched_setaffinity", 203)
    ∷ ("sched_getaffinity", 204)
    ∷ ("set_thread_area", 205)
    ∷ ("io_setup", 206)
    ∷ ("io_destroy", 207)
    ∷ ("io_getevents", 208)
    ∷ ("io_submit", 209)
    ∷ ("io_cancel", 210)
    ∷ ("get_thread_area", 211)
    ∷ ("lookup_dcookie", 212)
    ∷ ("epoll_create", 213)
    ∷ ("epoll_ctl_old", 214)
    ∷ ("epoll_wait_old", 215)
    ∷ ("remap_file_pages", 216)
    ∷ ("getdents64", 217)
    ∷ ("set_tid_address", 218)
    ∷ ("restart_syscall", 219)
    ∷ ("semtimedop", 220)
    ∷ ("fadvise64", 221)
    ∷ ("timer_create", 222)
    ∷ ("timer_settime", 223)
    ∷ ("timer_gettime", 224)
    ∷ ("timer_getoverrun", 225)
    ∷ ("timer_delete", 226)
    ∷ ("clock_settime", 227)
    ∷ ("clock_gettime", 228)
    ∷ ("clock_getres", 229)
    ∷ ("clock_nanosleep", 230)
    ∷ ("exit_group", 231)
    ∷ ("epoll_wait", 232)
    ∷ ("epoll_ctl", 233)
    ∷ ("tgkill", 234)
    ∷ ("utimes", 235)
    ∷ ("vserver", 236)
    ∷ ("mbind", 237)
    ∷ ("set_mempolicy", 238)
    ∷ ("get_mempolicy", 239)
    ∷ ("mq_open", 240)
    ∷ ("mq_unlink", 241)
    ∷ ("mq_timedsend", 242)
    ∷ ("mq_timedreceive", 243)
    ∷ ("mq_notify", 244)
    ∷ ("mq_getsetattr", 245)
    ∷ ("kexec_load", 246)
    ∷ ("waitid", 247)
    ∷ ("add_key", 248)
    ∷ ("request_key", 249)
    ∷ ("keyctl", 250)
    ∷ ("ioprio_set", 251)
    ∷ ("ioprio_get", 252)
    ∷ ("inotify_init", 253)
    ∷ ("inotify_add_watch", 254)
    ∷ ("inotify_rm_watch", 255)
    ∷ []
