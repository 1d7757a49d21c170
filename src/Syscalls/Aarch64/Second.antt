-- ===== src/Syscalls/Aarch64/Second.antt =====
-- src/seccompy/syscalls.py: `AARCH64_SYSCALLS`, its middle.
use seccompy.Base.{ℕ, [], ◌∷◌, Dict}
use Prim.Native.String.{String}

abbrev pub second_part : Dict String ℕ
second_part =
    ("ptrace", 117)
    ∷ ("sched_setparam", 118)
    ∷ ("sched_setscheduler", 119)
    ∷ ("sched_getscheduler", 120)
    ∷ ("sched_getparam", 121)
    ∷ ("sched_setaffinity", 122)
    ∷ ("sched_getaffinity", 123)
    ∷ ("sched_yield", 124)
    ∷ ("sched_get_priority_max", 125)
    ∷ ("sched_get_priority_min", 126)
    ∷ ("sched_rr_get_interval", 127)
    ∷ ("restart_syscall", 128)
    ∷ ("kill", 129)
    ∷ ("tkill", 130)
    ∷ ("tgkill", 131)
    ∷ ("sigaltstack", 132)
    ∷ ("rt_sigsuspend", 133)
    ∷ ("rt_sigaction", 134)
    ∷ ("rt_sigprocmask", 135)
    ∷ ("rt_sigpending", 136)
    ∷ ("rt_sigtimedwait", 137)
    ∷ ("rt_sigqueueinfo", 138)
    ∷ ("rt_sigreturn", 139)
    ∷ ("setpriority", 140)
    ∷ ("getpriority", 141)
    ∷ ("reboot", 142)
    ∷ ("setregid", 143)
    ∷ ("setgid", 144)
    ∷ ("setreuid", 145)
    ∷ ("setuid", 146)
    ∷ ("setresuid", 147)
    ∷ ("getresuid", 148)
    ∷ ("setresgid", 149)
    ∷ ("getresgid", 150)
    ∷ ("setfsuid", 151)
    ∷ ("setfsgid", 152)
    ∷ ("times", 153)
    ∷ ("setpgid", 154)
    ∷ ("getpgid", 155)
    ∷ ("getsid", 156)
    ∷ ("setsid", 157)
    ∷ ("getgroups", 158)
    ∷ ("setgroups", 159)
    ∷ ("uname", 160)
    ∷ ("sethostname", 161)
    ∷ ("setdomainname", 162)
    ∷ ("getrlimit", 163)
    ∷ ("setrlimit", 164)
    ∷ ("getrusage", 165)
    ∷ ("umask", 166)
    ∷ ("prctl", 167)
    ∷ ("getcpu", 168)
    ∷ ("gettimeofday", 169)
    ∷ ("settimeofday", 170)
    ∷ ("adjtimex", 171)
    ∷ ("getpid", 172)
    ∷ ("getppid", 173)
    ∷ ("getuid", 174)
    ∷ ("geteuid", 175)
    ∷ ("getgid", 176)
    ∷ ("getegid", 177)
    ∷ ("gettid", 178)
    ∷ ("sysinfo", 179)
    ∷ ("mq_open", 180)
    ∷ ("mq_unlink", 181)
    ∷ ("mq_timedsend", 182)
    ∷ ("mq_timedreceive", 183)
    ∷ ("mq_notify", 184)
    ∷ ("mq_getsetattr", 185)
    ∷ ("msgget", 186)
    ∷ ("msgctl", 187)
    ∷ ("msgrcv", 188)
    ∷ ("msgsnd", 189)
    ∷ ("semget", 190)
    ∷ ("semctl", 191)
    ∷ ("semtimedop", 192)
    ∷ ("semop", 193)
    ∷ ("shmget", 194)
    ∷ ("shmctl", 195)
    ∷ ("shmat", 196)
    ∷ ("shmdt", 197)
    ∷ ("socket", 198)
    ∷ ("socketpair", 199)
    ∷ ("bind", 200)
    ∷ ("listen", 201)
    ∷ ("accept", 202)
    ∷ ("connect", 203)
    ∷ ("getsockname", 204)
    ∷ ("getpeername", 205)
    ∷ ("sendto", 206)
    ∷ ("recvfrom", 207)
    ∷ ("setsockopt", 208)
    ∷ ("getsockopt", 209)
    ∷ ("shutdown", 210)
    ∷ ("sendmsg", 211)
    ∷ ("recvmsg", 212)
    ∷ ("readahead", 213)
    ∷ ("brk", 214)
    ∷ ("munmap", 215)
    ∷ ("mremap", 216)
    ∷ ("add_key", 217)
    ∷ ("request_key", 218)
    ∷ ("keyctl", 219)
    ∷ ("clone", 220)
    ∷ ("execve", 221)
    ∷ ("mmap", 222)
    ∷ ("mmap2", 222)
    ∷ ("fadvise64", 223)
    ∷ ("fadvise64_64", 223)
    ∷ ("swapon", 224)
    ∷ ("swapoff", 225)
    ∷ ("mprotect", 226)
    ∷ ("msync", 227)
    ∷ ("mlock", 228)
    ∷ ("munlock", 229)
    ∷ ("mlockall", 230)
    ∷ ("munlockall", 231)
    ∷ ("mincore", 232)
    ∷ ("madvise", 233)
    ∷ ("remap_file_pages", 234)
    ∷ ("mbind", 235)
    ∷ ("get_mempolicy", 236)
    ∷ ("set_mempolicy", 237)
    ∷ ("migrate_pages", 238)
    ∷ ("move_pages", 239)
    ∷ ("rt_tgsigqueueinfo", 240)
    ∷ ("perf_event_open", 241)
    ∷ ("accept4", 242)
    ∷ []
