-- ===== src/Syscalls/X86/Third.antt =====
-- src/seccompy/syscalls.py: `X86_64_SYSCALLS`, to its end.
use seccompy.Base.{ℕ, [], ◌∷◌, Dict}
use Prim.Native.String.{String}

abbrev pub third_part : Dict String ℕ
third_part =
    ("migrate_pages", 256)
    ∷ ("openat", 257)
    ∷ ("mkdirat", 258)
    ∷ ("mknodat", 259)
    ∷ ("fchownat", 260)
    ∷ ("futimesat", 261)
    ∷ ("newfstatat", 262)
    ∷ ("unlinkat", 263)
    ∷ ("renameat", 264)
    ∷ ("linkat", 265)
    ∷ ("symlinkat", 266)
    ∷ ("readlinkat", 267)
    ∷ ("fchmodat", 268)
    ∷ ("faccessat", 269)
    ∷ ("pselect6", 270)
    ∷ ("ppoll", 271)
    ∷ ("unshare", 272)
    ∷ ("set_robust_list", 273)
    ∷ ("get_robust_list", 274)
    ∷ ("splice", 275)
    ∷ ("tee", 276)
    ∷ ("sync_file_range", 277)
    ∷ ("vmsplice", 278)
    ∷ ("move_pages", 279)
    ∷ ("utimensat", 280)
    ∷ ("epoll_pwait", 281)
    ∷ ("signalfd", 282)
    ∷ ("timerfd_create", 283)
    ∷ ("eventfd", 284)
    ∷ ("fallocate", 285)
    ∷ ("timerfd_settime", 286)
    ∷ ("timerfd_gettime", 287)
    ∷ ("accept4", 288)
    ∷ ("signalfd4", 289)
    ∷ ("eventfd2", 290)
    ∷ ("epoll_create1", 291)
    ∷ ("dup3", 292)
    ∷ ("pipe2", 293)
    ∷ ("inotify_init1", 294)
    ∷ ("preadv", 295)
    ∷ ("pwritev", 296)
    ∷ ("rt_tgsigqueueinfo", 297)
    ∷ ("perf_event_open", 298)
    ∷ ("recvmmsg", 299)
    ∷ ("fanotify_init", 300)
    ∷ ("fanotify_mark", 301)
    ∷ ("prlimit64", 302)
    ∷ ("name_to_handle_at", 303)
    ∷ ("open_by_handle_at", 304)
    ∷ ("clock_adjtime", 305)
    ∷ ("syncfs", 306)
    ∷ ("sendmmsg", 307)
    ∷ ("setns", 308)
    ∷ ("getcpu", 309)
    ∷ ("process_vm_readv", 310)
    ∷ ("process_vm_writev", 311)
    ∷ ("kcmp", 312)
    ∷ ("finit_module", 313)
    ∷ ("sched_setattr", 314)
    ∷ ("sched_getattr", 315)
    ∷ ("renameat2", 316)
    ∷ ("seccomp", 317)
    ∷ ("getrandom", 318)
    ∷ ("memfd_create", 319)
    ∷ ("kexec_file_load", 320)
    ∷ ("bpf", 321)
    ∷ ("execveat", 322)
    ∷ ("userfaultfd", 323)
    ∷ ("membarrier", 324)
    ∷ ("mlock2", 325)
    ∷ ("copy_file_range", 326)
    ∷ ("preadv2", 327)
    ∷ ("pwritev2", 328)
    ∷ ("pkey_mprotect", 329)
    ∷ ("pkey_alloc", 330)
    ∷ ("pkey_free", 331)
    ∷ ("statx", 332)
    ∷ ("io_pgetevents", 333)
    ∷ ("rseq", 334)
    ∷ ("uretprobe", 335)
    ∷ ("uprobe", 336)
    ∷ ("pidfd_send_signal", 424)
    ∷ ("io_uring_setup", 425)
    ∷ ("io_uring_enter", 426)
    ∷ ("io_uring_register", 427)
    ∷ ("open_tree", 428)
    ∷ ("move_mount", 429)
    ∷ ("fsopen", 430)
    ∷ ("fsconfig", 431)
    ∷ ("fsmount", 432)
    ∷ ("fspick", 433)
    ∷ ("pidfd_open", 434)
    ∷ ("clone3", 435)
    ∷ ("close_range", 436)
    ∷ ("openat2", 437)
    ∷ ("pidfd_getfd", 438)
    ∷ ("faccessat2", 439)
    ∷ ("process_madvise", 440)
    ∷ ("epoll_pwait2", 441)
    ∷ ("mount_setattr", 442)
    ∷ ("quotactl_fd", 443)
    ∷ ("landlock_create_ruleset", 444)
    ∷ ("landlock_add_rule", 445)
    ∷ ("landlock_restrict_self", 446)
    ∷ ("process_mrelease", 448)
    ∷ ("futex_waitv", 449)
    ∷ ("set_mempolicy_home_node", 450)
    ∷ ("cachestat", 451)
    ∷ ("fchmodat2", 452)
    ∷ ("map_shadow_stack", 453)
    ∷ ("futex_wake", 454)
    ∷ ("futex_wait", 455)
    ∷ ("futex_requeue", 456)
    ∷ ("statmount", 457)
    ∷ ("listmount", 458)
    ∷ ("lsm_get_self_attr", 459)
    ∷ ("lsm_set_self_attr", 460)
    ∷ ("lsm_list_modules", 461)
    ∷ ("mseal", 462)
    ∷ ("setxattrat", 463)
    ∷ ("getxattrat", 464)
    ∷ ("listxattrat", 465)
    ∷ ("removexattrat", 466)
    ∷ ("open_tree_attr", 467)
    ∷ ("file_getattr", 468)
    ∷ ("file_setattr", 469)
    ∷ ("listns", 470)
    ∷ ("rseq_slice_yield", 471)
    ∷ []
