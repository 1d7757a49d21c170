-- ===== src/Syscalls/Aarch64/Third.antt =====
-- src/seccompy/syscalls.py: `AARCH64_SYSCALLS`, to its end.
use seccompy.Base.{ℕ, [], ◌∷◌, Dict}
use Prim.Native.String.{String}

abbrev pub third_part : Dict String ℕ
third_part =
    ("recvmmsg", 243)
    ∷ ("wait4", 260)
    ∷ ("prlimit64", 261)
    ∷ ("fanotify_init", 262)
    ∷ ("fanotify_mark", 263)
    ∷ ("name_to_handle_at", 264)
    ∷ ("open_by_handle_at", 265)
    ∷ ("clock_adjtime", 266)
    ∷ ("syncfs", 267)
    ∷ ("setns", 268)
    ∷ ("sendmmsg", 269)
    ∷ ("process_vm_readv", 270)
    ∷ ("process_vm_writev", 271)
    ∷ ("kcmp", 272)
    ∷ ("finit_module", 273)
    ∷ ("sched_setattr", 274)
    ∷ ("sched_getattr", 275)
    ∷ ("renameat2", 276)
    ∷ ("seccomp", 277)
    ∷ ("getrandom", 278)
    ∷ ("memfd_create", 279)
    ∷ ("bpf", 280)
    ∷ ("execveat", 281)
    ∷ ("userfaultfd", 282)
    ∷ ("membarrier", 283)
    ∷ ("mlock2", 284)
    ∷ ("copy_file_range", 285)
    ∷ ("preadv2", 286)
    ∷ ("pwritev2", 287)
    ∷ ("pkey_mprotect", 288)
    ∷ ("pkey_alloc", 289)
    ∷ ("pkey_free", 290)
    ∷ ("statx", 291)
    ∷ ("io_pgetevents", 292)
    ∷ ("rseq", 293)
    ∷ ("kexec_file_load", 294)
    ∷ ("clock_gettime64", 403)
    ∷ ("clock_settime64", 404)
    ∷ ("clock_adjtime64", 405)
    ∷ ("clock_getres_time64", 406)
    ∷ ("clock_nanosleep_time64", 407)
    ∷ ("timer_gettime64", 408)
    ∷ ("timer_settime64", 409)
    ∷ ("timerfd_gettime64", 410)
    ∷ ("timerfd_settime64", 411)
    ∷ ("utimensat_time64", 412)
    ∷ ("pselect6_time64", 413)
    ∷ ("ppoll_time64", 414)
    ∷ ("io_pgetevents_time64", 416)
    ∷ ("recvmmsg_time64", 417)
    ∷ ("mq_timedsend_time64", 418)
    ∷ ("mq_timedreceive_time64", 419)
    ∷ ("semtimedop_time64", 420)
    ∷ ("rt_sigtimedwait_time64", 421)
    ∷ ("futex_time64", 422)
    ∷ ("sched_rr_get_interval_time64", 423)
    ∷ ("pidfd_send_signal", 424)
    ∷ ("io_uring_setup", 425)
    ∷ ("io_uring_enter", 426)
    ∷ ("io_uring_register", 427)
    ∷ ("open_tree", 428)
    ∷ ("move_mount", 429)
    ∷ ("fsopen", 430)
    ∷ ("fsconfig", 431)
    ∷ ("fsmount", 432)
    ∷ ("fspick", 433)
    ∷ ("pidfd_open", 434)
    ∷ ("clone3", 435)
    ∷ ("close_range", 436)
    ∷ ("openat2", 437)
    ∷ ("pidfd_getfd", 438)
    ∷ ("faccessat2", 439)
    ∷ ("process_madvise", 440)
    ∷ ("epoll_pwait2", 441)
    ∷ ("mount_setattr", 442)
    ∷ ("quotactl_fd", 443)
    ∷ ("landlock_create_ruleset", 444)
    ∷ ("landlock_add_rule", 445)
    ∷ ("landlock_restrict_self", 446)
    ∷ ("process_mrelease", 448)
    ∷ ("futex_waitv", 449)
    ∷ ("set_mempolicy_home_node", 450)
    ∷ ("cachestat", 451)
    ∷ ("fchmodat2", 452)
    ∷ ("map_shadow_stack", 453)
    ∷ ("futex_wake", 454)
    ∷ ("futex_wait", 455)
    ∷ ("futex_requeue", 456)
    ∷ ("statmount", 457)
    ∷ ("listmount", 458)
    ∷ ("lsm_get_self_attr", 459)
    ∷ ("lsm_set_self_attr", 460)
    ∷ ("lsm_list_modules", 461)
    ∷ ("mseal", 462)
    ∷ ("setxattrat", 463)
    ∷ ("getxattrat", 464)
    ∷ ("listxattrat", 465)
    ∷ ("removexattrat", 466)
    ∷ ("open_tree_attr", 467)
    ∷ ("file_getattr", 468)
    ∷ ("file_setattr", 469)
    ∷ ("listns", 470)
    ∷ ("rseq_slice_yield", 471)
    ∷ []
