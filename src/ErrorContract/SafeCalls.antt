-- ===== src/ErrorContract/SafeCalls.antt =====
-- components/error-contract/src/contract.c: the calls that a signal handler may make.
use p101_audit.Base.{Bool, List, [], ◌∷◌}
use p101_audit.Base.Text.{Text, codes, str_eq}
use p101_audit.Base.Scan.{any}

unfoldable pub safe_calls : List Text
safe_calls =
    codes "c:@F@_Exit"
    ∷ codes "c:@F@_Fork"
    ∷ codes "c:@F@_exit"
    ∷ codes "c:@F@abort"
    ∷ codes "c:@F@accept"
    ∷ codes "c:@F@accept4"
    ∷ codes "c:@F@access"
    ∷ codes "c:@F@aio_error"
    ∷ codes "c:@F@aio_return"
    ∷ codes "c:@F@aio_suspend"
    ∷ codes "c:@F@alarm"
    ∷ codes "c:@F@be16toh"
    ∷ codes "c:@F@be32toh"
    ∷ codes "c:@F@be64toh"
    ∷ codes "c:@F@bind"
    ∷ codes "c:@F@cfgetispeed"
    ∷ codes "c:@F@cfgetospeed"
    ∷ codes "c:@F@cfsetispeed"
    ∷ codes "c:@F@cfsetospeed"
    ∷ codes "c:@F@chdir"
    ∷ codes "c:@F@chmod"
    ∷ codes "c:@F@chown"
    ∷ codes "c:@F@clock_gettime"
    ∷ codes "c:@F@close"
    ∷ codes "c:@F@connect"
    ∷ codes "c:@F@creat"
    ∷ codes "c:@F@dup"
    ∷ codes "c:@F@dup2"
    ∷ codes "c:@F@dup3"
    ∷ codes "c:@F@execl"
    ∷ codes "c:@F@execle"
    ∷ codes "c:@F@execv"
    ∷ codes "c:@F@execve"
    ∷ codes "c:@F@faccessat"
    ∷ codes "c:@F@fchdir"
    ∷ codes "c:@F@fchmod"
    ∷ codes "c:@F@fchmodat"
    ∷ codes "c:@F@fchown"
    ∷ codes "c:@F@fchownat"
    ∷ codes "c:@F@fcntl"
    ∷ codes "c:@F@fdatasync"
    ∷ codes "c:@F@fexecve"
    ∷ codes "c:@F@ffs"
    ∷ codes "c:@F@fstat"
    ∷ codes "c:@F@fstatat"
    ∷ codes "c:@F@fsync"
    ∷ codes "c:@F@ftruncate"
    ∷ codes "c:@F@futimens"
    ∷ codes "c:@F@getegid"
    ∷ codes "c:@F@geteuid"
    ∷ codes "c:@F@getgid"
    ∷ codes "c:@F@getgroups"
    ∷ codes "c:@F@getpeername"
    ∷ codes "c:@F@getpgrp"
    ∷ codes "c:@F@getpid"
    ∷ codes "c:@F@getppid"
    ∷ codes "c:@F@getresgid"
    ∷ codes "c:@F@getresuid"
    ∷ codes "c:@F@getsockname"
    ∷ codes "c:@F@getsockopt"
    ∷ codes "c:@F@getuid"
    ∷ codes "c:@F@htobe16"
    ∷ codes "c:@F@htobe32"
    ∷ codes "c:@F@htobe64"
    ∷ codes "c:@F@htole16"
    ∷ codes "c:@F@htole32"
    ∷ codes "c:@F@htole64"
    ∷ codes "c:@F@htonl"
    ∷ codes "c:@F@htons"
    ∷ codes "c:@F@kill"
    ∷ codes "c:@F@killpg"
    ∷ codes "c:@F@le16toh"
    ∷ codes "c:@F@le32toh"
    ∷ codes "c:@F@le64toh"
    ∷ codes "c:@F@link"
    ∷ codes "c:@F@linkat"
    ∷ codes "c:@F@listen"
    ∷ codes "c:@F@longjmp"
    ∷ codes "c:@F@lseek"
    ∷ codes "c:@F@lstat"
    ∷ codes "c:@F@memccpy"
    ∷ codes "c:@F@memchr"
    ∷ codes "c:@F@memcmp"
    ∷ codes "c:@F@memcpy"
    ∷ codes "c:@F@memmove"
    ∷ codes "c:@F@memset"
    ∷ codes "c:@F@mkdir"
    ∷ codes "c:@F@mkdirat"
    ∷ codes "c:@F@mkfifo"
    ∷ codes "c:@F@mkfifoat"
    ∷ codes "c:@F@mknod"
    ∷ codes "c:@F@mknodat"
    ∷ codes "c:@F@ntohl"
    ∷ codes "c:@F@ntohs"
    ∷ codes "c:@F@open"
    ∷ codes "c:@F@openat"
    ∷ codes "c:@F@pause"
    ∷ codes "c:@F@pipe"
    ∷ codes "c:@F@pipe2"
    ∷ codes "c:@F@poll"
    ∷ codes "c:@F@posix_close"
    ∷ codes "c:@F@ppoll"
    ∷ codes "c:@F@pread"
    ∷ codes "c:@F@pselect"
    ∷ codes "c:@F@pthread_kill"
    ∷ codes "c:@F@pthread_self"
    ∷ codes "c:@F@pthread_setcancelstate"
    ∷ codes "c:@F@pthread_sigmask"
    ∷ codes "c:@F@pwrite"
    ∷ codes "c:@F@quick_exit"
    ∷ codes "c:@F@raise"
    ∷ codes "c:@F@read"
    ∷ codes "c:@F@readv"
    ∷ codes "c:@F@readlink"
    ∷ codes "c:@F@readlinkat"
    ∷ codes "c:@F@recv"
    ∷ codes "c:@F@recvfrom"
    ∷ codes "c:@F@recvmsg"
    ∷ codes "c:@F@rename"
    ∷ codes "c:@F@renameat"
    ∷ codes "c:@F@rmdir"
    ∷ codes "c:@F@select"
    ∷ codes "c:@F@sem_post"
    ∷ codes "c:@F@send"
    ∷ codes "c:@F@sendmsg"
    ∷ codes "c:@F@sendto"
    ∷ codes "c:@F@setegid"
    ∷ codes "c:@F@seteuid"
    ∷ codes "c:@F@setgid"
    ∷ codes "c:@F@setpgid"
    ∷ codes "c:@F@setregid"
    ∷ codes "c:@F@setresgid"
    ∷ codes "c:@F@setresuid"
    ∷ codes "c:@F@setreuid"
    ∷ codes "c:@F@setsid"
    ∷ codes "c:@F@setsockopt"
    ∷ codes "c:@F@setuid"
    ∷ codes "c:@F@shutdown"
    ∷ codes "c:@F@sig2str"
    ∷ codes "c:@F@sigaction"
    ∷ codes "c:@F@sigaddset"
    ∷ codes "c:@F@sigdelset"
    ∷ codes "c:@F@sigemptyset"
    ∷ codes "c:@F@sigfillset"
    ∷ codes "c:@F@sigismember"
    ∷ codes "c:@F@siglongjmp"
    ∷ codes "c:@F@signal"
    ∷ codes "c:@F@sigpending"
    ∷ codes "c:@F@sigprocmask"
    ∷ codes "c:@F@sigqueue"
    ∷ codes "c:@F@sigsuspend"
    ∷ codes "c:@F@sleep"
    ∷ codes "c:@F@sockatmark"
    ∷ codes "c:@F@socket"
    ∷ codes "c:@F@socketpair"
    ∷ codes "c:@F@stat"
    ∷ codes "c:@F@stpcpy"
    ∷ codes "c:@F@stpncpy"
    ∷ codes "c:@F@strcat"
    ∷ codes "c:@F@strchr"
    ∷ codes "c:@F@strcmp"
    ∷ codes "c:@F@strcpy"
    ∷ codes "c:@F@strcspn"
    ∷ codes "c:@F@strlcat"
    ∷ codes "c:@F@strlcpy"
    ∷ codes "c:@F@strlen"
    ∷ codes "c:@F@strncat"
    ∷ codes "c:@F@strncmp"
    ∷ codes "c:@F@strncpy"
    ∷ codes "c:@F@strnlen"
    ∷ codes "c:@F@strpbrk"
    ∷ codes "c:@F@strrchr"
    ∷ codes "c:@F@strspn"
    ∷ codes "c:@F@strstr"
    ∷ codes "c:@F@strtok_r"
    ∷ codes "c:@F@symlink"
    ∷ codes "c:@F@symlinkat"
    ∷ codes "c:@F@tcdrain"
    ∷ codes "c:@F@tcflow"
    ∷ codes "c:@F@tcflush"
    ∷ codes "c:@F@tcgetattr"
    ∷ codes "c:@F@tcgetpgrp"
    ∷ codes "c:@F@tcgetwinsize"
    ∷ codes "c:@F@tcsendbreak"
    ∷ codes "c:@F@tcsetattr"
    ∷ codes "c:@F@tcsetpgrp"
    ∷ codes "c:@F@tcsetwinsize"
    ∷ codes "c:@F@time"
    ∷ codes "c:@F@timer_getoverrun"
    ∷ codes "c:@F@timer_gettime"
    ∷ codes "c:@F@timer_settime"
    ∷ codes "c:@F@times"
    ∷ codes "c:@F@umask"
    ∷ codes "c:@F@uname"
    ∷ codes "c:@F@unlink"
    ∷ codes "c:@F@unlinkat"
    ∷ codes "c:@F@utimensat"
    ∷ codes "c:@F@utimes"
    ∷ codes "c:@F@wait"
    ∷ codes "c:@F@waitid"
    ∷ codes "c:@F@waitpid"
    ∷ codes "c:@F@wcpcpy"
    ∷ codes "c:@F@wcpncpy"
    ∷ codes "c:@F@wcscat"
    ∷ codes "c:@F@wcschr"
    ∷ codes "c:@F@wcscmp"
    ∷ codes "c:@F@wcscpy"
    ∷ codes "c:@F@wcscspn"
    ∷ codes "c:@F@wcslcat"
    ∷ codes "c:@F@wcslcpy"
    ∷ codes "c:@F@wcslen"
    ∷ codes "c:@F@wcsncat"
    ∷ codes "c:@F@wcsncmp"
    ∷ codes "c:@F@wcsncpy"
    ∷ codes "c:@F@wcsnlen"
    ∷ codes "c:@F@wcspbrk"
    ∷ codes "c:@F@wcsrchr"
    ∷ codes "c:@F@wcsspn"
    ∷ codes "c:@F@wcsstr"
    ∷ codes "c:@F@wcstok"
    ∷ codes "c:@F@wmemchr"
    ∷ codes "c:@F@wmemcmp"
    ∷ codes "c:@F@wmemcpy"
    ∷ codes "c:@F@wmemmove"
    ∷ codes "c:@F@wmemset"
    ∷ codes "c:@F@write"
    ∷ codes "c:@F@writev"
    ∷ []

unfoldable pub call_is_async_signal_safe : Text → Bool
call_is_async_signal_safe usr = any (λ safe. str_eq usr safe) safe_calls
