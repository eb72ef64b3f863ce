-- ===== src/Lib.antt =====
-- libsolcompat gives Solaris 7 the functions of later C libraries. This library models its own
-- logic, each source file in a module of its own, over shared lists, integers and blocks of bytes
-- (Common). A function is a function of the state that it reads and returns the state that it
-- leaves; `none` stands for an access out of a block, or for the end of the fuel.
--
-- src/stdlib.c, the sort: Qsort. The array is a list of elements, and `qsort_swap_bytes`
--  exchanges two of them. `sort_range` is `qsort_recursive` on fuel; `qsort_r` gives it one unit
--  per element, and each call sorts a range shorter than its caller's.
-- src/string.c: Str. A string is a block of bytes with a zero byte, a pointer an index in it.
--  `strsep`, `strcasestr`, `strerror_r` and `strsignal` are not modelled.
-- src/cxa_atexit.c: CxaAtexit. `cxa_atexit_table` below `cxa_atexit_count` is the list `entries`.
--  What a destructor registers while it runs is a parameter. The mutex is no part of the state.
-- src/snprintf.c: Snprintf. `preprocess_fmt` copies a format in stages (flags, width, precision,
--  modifier, conversion); its fuel is one unit per byte and one more. Snprintf.Piece says what a
--  format means. `vsprintf` of libc is a parameter, a function from the format to the text. The
--  growing loop has 12 sizes, from 8 KB to 16 MB, and so 12 units of fuel. The writes past the heap
--  buffer and past the buffer of the format are fields of the result, also of that of `vasprintf`.
-- src/getopt_long.c: Getopt and Getopt.Long. `optarg`, `optind`, `opterr`, `optopt` and
--  `short_next` are the fields of `State`, with what is printed and what is stored through `flag`
--  and `longindex`.
-- src/atomic_ops.c: Atomic. Each thread does one read-modify-write on a word, in steps of one access
--  to memory; a schedule is a list of thread numbers. The barriers and the plain 4-byte load and
--  store are not modelled.
-- src/random.c: Random. What a descriptor gives is a list of replies; the draws of `arc4random` are a
--  sequence. The requests to the EGD daemon and the mixing of `arc4_next` are not modelled.
-- src/stdlib.c, the environment: Environ. `environ` is the list of its entries; `getenv` and `putenv`
--  of libc are parameters.
-- src/stdlib.c, `mkdtemp`: Mkdtemp. The answers of `getentropy` and `mkdir` at each attempt are
--  parameters; the loop has 1000 rounds, as in the code.
-- src/network.c: Network.Interface for the interface indices, Network.Inet6 for the IPv6 texts,
--  Network.Resolve for `getaddrinfo`. The name services are a record of functions. Memory is the
--  answers of the allocator and the number of live blocks. The loop of `inet_pton` has as much
--  fuel as the text has bytes, and one more; each round takes a byte. `getifaddrs`, `getnameinfo`
--  and `accept4` are not modelled.
-- src/memstream.c: Memstream. A stream is the bytes of its temporary file and a position; the
--  registry is a list with the newest entry in front. A result `none` of `fflush` or `fclose` is a
--  write through a null pointer. The mutex is no part of the state.
-- src/stdio.c: Stdio. `getdelim` on a stream that is a list of bytes; `*lineptr` with `*n` is a
--  block with a size. Asprintf has `vasprintf`, on the `vsnprintf` of Snprintf. The other functions
--  are not modelled.
-- src/at_funcs.c: AtFuncs. A process has a current directory, the directories of its descriptors,
--  the mutex and the calls that it has made. What the system answers is a record of functions: also
--  whether `fchdir` to a directory succeeds, and whether `solcompat_snprintf` has memory.
-- src/wchar.c: Wchar. `mbrtowc` and `wcrtomb` of libc are parameters; the state of a conversion has
--  libc's part and two bytes of its own. The wide string functions are not modelled.
-- src/process.c: Process. `execvpe`, where `execve` answers each path, and `getgrouplist` over a list
--  of groups. Rwlock has the locks with a time limit: what the lock and the clock answer at each
--  attempt are parameters, and the fuel is the number of attempts. The other functions are not
--  modelled.
-- src/clock.c: Clock. Times are natural numbers; what the clocks and `select` answer are parameters.
--  Utc has `timegm`, which goes by the `setenv` and `unsetenv` of Environ.
--
-- The other source files are not modelled: most pass a call on to the system.
-- The floating point functions are not modelled either.
pub mod Common
pub mod Qsort
pub mod Str
pub mod CxaAtexit
pub mod Snprintf
pub mod Getopt
pub mod Atomic
pub mod Random
pub mod Environ
pub mod Mkdtemp
pub mod Network
pub mod Memstream
pub mod Stdio
pub mod Asprintf
pub mod AtFuncs
pub mod Wchar
pub mod Process
pub mod Rwlock
pub mod Clock
pub mod Utc
