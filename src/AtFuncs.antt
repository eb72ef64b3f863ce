-- ===== src/AtFuncs.antt =====
-- src/at_funcs.c: functions that take a path relative to a directory descriptor, by way of the
-- current directory. A directory is a number, a path the list of its bytes.
pub mod Restores
pub mod Renames
pub mod Tests
use libsolcompat.Common.{
  ℕ, zero, suc, ◌+◌, Bool, true, false, not, ◌&&◌, ◌||◌, Option, none, some, List, [], ◌∷◌, ◌++◌,
  length, take, ltb, ◌==◌, if◌then◌else◌,
}

-- The calls of the system that are made at the current directory.
pub data Syscall : Type 0 where
  sys_open : List ℕ → ℕ → ℕ → Syscall
  sys_mkdir sys_chmod sys_access : List ℕ → ℕ → Syscall
  sys_rmdir sys_unlink sys_stat sys_lstat : List ℕ → Syscall
  sys_chown sys_lchown : List ℕ → ℕ → ℕ → Syscall
  sys_readlink : List ℕ → ℕ → Syscall
  sys_symlink sys_rename sys_link : List ℕ → List ℕ → Syscall

-- An open descriptor, with the directory that it is of.
pub record Descriptor : Type 0 where
  pub fd : ℕ
  pub directory : Option ℕ

-- `calls` are the calls so far, each with the current directory that it was made at.
pub record Process : Type 0 where
  pub cwd : ℕ
  pub descriptors : List Descriptor
  pub locked : Bool
  pub calls : List (ℕ × Syscall)

pub directory_of : ℕ → List Descriptor → Option ℕ
directory_of fd [] = none
directory_of fd (d ∷ ds) =
    let later = directory_of fd ds in if d.fd == fd then d.directory else later

pub without : ℕ → List Descriptor → List Descriptor
without fd [] = []
without fd (d ∷ ds) = let later = without fd ds in if d.fd == fd then ds else d ∷ later

abbrev pub lock : Process → Process
lock p = record p { locked = true }

abbrev pub unlock : Process → Process
unlock p = record p { locked = false }

-- `open(".", O_RDONLY)`, which gives a descriptor of the current directory.
abbrev pub open_dot : ℕ → Process → Process
open_dot saved p = record p {
  descriptors = record { fd = saved; directory = some p.cwd } ∷ p.descriptors;
}

abbrev pub close : ℕ → Process → Process
close fd p = record p { descriptors = without fd p.descriptors }

abbrev pub is_absolute : List ℕ → Bool
is_absolute [] = false
is_absolute (c ∷ path) = c == b'/'

-- What the system answers: the name that a directory has, where `getcwd` can tell it; what a call
-- returns, none for -1; the directory that an `open` gives a descriptor of; whether `fchdir` to a
-- directory succeeds, after the calls so far. `has_memory` is whether `solcompat_snprintf` has memory
-- to print a path, and `uninitialised` what the buffer holds where it has none.
pub record Kernel : Type 0 where
  pub getcwd : ℕ → Option (List ℕ)
  pub answer : ℕ → Syscall → Option ℕ
  pub opened_directory : ℕ → Syscall → Option ℕ
  pub enters : List (ℕ × Syscall) → ℕ → Bool
  pub has_memory : List ℕ → Bool
  pub uninitialised : List ℕ

-- `fchdir`, for a descriptor of a directory or another, and whether it succeeds.
abbrev pub fchdir : Kernel → Option ℕ → Process → Bool × Process
fchdir k none p = (false, p)
fchdir k (some dir) p = if k.enters p.calls dir then (true, record p { cwd = dir }) else (false, p)

abbrev pub enter_directory : ℕ → Bool × Process → Option ℕ × Process
enter_directory saved_fd (false, p) = (none, unlock (close saved_fd p))
enter_directory saved_fd (true, p) = (some saved_fd, p)

-- `dirfd` is none where IS_AT_FDCWD holds; `opened` is the descriptor that `open(".")` gives, none
-- where it fails.
pub at_enter : Kernel → Option ℕ → Option ℕ → List ℕ → Process → Option ℕ × Process
at_enter k none dirfd path p = (none, unlock (lock p))
at_enter k (some saved_fd) none path p = (some saved_fd, open_dot saved_fd (lock p))
at_enter k (some saved_fd) (some dirfd) path p =
    let saved = open_dot saved_fd (lock p) in
    if is_absolute path
    then (some saved_fd, saved)
    else enter_directory saved_fd (fchdir k (directory_of dirfd saved.descriptors) saved)

-- The result of `fchdir` is not looked at.
pub at_leave : Kernel → ℕ → Process → Process
at_leave k saved_fd p = unlock (close saved_fd (fchdir k (directory_of saved_fd p.descriptors) p).1)

abbrev pub opens : Syscall → Bool
opens (sys_open path flags mode) = true
opens (sys_mkdir path mode) = false
opens (sys_chmod path mode) = false
opens (sys_access path mode) = false
opens (sys_rmdir path) = false
opens (sys_unlink path) = false
opens (sys_stat path) = false
opens (sys_lstat path) = false
opens (sys_chown path owner group) = false
opens (sys_lchown path owner group) = false
opens (sys_readlink path bufsiz) = false
opens (sys_symlink target path) = false
opens (sys_rename old new) = false
opens (sys_link old new) = false

-- The descriptor that an `open` adds to those of the process.
abbrev pub new_descriptors : Bool → Option ℕ → Option ℕ → List Descriptor
new_descriptors false dir result = []
new_descriptors true dir none = []
new_descriptors true dir (some fd) = record { fd = fd; directory = dir } ∷ []

abbrev pub call : Kernel → Syscall → Process → Option ℕ × Process
call k c p =
    let result = k.answer p.cwd c in
    (
      result,
      record p {
        calls = p.calls ++ ((p.cwd, c) ∷ []);
        descriptors =
            new_descriptors (opens c) (k.opened_directory p.cwd c) result ++ p.descriptors;
      },
    )

abbrev pub call_entered : Kernel → Syscall → Option ℕ × Process → Option ℕ × Process
call_entered k c (none, p) = (none, p)
call_entered k c (some saved, p) = let (result, p') = call k c p in (result, at_leave k saved p')

-- The body that these functions share.
abbrev pub at_call : Kernel → Option ℕ → Option ℕ → List ℕ → Syscall → Process → Option ℕ × Process
at_call k opened dirfd path c p = call_entered k c (at_enter k opened dirfd path p)

pub openat : Kernel → Option ℕ → Option ℕ → List ℕ → ℕ → Bool → ℕ → Process → Option ℕ × Process
openat k opened dirfd pathname flags creates mode p =
    at_call k opened dirfd pathname (sys_open pathname flags (if creates then mode else 0)) p

pub mkdirat : Kernel → Option ℕ → Option ℕ → List ℕ → ℕ → Process → Option ℕ × Process
mkdirat k opened dirfd pathname mode p = at_call k opened dirfd pathname (sys_mkdir pathname mode) p

pub unlinkat : Kernel → Option ℕ → Option ℕ → List ℕ → Bool → Process → Option ℕ × Process
unlinkat k opened dirfd pathname removedir p =
    at_call k opened dirfd pathname (if removedir then sys_rmdir pathname else sys_unlink pathname)
      p

pub fstatat : Kernel → Option ℕ → Option ℕ → List ℕ → Bool → Process → Option ℕ × Process
fstatat k opened dirfd pathname nofollow p =
    at_call k opened dirfd pathname (if nofollow then sys_lstat pathname else sys_stat pathname) p

pub fchownat : Kernel → Option ℕ → Option ℕ → List ℕ → ℕ → ℕ → Bool → Process → Option ℕ × Process
fchownat k opened dirfd pathname owner group nofollow p =
    at_call k opened dirfd pathname
      (if nofollow then sys_lchown pathname owner group else sys_chown pathname owner group) p

pub fchmodat : Kernel → Option ℕ → Option ℕ → List ℕ → ℕ → Process → Option ℕ × Process
fchmodat k opened dirfd pathname mode p =
    at_call k opened dirfd pathname (sys_chmod pathname mode) p

pub readlinkat : Kernel → Option ℕ → Option ℕ → List ℕ → ℕ → Process → Option ℕ × Process
readlinkat k opened dirfd pathname bufsiz p =
    at_call k opened dirfd pathname (sys_readlink pathname bufsiz) p

pub symlinkat : Kernel → Option ℕ → List ℕ → Option ℕ → List ℕ → Process → Option ℕ × Process
symlinkat k opened target newdirfd linkpath p =
    at_call k opened newdirfd linkpath (sys_symlink target linkpath) p

pub faccessat : Kernel → Option ℕ → Option ℕ → List ℕ → ℕ → Process → Option ℕ × Process
faccessat k opened dirfd pathname mode p =
    at_call k opened dirfd pathname (sys_access pathname mode) p

-- `getcwd` into a buffer of 1024 bytes.
abbrev pub fits_buffer : Option (List ℕ) → Option (List ℕ)
fits_buffer none = none
fits_buffer (some path) = if ltb (length path) 1024 then some path else none

-- The result of the `fchdir` back is not looked at.
abbrev pub resolve_at : Kernel → ℕ → Bool × Process → Option (List ℕ) × Process
resolve_at k saved (false, p) = (none, close saved p)
resolve_at k saved (true, p) =
    (fits_buffer (k.getcwd p.cwd), close saved (fchdir k (directory_of saved p.descriptors) p).1)

pub resolve_dirfd_path : Kernel → Option ℕ → ℕ → Process → Option (List ℕ) × Process
resolve_dirfd_path k none dirfd p = (none, p)
resolve_dirfd_path k (some saved) dirfd p =
    let opened = open_dot saved p in
    resolve_at k saved (fchdir k (directory_of dirfd opened.descriptors) opened)

-- A full path in 1024 bytes, cut where it does not fit.
abbrev pub cut : List ℕ → List ℕ
cut path = take 1023 path

-- `solcompat_snprintf(full, sizeof(full), "%s/%s", dirpath, path)`, whose result is not looked at.
abbrev pub print_path : Kernel → List ℕ → List ℕ
print_path k name = if k.has_memory name then cut name else k.uninitialised

abbrev pub below : Kernel → List ℕ → Option (List ℕ) × Process → Option (List ℕ) × Process
below k path (none, p) = (none, p)
below k path (some dirpath, p) = (some (print_path k (dirpath ++ (b'/' ∷ path))), p)

pub full_path : Kernel → Option ℕ → Option ℕ → List ℕ → Process → Option (List ℕ) × Process
full_path k opened none path p = (some (cut path), p)
full_path k opened (some dirfd) path p =
    let resolved = below k path (resolve_dirfd_path k opened dirfd p) in
    if is_absolute path then (some (cut path), p) else resolved

abbrev pub call_both :
    Kernel → (List ℕ → List ℕ → Syscall) → List ℕ → Option (List ℕ) × Process → Option ℕ × Process
call_both k c old_full (none, p) = (none, unlock p)
call_both k c old_full (some new_full, p) =
    let (result, p') = call k (c old_full new_full) p in (result, unlock p')

abbrev pub with_old :
    Kernel
    → (List ℕ → List ℕ → Syscall)
    → Option ℕ
    → Option ℕ
    → List ℕ
    → Option (List ℕ) × Process
    → Option ℕ × Process
with_old k c opened newdirfd newpath (none, p) = (none, unlock p)
with_old k c opened newdirfd newpath (some old_full, p) =
    call_both k c old_full (full_path k opened newdirfd newpath p)

-- `opened` and `opened'` are what the two calls of `open(".")` give.
abbrev pub on_full_paths :
    Kernel
    → (List ℕ → List ℕ → Syscall)
    → Option ℕ
    → Option ℕ
    → Option ℕ
    → List ℕ
    → Option ℕ
    → List ℕ
    → Process
    → Option ℕ × Process
on_full_paths k c opened opened' olddirfd oldpath newdirfd newpath p =
    with_old k c opened' newdirfd newpath (full_path k opened olddirfd oldpath (lock p))

pub renameat :
    Kernel
    → Option ℕ
    → Option ℕ
    → Option ℕ
    → List ℕ
    → Option ℕ
    → List ℕ
    → Process
    → Option ℕ × Process
renameat k opened opened' none oldpath none newpath p = call k (sys_rename oldpath newpath) p
renameat k opened opened' none oldpath (some d) newpath p =
    on_full_paths k sys_rename opened opened' none oldpath (some d) newpath p
renameat k opened opened' (some d) oldpath newdirfd newpath p =
    on_full_paths k sys_rename opened opened' (some d) oldpath newdirfd newpath p

pub linkat :
    Kernel
    → Option ℕ
    → Option ℕ
    → Option ℕ
    → List ℕ
    → Option ℕ
    → List ℕ
    → Process
    → Option ℕ × Process
linkat k opened opened' olddirfd oldpath newdirfd newpath p =
    on_full_paths k sys_link opened opened' olddirfd oldpath newdirfd newpath p
