-- ===== src/Process.antt =====
-- src/process.c: the search of PATH, and the groups of a user. Strings are lists of bytes; a path
-- buffer has `path_max` bytes.
pub mod Search
pub mod Groups
pub mod Tests
use libsolcompat.Common.{
  ℕ, zero, suc, ◌+◌, ◌-◌, Bool, true, false, not, ◌&&◌, ◌||◌, Option, none, some, List, [], ◌∷◌,
  ◌++◌, length, drop, ltb, leb, ◌==◌, if◌then◌else◌, ◌>>=◌, store,
}

pub data Errno : Type 0 where
  eacces enoent enotdir : Errno
  other_errno : ℕ → Errno

-- `execve` does not come back, or fails.
pub data Executed : Type 0 where
  replaced : List ℕ → Executed
  failed : Errno → Executed

pub data Answer : Type 0 where
  runs : Answer
  refuses : Errno → Answer

pub has_slash : List ℕ → Bool
has_slash [] = false
has_slash (c ∷ s) = c == b'/' || has_slash s

abbrev pub starts_with : List ℕ → List ℕ → Bool
starts_with [] s = true
starts_with (c ∷ prefix) [] = false
starts_with (c ∷ prefix) (d ∷ s) = c == d && starts_with prefix s

abbrev pub path_prefix : List ℕ
path_prefix = b'P' ∷ b'A' ∷ b'T' ∷ b'H' ∷ b'=' ∷ []

-- The value of PATH in the environment of the child.
pub path_of : List (List ℕ) → Option (List ℕ)
path_of [] = none
path_of (entry ∷ envp) =
    let later = path_of envp in if starts_with path_prefix entry then some (drop 5 entry) else later

abbrev pub path_in : Option (List (List ℕ)) → Option (List ℕ)
path_in none = none
path_in (some envp) = path_of envp

abbrev pub or_getenv : Option (List ℕ) → Option (List ℕ) → Option (List ℕ)
or_getenv none getenv = getenv
or_getenv (some path) getenv = some path

-- "/usr/bin:/bin" where there is none, or an empty one.
abbrev pub or_default : Option (List ℕ) → List ℕ
or_default none =
    b'/' ∷ b'u' ∷ b's' ∷ b'r' ∷ b'/' ∷ b'b' ∷ b'i' ∷ b'n' ∷ b':' ∷ b'/' ∷ b'b' ∷ b'i' ∷ b'n' ∷ []
or_default (some []) =
    b'/' ∷ b'u' ∷ b's' ∷ b'r' ∷ b'/' ∷ b'b' ∷ b'i' ∷ b'n' ∷ b':' ∷ b'/' ∷ b'b' ∷ b'i' ∷ b'n' ∷ []
or_default (some (c ∷ path)) = c ∷ path

abbrev pub extend_first : ℕ → List (List ℕ) → List (List ℕ)
extend_first c [] = (c ∷ []) ∷ []
extend_first c (dir ∷ dirs) = (c ∷ dir) ∷ dirs

-- The components between the colons, empty ones too.
pub components : List ℕ → List (List ℕ)
components [] = [] ∷ []
components (c ∷ path) =
    let dirs = components path in if c == b':' then [] ∷ dirs else extend_first c dirs

-- The candidate in a directory, where it fits.
abbrev pub candidate : ℕ → List ℕ → List ℕ → Option (List ℕ)
candidate path_max filename [] =
    if leb (length filename + 3) path_max then some (b'.' ∷ b'/' ∷ filename) else none
candidate path_max filename (d ∷ dir) =
    if leb (length (d ∷ dir) + 1 + length filename + 1) path_max
    then some ((d ∷ dir) ++ (b'/' ∷ filename))
    else none

abbrev pub reported : Bool → Errno → Errno
reported true errno = eacces
reported false errno = errno

-- What is done after `execve` has failed: whether the search goes on, and whether EACCES is kept.
abbrev pub goes_on : Errno → Bool
goes_on eacces = true
goes_on enoent = true
goes_on enotdir = true
goes_on (other_errno e) = false

abbrev pub is_eacces : Errno → Bool
is_eacces eacces = true
is_eacces enoent = false
is_eacces enotdir = false
is_eacces (other_errno e) = false

abbrev pub after_execve : Answer → List ℕ → Bool → (Bool → Errno → Executed) → Executed
after_execve runs path saved next = replaced path
after_execve (refuses e) path saved next =
    if goes_on e then next (saved || is_eacces e) e else failed (reported saved e)

abbrev pub try_candidate :
    Option (List ℕ) → (List ℕ → Answer) → Bool → Errno → (Bool → Errno → Executed) → Executed
try_candidate none execve saved errno next = next saved errno
try_candidate (some path) execve saved errno next = after_execve (execve path) path saved next

pub search_loop : ℕ → (List ℕ → Answer) → List ℕ → List (List ℕ) → Bool → Errno → Executed
search_loop path_max execve filename [] saved errno = failed (reported saved errno)
search_loop path_max execve filename (dir ∷ dirs) saved errno =
    try_candidate (candidate path_max filename dir) execve saved errno
      (search_loop path_max execve filename dirs)

abbrev pub execute : (List ℕ → Answer) → List ℕ → Executed
execute execve path = elim (execve path) [ runs ↦ replaced path | refuses e ↦ failed e ]

-- `getenv` is the PATH of the caller, `errno` what it is before.
pub execvpe :
    ℕ → (List ℕ → Answer) → Option (List ℕ) → List ℕ → Option (List (List ℕ)) → Errno → Executed
execvpe path_max execve getenv filename envp errno =
    if has_slash filename
    then execute execve filename
    else search_loop path_max execve filename
        (components (or_default (or_getenv (path_in envp) getenv))) false errno

pub record Group : Type 0 where
  pub gr_gid : ℕ
  pub gr_mem : List (List ℕ)

abbrev pub str_equal : List ℕ → List ℕ → Bool
str_equal [] [] = true
str_equal [] (d ∷ t) = false
str_equal (c ∷ s) [] = false
str_equal (c ∷ s) (d ∷ t) = c == d && str_equal s t

pub is_member : List ℕ → List (List ℕ) → Bool
is_member user [] = false
is_member user (name ∷ names) =
    let later = is_member user names in if str_equal name user then true else later

-- `groups[group_count] = gid` where the guard says that there is room; none is a write past the
-- end of the array.
abbrev pub store_group : List ℕ → ℕ → ℕ → ℕ → Option (List ℕ)
store_group groups max_groups group_count gid =
    if ltb group_count max_groups then store groups group_count gid else some groups

pub groups_loop : List ℕ → ℕ → ℕ → List Group → List ℕ → ℕ → Option (List ℕ × ℕ)
groups_loop user group max_groups [] groups group_count = some (groups, group_count)
groups_loop user group max_groups (g ∷ database) groups group_count =
    let skipped = groups_loop user group max_groups database groups group_count in
    let added =
      store_group groups max_groups group_count g.gr_gid
      >>= (λ groups'. groups_loop user group max_groups database groups' (group_count + 1)) in
    if g.gr_gid == group then skipped else if is_member user (g.gr_mem) then added else skipped

-- The result (false for -1), the array and `*ngroups`.
pub record Grouplist : Type 0 where
  pub fits : Bool
  pub groups : List ℕ
  pub ngroups : ℕ

pub getgrouplist : List ℕ → ℕ → List Group → List ℕ → ℕ → Option Grouplist
getgrouplist user group database groups max_groups = do
  groups' ← store_group groups max_groups 0 group
  (filled, group_count) ← groups_loop user group max_groups database groups' 1
  some (record { fits = not (ltb max_groups group_count); groups = filled; ngroups = group_count })
