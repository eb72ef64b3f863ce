-- ===== src/AtFuncs/Restores.antt =====
-- src/at_funcs.c: the functions against calls that the system would make in the directory itself.
use libsolcompat.Common.{
  ℕ, ◌≡◌, ◌≢◌, refl, ◌∙◌, sym, ap, Bool, true, false, inl, inr, Option, none, some, List, [], ◌∷◌,
  ◌++◌, ◌==◌, if◌then◌else◌, arith, Bool-cases,
}
use libsolcompat.AtFuncs.{
  Syscall, sys_open, sys_mkdir, sys_rmdir, sys_unlink, sys_stat, sys_lstat, sys_chown, sys_lchown,
  sys_chmod, sys_readlink, sys_symlink, sys_access, Descriptor, Process, directory_of, without,
  lock, unlock, open_dot, close, fchdir, opens, new_descriptors, is_absolute, enter_directory,
  at_enter, at_leave, Kernel, call_entered, at_call, openat, mkdirat, unlinkat, fstatat, fchownat,
  fchmodat, readlinkat, symlinkat, faccessat,
}

-- The directory, where there is one and the process may enter it.
abbrev pub admitted : Kernel → List (ℕ × Syscall) → Option ℕ → Option ℕ
admitted k calls none = none
admitted k calls (some dir) = if k.enters calls dir then some dir else none

-- The directory that a path is relative to, none where the descriptor is of no directory that the
-- process may enter.
abbrev pub location : Kernel → Option ℕ → List ℕ → Process → Option ℕ
location k none path p = some p.cwd
location k (some dirfd) path p =
    if is_absolute path then some p.cwd else admitted k p.calls (directory_of dirfd p.descriptors)

-- The call made in that directory, with a descriptor more where it opens one. The current directory
-- is as before where the system lets the process go back to it, and else that of the call.
abbrev pub call_in : Kernel → Syscall → Option ℕ → Process → Option ℕ × Process
call_in k c none p = (none, p)
call_in k c (some dir) p =
    let made = p.calls ++ ((dir, c) ∷ []) in
    (
      k.answer dir c,
      record p {
        cwd = if k.enters made p.cwd then p.cwd else dir;
        calls = made;
        descriptors =
            new_descriptors (opens c) (k.opened_directory dir c) (k.answer dir c) ++ p.descriptors;
      },
    )

abbrev pub direct : Kernel → Option ℕ → Option ℕ → List ℕ → Syscall → Process → Option ℕ × Process
direct k none dirfd path c p = (none, p)
direct k (some saved) dirfd path c p = call_in k c (location k dirfd path p) p

-- The descriptor that `open(".")` gives is not the one that the caller has passed.
abbrev pub IsFresh : Option ℕ → Option ℕ → Type 0
IsFresh none dirfd = Unit
IsFresh (some saved) none = Unit
IsFresh (some saved) (some dirfd) = saved ≢ dirfd

pub saved_first :
    (saved : ℕ) (dir : Option ℕ) (ds : List Descriptor)
    → (directory_of saved (record { fd = saved; directory = dir } ∷ ds) ≡ dir)
      × (without saved (record { fd = saved; directory = dir } ∷ ds) ≡ ds)
unfolding directory_of without
saved_first saved dir ds =
    let same : (saved == saved) ≡ true = ground arith in (rw same refl, rw same refl)

pub directory_of_later :
    (saved dirfd : ℕ) (dir : Option ℕ) (ds : List Descriptor)
    → saved ≢ dirfd
    → directory_of dirfd (record { fd = saved; directory = dir } ∷ ds) ≡ directory_of dirfd ds
unfolding directory_of
directory_of_later saved dirfd dir ds h =
    let test : (saved == dirfd) ≡ false = ground (arith, h) in rw test refl

without_later :
    (fd saved : ℕ) (dir : Option ℕ) (ds : List Descriptor)
    → fd ≢ saved
    → without saved (record { fd = fd; directory = dir } ∷ ds)
      ≡ record { fd = fd; directory = dir } ∷ without saved ds
unfolding without
without_later fd saved dir ds h =
    let test : (fd == saved) ≡ false = ground (arith, h) in rw test refl

-- A descriptor is found and closed behind other ones.
abbrev IsApart : ℕ → List Descriptor → Type 0
IsApart saved news =
    (ds : List Descriptor)
    → (directory_of saved (news ++ ds) ≡ directory_of saved ds)
      × (without saved (news ++ ds) ≡ news ++ without saved ds)

new_descriptors-IsApart :
    (opening : Bool) (dir result : Option ℕ) (saved : ℕ)
    → (opening ≡ true → (fd : ℕ) → result ≡ some fd → saved ≢ fd)
    → IsApart saved (new_descriptors opening dir result)
new_descriptors-IsApart false dir result saved h ds = (refl, refl)
new_descriptors-IsApart true dir none saved h ds = (refl, refl)
new_descriptors-IsApart true dir (some fd) saved h ds = (
  directory_of_later fd saved dir ds (λ e. h refl fd refl (sym e)),
  without_later fd saved dir ds (λ e. h refl fd refl (sym e)),
)

-- An `open` gives another descriptor than that of `open(".")`, which is open.
abbrev pub IsUnused : Kernel → Option ℕ → Type 0
IsUnused k opened =
    (dir fd : ℕ) (c : Syscall)
    → opens c ≡ true
    → k.answer dir c ≡ some fd
    → IsFresh opened (some fd)

-- From another directory back to the one that was saved.
leave_lem :
    (k : Kernel) (saved dir : ℕ) (p : Process) (made : List (ℕ × Syscall)) (news : List Descriptor)
    → IsApart saved news
    → at_leave k saved (record (open_dot saved (lock p)) {
      cwd = dir;
      calls = made;
      descriptors = news ++ (open_dot saved (lock p)).descriptors;
    })
      ≡ record p {
        locked = false;
        calls = made;
        cwd = if k.enters made p.cwd then p.cwd else dir;
        descriptors = news ++ p.descriptors;
      }
unfolding at_leave
leave_lem k saved dir p made news apart =
    let first = saved_first saved (some p.cwd) (p.descriptors) in
    let (found, closed) = apart (open_dot saved (lock p)).descriptors in
    let entered = record (open_dot saved (lock p)) {
      cwd = dir;
      calls = made;
      descriptors = news ++ (open_dot saved (lock p)).descriptors;
    } in
    let left = closed ∙ ap (λ (ds : List Descriptor). news ++ ds) first.1 in
    ap (λ (d : Option ℕ). unlock (close saved (fchdir k d entered).1)) (found ∙ first.0)
    ∙ elim (Bool-cases (k.enters made p.cwd)) [
      | inl back ↦ rw back (
          ap (λ (ds : List Descriptor). record p { locked = false; calls = made; descriptors = ds })
            left)
      | inr lost ↦ rw lost (
          ap
            (λ (ds : List Descriptor). record p {
              locked = false;
              calls = made;
              cwd = dir;
              descriptors = ds;
            })
            left)
    ]

module _ (k : Kernel) (saved : ℕ) (c : Syscall) (p : Process)
    (unused : IsUnused k (some saved)) where
  -- The call in an entered directory, and back.
  made_lem :
      (dir : ℕ)
      → call_entered k c (some saved, record (open_dot saved (lock p)) { cwd = dir })
        ≡ call_in k c (some dir) (unlock p)
  made_lem dir =
      let news = new_descriptors (opens c) (k.opened_directory dir c) (k.answer dir c) in
      ap (λ (q : Process). (k.answer dir c, q))
        (leave_lem k saved dir p (p.calls ++ ((dir, c) ∷ [])) news (
          new_descriptors-IsApart (opens c) (k.opened_directory dir c) (k.answer dir c) saved
            (λ o fd e. unused dir fd c o e)))

  failed_lem :
      call_entered k c (enter_directory saved (false, open_dot saved (lock p)))
      ≡ call_in k c none (unlock p)
  failed_lem =
      ap (λ (ds : List Descriptor). (none, record p { locked = false; descriptors = ds }))
        (saved_first saved (some p.cwd) (p.descriptors)).1

  entered_lem :
      (dir : Option ℕ)
      → call_entered k c (enter_directory saved (fchdir k dir (open_dot saved (lock p))))
        ≡ call_in k c (admitted k p.calls dir) (unlock p)
  entered_lem none = failed_lem
  entered_lem (some dir) = elim (Bool-cases (k.enters p.calls dir)) [
    | inl enters ↦ rw enters (made_lem dir)
    | inr refused ↦ rw refused failed_lem
  ]

at_call-direct :
    (k : Kernel) (opened dirfd : Option ℕ) (path : List ℕ) (c : Syscall) (p : Process)
    → IsFresh opened dirfd
    → IsUnused k opened
    → at_call k opened dirfd path c p ≡ direct k opened dirfd path c (unlock p)
unfolding at_enter
at_call-direct k none dirfd path c p h u = refl
at_call-direct k (some saved) none path c p h u = made_lem k saved c p u p.cwd
at_call-direct k (some saved) (some dirfd) path c p h u = elim (Bool-cases (is_absolute path)) [
  | inl absolute ↦ rw absolute (made_lem k saved c p u p.cwd)
  | inr relative ↦
      let other : directory_of dirfd (open_dot saved (lock p)).descriptors
          ≡ directory_of dirfd p.descriptors =
        directory_of_later saved dirfd (some p.cwd) (p.descriptors) h in
      rw (relative, other) (entered_lem k saved c p u (directory_of dirfd p.descriptors))
]

-- When open(".") gives another descriptor than the one that the caller has passed, and an open
-- after it another than open("."), each of the functions with one path is a single call made in the directory that the
-- path is relative to; it fails with no call where open(".") does or where the descriptor is of no
-- directory that fchdir enters. The mutex is free after it, and the descriptors are those of before
-- and the one that openat returns. The current directory is the one of before, unless the fchdir
-- back to it fails: then it is the directory of the call, with no error.
pub at_functions-direct :
    (k : Kernel) (opened dirfd : Option ℕ) (path : List ℕ) (p : Process)
    → IsFresh opened dirfd
    → IsUnused k opened
    → ((flags mode : ℕ) (creates : Bool)
        → openat k opened dirfd path flags creates mode p
          ≡ direct k opened dirfd path
              (sys_open path flags (if creates then mode else 0))
              (unlock p))
      × ((mode : ℕ)
          → mkdirat k opened dirfd path mode p
            ≡ direct k opened dirfd path (sys_mkdir path mode) (unlock p))
      × ((removedir : Bool)
          → unlinkat k opened dirfd path removedir p
            ≡ direct k opened dirfd path
                (if removedir then sys_rmdir path else sys_unlink path)
                (unlock p))
      × ((nofollow : Bool)
          → fstatat k opened dirfd path nofollow p
            ≡ direct k opened dirfd path
                (if nofollow then sys_lstat path else sys_stat path)
                (unlock p))
      × ((owner group : ℕ) (nofollow : Bool)
          → fchownat k opened dirfd path owner group nofollow p
            ≡ direct k opened dirfd path
                (if nofollow then sys_lchown path owner group else sys_chown path owner group)
                (unlock p))
      × ((mode : ℕ)
          → fchmodat k opened dirfd path mode p
            ≡ direct k opened dirfd path (sys_chmod path mode) (unlock p))
      × ((bufsiz : ℕ)
          → readlinkat k opened dirfd path bufsiz p
            ≡ direct k opened dirfd path (sys_readlink path bufsiz) (unlock p))
      × ((target : List ℕ)
          → symlinkat k opened target dirfd path p
            ≡ direct k opened dirfd path (sys_symlink target path) (unlock p))
      × ((mode : ℕ)
          → faccessat k opened dirfd path mode p
            ≡ direct k opened dirfd path (sys_access path mode) (unlock p))
unfolding openat mkdirat unlinkat fstatat fchownat fchmodat readlinkat symlinkat faccessat
at_functions-direct k opened dirfd path p h u =
    let all = λ (c : Syscall). at_call-direct k opened dirfd path c p h u in
    (
      λ flags mode creates. all (sys_open path flags (if creates then mode else 0)),
      λ mode. all (sys_mkdir path mode),
      λ removedir. all (if removedir then sys_rmdir path else sys_unlink path),
      λ nofollow. all (if nofollow then sys_lstat path else sys_stat path),
      λ owner group nofollow.
          all (if nofollow then sys_lchown path owner group else sys_chown path owner group),
      λ mode. all (sys_chmod path mode),
      λ bufsiz. all (sys_readlink path bufsiz),
      λ target. all (sys_symlink target path),
      λ mode. all (sys_access path mode),
    )
