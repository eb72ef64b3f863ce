-- ===== src/AtFuncs/Tests.antt =====
-- src/at_funcs.c: a process with one directory open.
use libsolcompat.Common.{
  ℕ, ◌≡◌, ◌≢◌, refl, Bool, true, false, not, ◌==◌, none, some, List, [], ◌∷◌, replicate, arith,
  if◌then◌else◌,
}
use libsolcompat.AtFuncs.{
  sys_open, sys_mkdir, sys_rmdir, sys_unlink, sys_stat, sys_lstat, sys_chown, sys_lchown, sys_chmod,
  sys_readlink, sys_symlink, sys_access, sys_rename, sys_link, Process, directory_of, without,
  unlock, at_enter, at_leave, Kernel, openat, mkdirat, unlinkat, fstatat, fchownat, fchmodat,
  readlinkat, symlinkat, faccessat, renameat, linkat, full_path, opens, resolve_dirfd_path,
}
use libsolcompat.AtFuncs.Restores.{IsUnused, direct, at_functions-direct}
use libsolcompat.AtFuncs.Renames.{IsAble, call_named, renameat-linkat-named}

-- Descriptor 3 is of directory 7; the current directory is 1.
abbrev start : Process
start = record {
  cwd = 1;
  descriptors = record { fd = 3; directory = some 7 } ∷ [];
  locked = false;
  calls = [];
}

-- "/d" is the name of every directory; `open` gives 5, and every other call answers 0.
abbrev kernel : Kernel
kernel = record {
  getcwd = λ dir. some (b'/' ∷ b'd' ∷ []);
  answer = λ dir c. if opens c then some 5 else some 0;
  opened_directory = λ dir c. none;
  enters = λ calls dir. true;
  has_memory = λ name. true;
  uninitialised = [];
}

five-IsUnused : IsUnused kernel (some 4)
five-IsUnused dir fd c o e = later (opens c) o e
  where
    later : (b : Bool) → b ≡ true → (if b then some 5 else some 0) ≡ some fd → 4 ≢ fd
    later b o e q = ground (arith, o, e, q)

able : IsAble kernel start
able = record { has_memory = λ name. refl; returns = refl }

-- Where the directory that the process comes from cannot be entered any more.
abbrev one_way : Kernel
one_way = record kernel { enters = λ calls dir. not (dir == 1) }

abbrev file : List ℕ
file = b'f' ∷ []

at_functions-direct_example :
    ((flags mode : ℕ) (creates : Bool)
      → openat kernel (some 4) (some 3) file flags creates mode start
        ≡ direct kernel
            (some 4)
            (some 3)
            file
            (sys_open file flags (if creates then mode else 0))
            (unlock start))
    × ((mode : ℕ)
        → mkdirat kernel (some 4) (some 3) file mode start
          ≡ direct kernel (some 4) (some 3) file (sys_mkdir file mode) (unlock start))
    × ((removedir : Bool)
        → unlinkat kernel (some 4) (some 3) file removedir start
          ≡ direct kernel
              (some 4)
              (some 3)
              file
              (if removedir then sys_rmdir file else sys_unlink file)
              (unlock start))
    × ((nofollow : Bool)
        → fstatat kernel (some 4) (some 3) file nofollow start
          ≡ direct kernel
              (some 4)
              (some 3)
              file
              (if nofollow then sys_lstat file else sys_stat file)
              (unlock start))
    × ((owner group : ℕ) (nofollow : Bool)
        → fchownat kernel (some 4) (some 3) file owner group nofollow start
          ≡ direct kernel
              (some 4)
              (some 3)
              file
              (if nofollow then sys_lchown file owner group else sys_chown file owner group)
              (unlock start))
    × ((mode : ℕ)
        → fchmodat kernel (some 4) (some 3) file mode start
          ≡ direct kernel (some 4) (some 3) file (sys_chmod file mode) (unlock start))
    × ((bufsiz : ℕ)
        → readlinkat kernel (some 4) (some 3) file bufsiz start
          ≡ direct kernel (some 4) (some 3) file (sys_readlink file bufsiz) (unlock start))
    × ((target : List ℕ)
        → symlinkat kernel (some 4) target (some 3) file start
          ≡ direct kernel (some 4) (some 3) file (sys_symlink target file) (unlock start))
    × ((mode : ℕ)
        → faccessat kernel (some 4) (some 3) file mode start
          ≡ direct kernel (some 4) (some 3) file (sys_access file mode) (unlock start))
at_functions-direct_example =
    at_functions-direct kernel (some 4) (some 3) file start (λ e. absurd (omega arith))
      five-IsUnused

renameat-linkat-named_example :
    (renameat kernel (some 4) (some 5) (some 3) file none (b'g' ∷ []) start
      ≡ call_named kernel sys_rename
          (some (b'/' ∷ b'd' ∷ b'/' ∷ b'f' ∷ []))
          (some (b'g' ∷ []))
          start)
    × (linkat kernel (some 4) (some 5) (some 3) file none (b'g' ∷ []) start
        ≡ call_named kernel sys_link
            (some (b'/' ∷ b'd' ∷ b'/' ∷ b'f' ∷ []))
            (some (b'g' ∷ []))
            start)
unfolding directory_of
renameat-linkat-named_example =
    renameat-linkat-named kernel (some 4) (some 5) (some 3) file none (b'g' ∷ []) start refl able
      (λ e. absurd (omega arith)) tt (omega arith) (omega arith)

-- `openat` adds the descriptor that it returns.
opened :
    (openat kernel (some 4) (some 3) file 0 false 0 start).1.descriptors
    ≡ record { fd = 5; directory = none } ∷ record { fd = 3; directory = some 7 } ∷ []
unfolding openat at_enter at_leave directory_of without
opened = refl

-- A call that succeeds and leaves the process in the directory of the call.
lost : (unlinkat one_way (some 4) (some 3) file false start).1.cwd ≡ 7
unfolding unlinkat at_enter at_leave directory_of without
lost = refl

-- Without memory, what stands in the buffer is renamed.
no_memory_name :
    (renameat
      (record kernel { has_memory = λ name. false })
      (some 4)
      (some 4)
      (some 3)
      file
      (some 3)
      (b'/' ∷ [])
      start).1.calls
    ≡ (1, sys_rename [] (b'/' ∷ [])) ∷ []
unfolding renameat full_path resolve_dirfd_path directory_of without
no_memory_name = refl

-- Descriptor 4 is closed, and open(".") gives 4: the file in the current directory is removed.
closed_descriptor :
    (unlinkat kernel (some 4) (some 4) file false start).1.calls ≡ (1, sys_unlink file) ∷ []
unfolding unlinkat at_enter at_leave directory_of without
closed_descriptor = refl

-- A relative path of 1024 bytes is cut to the name of another file.
abbrev long_path : List ℕ
long_path = replicate 1024 b'f'

cut_name :
    (renameat kernel (some 4) (some 5) none long_path (some 3) (b'/' ∷ []) start).1.calls
    ≡ (1, sys_rename (replicate 1023 b'f') (b'/' ∷ [])) ∷ []
unfolding renameat full_path
cut_name = refl
