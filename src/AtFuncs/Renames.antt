-- ===== src/AtFuncs/Renames.antt =====
-- src/at_funcs.c: `renameat` and `linkat`, which work on full paths.
use mathlib.Core.Path.{subst}
use libsolcompat.Common.{
  ℕ, zero, suc, ◌≤◌, ◌<◌, ◌≡◌, refl, ◌∙◌, sym, ap, Bool, true, false, inl, inr, Option, none, some,
  List, [], ◌∷◌, ◌++◌, length, take, ltb, if◌then◌else◌, arith, Bool-cases, length-append,
}
use libsolcompat.AtFuncs.{
  Syscall, sys_rename, sys_link, Descriptor, Process, directory_of, lock, unlock, open_dot, close,
  fchdir, is_absolute, Kernel, call, fits_buffer, resolve_at, resolve_dirfd_path, cut, below,
  full_path, call_both, with_old, on_full_paths, renameat, linkat,
}
use libsolcompat.AtFuncs.Restores.{admitted, IsFresh, saved_first, directory_of_later}

-- The path below the name of a directory.
abbrev pub name_below : List ℕ → Option (List ℕ) → Option (List ℕ)
name_below path none = none
name_below path (some dirpath) = some (dirpath ++ (b'/' ∷ path))

abbrev pub name_in : Kernel → Option ℕ → List ℕ → Option ℕ → Option (List ℕ)
name_in k none path dir = none
name_in k (some saved) path none = none
name_in k (some saved) path (some dir) = name_below path (k.getcwd dir)

-- The name that a path stands for, none where it cannot be told.
abbrev pub name_of :
    Kernel → Option ℕ → Option ℕ → List ℕ → List (ℕ × Syscall) → List Descriptor → Option (List ℕ)
name_of k opened none path calls ds = some path
name_of k opened (some dirfd) path calls ds =
    if is_absolute path
    then some path
    else name_in k opened path (admitted k calls (directory_of dirfd ds))

abbrev pub IsShort : Option (List ℕ) → Type 0
IsShort none = Unit
IsShort (some name) = length name < 1024

take_short : (n : ℕ) (xs : List ℕ) → length xs ≤ n → take n xs ≡ xs
take_short zero [] h = refl
take_short zero (x ∷ xs) h = absurd (omega arith)
take_short (suc n) [] h = refl
take_short (suc n) (x ∷ xs) h = ap (λ (l : List ℕ). x ∷ l) (take_short n xs (omega arith))

cut_short : (path : List ℕ) → length path < 1024 → cut path ≡ path
cut_short path h = take_short 1023 path (omega arith)

-- Paths are printed whole, and the process comes back from a directory whose name it asks for.
pub record IsAble (k : Kernel) (p : Process) : Type 0 where
  pub has_memory : (name : List ℕ) → k.has_memory name ≡ true
  pub returns : k.enters p.calls p.cwd ≡ true

below_lem :
    (k : Kernel) (dirpath : Option (List ℕ)) (path : List ℕ) (p : Process)
    → IsAble k p
    → IsShort (name_below path dirpath)
    → below k path (fits_buffer dirpath, p) ≡ (name_below path dirpath, p)
below_lem k none path p able h = refl
below_lem k (some dirpath) path p able h =
    let sum = length-append {0} dirpath (b'/' ∷ path) in
    let fits : ltb (length dirpath) 1024 ≡ true = ground (arith, h, sum) in
    let name = dirpath ++ (b'/' ∷ path) in rw (fits, able.has_memory name, cut_short name h) refl

-- Back from the directory whose name was asked for.
back_lem :
    (k : Kernel) (saved dir : ℕ) (p : Process)
    → k.enters p.calls p.cwd ≡ true
    → close saved
        (fchdir k
          (directory_of saved (open_dot saved p).descriptors)
          (record (open_dot saved p) { cwd = dir })).1
      ≡ p
back_lem k saved dir p back =
    let first = saved_first saved (some p.cwd) (p.descriptors) in
    ap (λ (d : Option ℕ). close saved (fchdir k d (record (open_dot saved p) { cwd = dir })).1)
      (first.0)
    ∙ rw back (ap (λ (ds : List Descriptor). record p { descriptors = ds }) (first.1))

resolve_at-name :
    (dir : Option ℕ) (k : Kernel) (saved : ℕ) (path : List ℕ) (p : Process)
    → IsAble k p
    → IsShort (name_in k (some saved) path (admitted k p.calls dir))
    → below k path (resolve_at k saved (fchdir k dir (open_dot saved p)))
      ≡ (name_in k (some saved) path (admitted k p.calls dir), p)
resolve_at-name none k saved path p able h =
    ap (λ (ds : List Descriptor). (none, record p { descriptors = ds }))
      (saved_first saved (some p.cwd) (p.descriptors)).1
resolve_at-name (some dir) k saved path p able h = elim (Bool-cases (k.enters p.calls dir)) [
  | inl enters ↦
      let short =
        subst (λ (b : Bool). IsShort (name_in k (some saved) path (if b then some dir else none)))
          enters h in
      rw enters (
        ap (λ (q : Process). below k path (fits_buffer (k.getcwd dir), q))
          (back_lem k saved dir p able.returns)
        ∙ below_lem k (k.getcwd dir) path p able short)
  | inr refused ↦ rw refused (
      ap (λ (ds : List Descriptor). (none, record p { descriptors = ds }))
        (saved_first saved (some p.cwd) (p.descriptors)).1)
]

resolve-name :
    (k : Kernel) (opened : Option ℕ) (dirfd : ℕ) (path : List ℕ) (p : Process)
    → IsAble k p
    → IsFresh opened (some dirfd)
    → IsShort (name_in k opened path (admitted k p.calls (directory_of dirfd p.descriptors)))
    → below k path (resolve_dirfd_path k opened dirfd p)
      ≡ (name_in k opened path (admitted k p.calls (directory_of dirfd p.descriptors)), p)
unfolding resolve_dirfd_path
resolve-name k none dirfd path p able fresh h = refl
resolve-name k (some saved) dirfd path p able fresh h =
    ap (λ (d : Option ℕ). below k path (resolve_at k saved (fchdir k d (open_dot saved p))))
      (directory_of_later saved dirfd (some p.cwd) (p.descriptors) fresh)
    ∙ resolve_at-name (directory_of dirfd p.descriptors) k saved path p able h

full_path-name_of :
    (k : Kernel) (opened dirfd : Option ℕ) (path : List ℕ) (p : Process)
    → IsAble k p
    → IsFresh opened dirfd
    → IsShort (name_of k opened dirfd path p.calls p.descriptors)
    → full_path k opened dirfd path p ≡ (name_of k opened dirfd path p.calls p.descriptors, p)
unfolding full_path
full_path-name_of k opened none path p able fresh h =
    ap (λ (s : List ℕ). (some s, p)) (cut_short path h)
full_path-name_of k opened (some dirfd) path p able fresh h =
    let named = name_in k opened path (admitted k p.calls (directory_of dirfd p.descriptors)) in
    elim (Bool-cases (is_absolute path)) [
      | inl absolute ↦
          let short = subst (λ (b : Bool). IsShort (if b then some path else named)) absolute h in
          rw (absolute, cut_short path short) refl
      | inr relative ↦
          let short = subst (λ (b : Bool). IsShort (if b then some path else named)) relative h in
          rw relative (resolve-name k opened dirfd path p able fresh short)
    ]

-- One call with both names, made at the current directory, and nothing else changed.
abbrev pub call_named :
    Kernel
    → (List ℕ → List ℕ → Syscall)
    → Option (List ℕ)
    → Option (List ℕ)
    → Process
    → Option ℕ × Process
call_named k c none new p = (none, p)
call_named k c (some old) none p = (none, p)
call_named k c (some old) (some new) p = call k (c old new) p

with_old-named :
    (old new : Option (List ℕ)) (k : Kernel) (c : List ℕ → List ℕ → Syscall)
    (opened newdirfd : Option ℕ) (newpath : List ℕ) (p : Process)
    → full_path k opened newdirfd newpath (lock p) ≡ (new, lock p)
    → with_old k c opened newdirfd newpath (old, lock p) ≡ call_named k c old new (unlock p)
with_old-named none new k c opened newdirfd newpath p e = refl
with_old-named (some old) none k c opened newdirfd newpath p e = ap (call_both k c old) e
with_old-named (some old) (some new) k c opened newdirfd newpath p e = ap (call_both k c old) e

on_full_paths-named :
    (k : Kernel) (c : List ℕ → List ℕ → Syscall) (opened opened' olddirfd : Option ℕ)
    (oldpath : List ℕ) (newdirfd : Option ℕ) (newpath : List ℕ) (p : Process)
    → IsAble k p
    → IsFresh opened olddirfd
    → IsFresh opened' newdirfd
    → IsShort (name_of k opened olddirfd oldpath p.calls p.descriptors)
    → IsShort (name_of k opened' newdirfd newpath p.calls p.descriptors)
    → on_full_paths k c opened opened' olddirfd oldpath newdirfd newpath p
      ≡ call_named k c
          (name_of k opened olddirfd oldpath p.calls p.descriptors)
          (name_of k opened' newdirfd newpath p.calls p.descriptors)
          (unlock p)
on_full_paths-named k c opened opened' olddirfd oldpath newdirfd newpath p able fresh fresh' short
      short' =
    let locked_able : IsAble k (lock p) = record {
      has_memory = able.has_memory;
      returns = able.returns;
    } in
    let old = full_path-name_of k opened olddirfd oldpath (lock p) locked_able fresh short in
    let new = full_path-name_of k opened' newdirfd newpath (lock p) locked_able fresh' short' in
    ap (with_old k c opened' newdirfd newpath) old
    ∙ with_old-named (name_of k opened olddirfd oldpath p.calls p.descriptors)
        (name_of k opened' newdirfd newpath p.calls p.descriptors) k c opened' newdirfd newpath p
        new

unlock_free : (p : Process) → p.locked ≡ false → unlock p ≡ p
unlock_free p free = ap (λ (b : Bool). record p { locked = b }) (sym free)

-- Where both descriptors are AT_FDCWD, it calls `rename` at once.
renameat_lem :
    (k : Kernel) (opened opened' olddirfd : Option ℕ) (oldpath : List ℕ) (newdirfd : Option ℕ)
    (newpath : List ℕ) (p : Process)
    → on_full_paths k sys_rename opened opened' olddirfd oldpath newdirfd newpath p
      ≡ call_named k sys_rename
          (name_of k opened olddirfd oldpath p.calls p.descriptors)
          (name_of k opened' newdirfd newpath p.calls p.descriptors)
          p
    → renameat k opened opened' olddirfd oldpath newdirfd newpath p
      ≡ call_named k sys_rename
          (name_of k opened olddirfd oldpath p.calls p.descriptors)
          (name_of k opened' newdirfd newpath p.calls p.descriptors)
          p
unfolding renameat
renameat_lem k opened opened' none oldpath none newpath p e = refl
renameat_lem k opened opened' none oldpath (some d) newpath p e = e
renameat_lem k opened opened' (some d) oldpath newdirfd newpath p e = e

linkat_lem :
    (k : Kernel) (opened opened' olddirfd : Option ℕ) (oldpath : List ℕ) (newdirfd : Option ℕ)
    (newpath : List ℕ) (p : Process)
    → linkat k opened opened' olddirfd oldpath newdirfd newpath p
      ≡ on_full_paths k sys_link opened opened' olddirfd oldpath newdirfd newpath p
unfolding linkat
linkat_lem k opened opened' olddirfd oldpath newdirfd newpath p = refl

-- When the mutex is free, there is memory to print the paths, the fchdir back to the current
-- directory succeeds, open(".") gives other descriptors than those passed, and the full names that
-- the paths stand for are shorter than 1024 bytes, renameat and linkat make one call with these two
-- names, or fail with no call where one cannot be told, and leave the current directory, the
-- descriptors and the mutex as they were.
pub renameat-linkat-named :
    (k : Kernel) (opened opened' olddirfd : Option ℕ) (oldpath : List ℕ) (newdirfd : Option ℕ)
    (newpath : List ℕ) (p : Process)
    → p.locked ≡ false
    → IsAble k p
    → IsFresh opened olddirfd
    → IsFresh opened' newdirfd
    → IsShort (name_of k opened olddirfd oldpath p.calls p.descriptors)
    → IsShort (name_of k opened' newdirfd newpath p.calls p.descriptors)
    → (renameat k opened opened' olddirfd oldpath newdirfd newpath p
        ≡ call_named k sys_rename
            (name_of k opened olddirfd oldpath p.calls p.descriptors)
            (name_of k opened' newdirfd newpath p.calls p.descriptors)
            p)
      × (linkat k opened opened' olddirfd oldpath newdirfd newpath p
          ≡ call_named k sys_link
              (name_of k opened olddirfd oldpath p.calls p.descriptors)
              (name_of k opened' newdirfd newpath p.calls p.descriptors)
              p)
renameat-linkat-named k opened opened' olddirfd oldpath newdirfd newpath p free able fresh fresh'
      short short' =
    let unlocked = unlock_free p free in
    let old = name_of k opened olddirfd oldpath p.calls p.descriptors in
    let new = name_of k opened' newdirfd newpath p.calls p.descriptors in
    let renamed =
      on_full_paths-named k sys_rename opened opened' olddirfd oldpath newdirfd newpath p able fresh
        fresh' short short' in
    let linked =
      on_full_paths-named k sys_link opened opened' olddirfd oldpath newdirfd newpath p able fresh
        fresh' short short' in
    (
      renameat_lem k opened opened' olddirfd oldpath newdirfd newpath p
          (renamed ∙ ap (call_named k sys_rename old new) unlocked),
      linkat_lem k opened opened' olddirfd oldpath newdirfd newpath p
          ∙ linked
          ∙ ap (call_named k sys_link old new) unlocked,
    )
