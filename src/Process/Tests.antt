-- ===== src/Process/Tests.antt =====
-- src/process.c: a search of two directories, and a user in one group.
use libsolcompat.Common.{
  ℕ, ◌≡◌, refl, arith, false, not, none, some, List, [], ◌∷◌, length, ltb, ◌==◌, if◌then◌else◌,
}
use libsolcompat.Process.{
  eacces, enoent, replaced, failed, Answer, runs, refuses, has_slash, execvpe, Group, getgrouplist,
  path_of, components, search_loop,
}
use libsolcompat.Process.Search.{names_in, joined, search_path, decided, execvpe-decided}
use libsolcompat.Process.Groups.{memberships, overlay, getgrouplist-overlay}

-- "PATH=a:"
abbrev environment : List (List ℕ)
environment = (b'P' ∷ b'A' ∷ b'T' ∷ b'H' ∷ b'=' ∷ b'a' ∷ b':' ∷ []) ∷ []

-- "ls"
abbrev name : List ℕ
name = b'l' ∷ b's' ∷ []

-- What begins with a dot runs.
abbrev answers : List ℕ → Answer
answers [] = refuses enoent
answers (c ∷ path) = if c == b'.' then runs else refuses eacces

name_lem : has_slash name ≡ false
unfolding has_slash
name_lem = refl

runs_it :
    execvpe 1024 answers none name (some environment) enoent
    ≡ replaced (b'.' ∷ b'/' ∷ b'l' ∷ b's' ∷ [])
unfolding execvpe has_slash path_of components search_loop
runs_it = refl

path_lem : search_path none (some environment) ≡ joined ((b'a' ∷ []) ∷ [] ∷ [])
unfolding path_of
path_lem = refl

execvpe-decided_example :
    execvpe 1024 answers none name (some environment) enoent
    ≡ decided answers (names_in 1024 name ((b'a' ∷ []) ∷ [] ∷ [])) false enoent
execvpe-decided_example =
    execvpe-decided 1024 answers none name (some environment) enoent (b'a' ∷ []) ([] ∷ []) name_lem
      (((λ e. absurd (omega arith)), tt), (tt, tt)) path_lem

-- EACCES in the first directory and ENOENT in the second: EACCES is reported, though it was not the
-- only kind of failure.
abbrev denied_then_absent : List ℕ → Answer
denied_then_absent [] = refuses enoent
denied_then_absent (c ∷ path) = if c == b'.' then refuses enoent else refuses eacces

reports_eacces : execvpe 1024 denied_then_absent none name (some environment) enoent ≡ failed eacces
unfolding execvpe has_slash path_of components search_loop
reports_eacces = refl

abbrev database : List Group
database = record { gr_gid = 5; gr_mem = name ∷ [] } ∷ record { gr_gid = 6; gr_mem = [] } ∷ []

getgrouplist-overlay_example :
    getgrouplist name 4 database (0 ∷ []) 1
    ≡ some (record {
      fits = not (ltb 1 (length (4 ∷ memberships name 4 database)));
      groups = overlay (4 ∷ memberships name 4 database) (0 ∷ []);
      ngroups = length (4 ∷ memberships name 4 database);
    })
getgrouplist-overlay_example = getgrouplist-overlay name 4 database (0 ∷ [])
