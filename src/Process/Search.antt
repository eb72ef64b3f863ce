-- ===== src/Process/Search.antt =====
-- src/process.c: what `execvpe` runs.
use libsolcompat.Common.{
  ℕ, ◌≡◌, refl, ◌∙◌, sym, ap, ap₂, Bool, true, false, ◌||◌, Option, none, some, List, [], ◌∷◌,
  if◌then◌else◌, Bool-cases, inl, inr, ltb, leb, length, ◌++◌, ◌+◌, arith, length-append, ◌≢◌, All,
  ◌==◌,
}
use libsolcompat.Process.{
  Errno, eacces, enoent, enotdir, other_errno, Executed, replaced, failed, Answer, runs, refuses,
  has_slash, path_in, or_getenv, or_default, components, candidate, reported, goes_on, is_eacces,
  try_candidate, search_loop, execvpe,
}

-- The name of the file in a directory; the empty directory is the current one.
abbrev pub full_name : List ℕ → List ℕ → List ℕ
full_name filename [] = b'.' ∷ b'/' ∷ filename
full_name filename (d ∷ dir) = (d ∷ dir) ++ (b'/' ∷ filename)

-- A name that a buffer of `path_max` bytes holds with its zero byte.
abbrev pub fitting : ℕ → List ℕ → Option (List ℕ)
fitting path_max name = if ltb (length name) path_max then some name else none

abbrev add_some : Option (List ℕ) → List (List ℕ) → List (List ℕ)
add_some none paths = paths
add_some (some path) paths = path ∷ paths

-- The names in the order of the directories, without those that do not fit.
abbrev pub names_in : ℕ → List ℕ → List (List ℕ) → List (List ℕ)
names_in path_max filename [] = []
names_in path_max filename (dir ∷ dirs) =
    add_some (fitting path_max (full_name filename dir)) (names_in path_max filename dirs)

-- The answers of `execve` after which the search goes on: EACCES, ENOENT and ENOTDIR.
abbrev pub is_passed : Answer → Bool
is_passed runs = false
is_passed (refuses eacces) = true
is_passed (refuses enoent) = true
is_passed (refuses enotdir) = true
is_passed (refuses (other_errno e)) = false

-- The candidates before the first that ends the search, and that one.
abbrev pub passed : (List ℕ → Answer) → List (List ℕ) → List (List ℕ)
passed execve [] = []
passed execve (path ∷ paths) = if is_passed (execve path) then path ∷ passed execve paths else []

abbrev pub ending : (List ℕ → Answer) → List (List ℕ) → Option (List ℕ)
ending execve [] = none
ending execve (path ∷ paths) = if is_passed (execve path) then ending execve paths else some path

abbrev pub is_denied : Answer → Bool
is_denied runs = false
is_denied (refuses eacces) = true
is_denied (refuses enoent) = false
is_denied (refuses enotdir) = false
is_denied (refuses (other_errno e)) = false

-- Whether one of the candidates was refused with EACCES.
abbrev pub met_eacces : (List ℕ → Answer) → List (List ℕ) → Bool
met_eacces execve [] = false
met_eacces execve (path ∷ paths) = is_denied (execve path) || met_eacces execve paths

abbrev errno_after : Answer → Errno → Errno
errno_after runs errno = errno
errno_after (refuses e) errno = e

abbrev pub last_errno : (List ℕ → Answer) → List (List ℕ) → Errno → Errno
last_errno execve [] errno = errno
last_errno execve (path ∷ paths) errno = last_errno execve paths (errno_after (execve path) errno)

abbrev verdict_at : Answer → List ℕ → Bool → Executed
verdict_at runs path denied = replaced path
verdict_at (refuses e) path denied = failed (if denied then eacces else e)

-- The first candidate that does not pass decides; without one, the last error, and EACCES if it was
-- met.
abbrev pub verdict : (List ℕ → Answer) → Option (List ℕ) → Bool → Errno → Executed
verdict execve none denied errno = failed (if denied then eacces else errno)
verdict execve (some path) denied errno = verdict_at (execve path) path denied

abbrev pub decided : (List ℕ → Answer) → List (List ℕ) → Bool → Errno → Executed
decided execve paths denied errno =
    verdict execve (ending execve paths) (denied || met_eacces execve (passed execve paths))
      (last_errno execve (passed execve paths) errno)

or_assoc : (a b c : Bool) → ((a || b) || c) ≡ (a || (b || c))
or_assoc true b c = refl
or_assoc false b c = refl

or_false : (a : Bool) → (a || false) ≡ a
or_false true = refl
or_false false = refl

is_eacces_lem : (e : Errno) → is_eacces e ≡ is_denied (refuses e)
is_eacces_lem eacces = refl
is_eacces_lem enoent = refl
is_eacces_lem enotdir = refl
is_eacces_lem (other_errno e) = refl

reported_lem : (b : Bool) (e : Errno) → failed (reported b e) ≡ failed (if b then eacces else e)
reported_lem true e = refl
reported_lem false e = refl

candidate_lem :
    (path_max : ℕ) (filename dir : List ℕ)
    → candidate path_max filename dir ≡ fitting path_max (full_name filename dir)
candidate_lem path_max filename [] =
    let same : leb (length filename + 3) path_max ≡ ltb (length (full_name filename [])) path_max =
      ground arith in
    rw same refl
candidate_lem path_max filename (d ∷ dir) =
    let sum = length-append {0} (d ∷ dir) (b'/' ∷ filename) in
    let same : leb (length (d ∷ dir) + 1 + length filename + 1) path_max
        ≡ ltb (length (full_name filename (d ∷ dir))) path_max =
      ground (arith, sum) in
    rw same refl

try_decided :
    (ans : Answer) (path : List ℕ) (paths : List (List ℕ)) (execve : List ℕ → Answer) (saved : Bool)
    (errno : Errno) (next : Bool → Errno → Executed)
    → execve path ≡ ans
    → ((s : Bool) (e : Errno) → next s e ≡ decided execve paths s e)
    → try_candidate (some path) execve saved errno next ≡ decided execve (path ∷ paths) saved errno
try_decided runs path paths execve saved errno next a ih = rw a (rw a refl)
try_decided (refuses e) path paths execve saved errno next a ih = elim (Bool-cases (goes_on e)) [
  | inl on ↦
      let met = met_eacces execve (passed execve paths) in
      let carried : last_errno execve (passed execve paths) e
          ≡ last_errno execve (passed execve paths) (errno_after (execve path) errno) =
        ap (λ (r : Answer). last_errno execve (passed execve paths) (errno_after r errno))
          (sym a) in
      rw (a, on)
        (rw a (
          ih (saved || is_eacces e) e
          ∙ ap₂ (λ (b : Bool) (x : Errno). verdict execve (ending execve paths) b x)
              (or_assoc saved (is_eacces e) met
                ∙ ap (λ (b : Bool). saved || (b || met)) (is_eacces_lem e))
              carried))
  | inr ends ↦ rw (a, ends) (rw (a, or_false saved) (reported_lem saved e))
]

one_directory :
    (found : Option (List ℕ)) (paths : List (List ℕ)) (execve : List ℕ → Answer) (saved : Bool)
    (errno : Errno) (next : Bool → Errno → Executed)
    → ((s : Bool) (e : Errno) → next s e ≡ decided execve paths s e)
    → try_candidate found execve saved errno next
      ≡ decided execve (add_some found paths) saved errno
one_directory none paths execve saved errno next ih = ih saved errno
one_directory (some path) paths execve saved errno next ih =
    try_decided (execve path) path paths execve saved errno next refl ih

search_loop-decided :
    (dirs : List (List ℕ)) (path_max : ℕ) (execve : List ℕ → Answer) (filename : List ℕ)
    (saved : Bool) (errno : Errno)
    → search_loop path_max execve filename dirs saved errno
      ≡ decided execve (names_in path_max filename dirs) saved errno
unfolding search_loop
search_loop-decided [] path_max execve filename saved errno =
    ap (λ (b : Bool). failed (reported b errno)) (sym (or_false saved))
    ∙ reported_lem (saved || false) errno
search_loop-decided (dir ∷ dirs) path_max execve filename saved errno =
    ap
      (λ (found : Option (List ℕ)).
        try_candidate found execve saved errno (search_loop path_max execve filename dirs))
      (candidate_lem path_max filename dir)
    ∙ one_directory (fitting path_max (full_name filename dir)) (names_in path_max filename dirs)
        execve saved errno (search_loop path_max execve filename dirs)
        (search_loop-decided dirs path_max execve filename)

-- Directories with colons between them.
abbrev pub joined : List (List ℕ) → List ℕ
joined [] = []
joined (dir ∷ []) = dir
joined (dir ∷ next ∷ dirs) = dir ++ (b':' ∷ joined (next ∷ dirs))

-- None of them has a colon.
abbrev pub AreSeparate : List (List ℕ) → Type 0
AreSeparate = All (All (λ c. c ≢ b':'))

components_last : (dir : List ℕ) → All (λ c. c ≢ b':') dir → components dir ≡ dir ∷ []
unfolding components
components_last [] h = refl
components_last (c ∷ dir) h =
    let other : (c == b':') ≡ false = ground (arith, h.0) in
    rw (other, components_last dir h.1) refl

components_more :
    (dir path : List ℕ)
    → All (λ c. c ≢ b':') dir
    → components (dir ++ (b':' ∷ path)) ≡ dir ∷ components path
unfolding components
components_more [] path h = refl
components_more (c ∷ dir) path h =
    let other : (c == b':') ≡ false = ground (arith, h.0) in
    rw (other, components_more dir path h.1) refl

components-joined :
    (dir : List ℕ) (dirs : List (List ℕ))
    → AreSeparate (dir ∷ dirs)
    → components (joined (dir ∷ dirs)) ≡ dir ∷ dirs
components-joined dir [] h = components_last dir h.0
components-joined dir (next ∷ dirs) h =
    components_more dir (joined (next ∷ dirs)) h.0
    ∙ ap (λ (l : List (List ℕ)). dir ∷ l) (components-joined next dirs h.1)

-- The value of PATH that is searched: that of the new environment, the caller's, or the default.
abbrev pub search_path : Option (List ℕ) → Option (List (List ℕ)) → List ℕ
search_path getenv envp = or_default (or_getenv (path_in envp) getenv)

-- Where the file name has no slash and the PATH that is searched is a list of directories without
-- colons, with colons between them: execvpe tries dir/name for each directory in their order, and
-- ./name for an empty one, without the names that do not fit in path_max bytes. The first that
-- execve does not refuse with EACCES, ENOENT or ENOTDIR decides: it runs, or execvpe fails. Where
-- none decides, execvpe fails. An error is EACCES if a name before was refused so, and else the
-- last one of execve.
pub execvpe-decided :
    (path_max : ℕ) (execve : List ℕ → Answer) (getenv : Option (List ℕ)) (filename : List ℕ)
    (envp : Option (List (List ℕ))) (errno : Errno) (dir : List ℕ) (dirs : List (List ℕ))
    → has_slash filename ≡ false
    → AreSeparate (dir ∷ dirs)
    → search_path getenv envp ≡ joined (dir ∷ dirs)
    → execvpe path_max execve getenv filename envp errno
      ≡ decided execve (names_in path_max filename (dir ∷ dirs)) false errno
unfolding execvpe
execvpe-decided path_max execve getenv filename envp errno dir dirs plain separate path = rw plain (
    ap (λ (ds : List (List ℕ)). search_loop path_max execve filename ds false errno)
      (ap components path ∙ components-joined dir dirs separate)
    ∙ search_loop-decided (dir ∷ dirs) path_max execve filename false errno)
