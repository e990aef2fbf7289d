-- ===== src/Util/Files.antt =====
-- Directories and files, `FSUtil` of src/util.cc, over a file system that is an argument.
use ztyco.Base.{
  ℕ, zero, suc, ◌-◌, Bool, true, false, not, ◌&&◌, ◌||◌, Option, none, some, List, [], ◌∷◌, ◌++◌,
  ◌==◌, leb, if◌then◌else◌, Str, same, Outcome, ok, undefined, length,
}
use ztyco.Util.{slash, dot}

-- What `readdir` gives of an entry: a directory, a regular file, or another kind.
pub data Kind : Type 0 where
  directory regular other : Kind

infixl 5 ◌>>=◌
abbrev pub ◌>>=◌ : {A B : Type 0} → Option A → (A → Option B) → Option B
none >>= f = none
some a >>= f = f a

-- The system calls, with whether they succeed. `is_there` is `lstat`, `can_reach` is `access`,
-- `list` is `opendir` and the entries that `readdir` gives one after the other.
pub record FileSystem (K : Type 0) : Type 0 where
  pub is_there : K → Str → Bool
  pub is_dir : K → Str → Bool
  pub can_reach : K → Str → Bool
  pub mkdir : K → Str → K × Bool
  pub unlink : K → Str → K × Bool
  pub rmdir : K → Str → K × Bool
  pub rename : K → Str → Str → K × Bool
  pub list : K → Str → Option (List (Str × Kind))

abbrev pub first : List (Str × Kind) → Option (Str × Kind)
first [] = none
first (d ∷ ds) = some d

-- `.` and `..`
abbrev pub is_self : Str → Bool
is_self name = same name (dot ∷ []) || same name (dot ∷ dot ∷ [])

-- The text before each slash but one at the very beginning.
abbrev pub parents : Str → Str → List Str
parents before [] = []
parents before (c ∷ cs) =
    let rest = parents (before ++ c ∷ []) cs in if c == slash then before ∷ rest else rest

-- Whether the end of a name is the given one.
abbrev pub drop : ℕ → Str → Str
drop zero s = s
drop (suc n) [] = []
drop (suc n) (c ∷ cs) = drop n cs

abbrev pub ends_in : Str → Str → Bool
ends_in subfix name =
    leb (length subfix) (length name) && same (drop (length name - length subfix) name) subfix

module _ {K : Type 0} (fs : FileSystem K) where
  -- `_mkdir`
  abbrev pub make_one : K → Str → K × Bool
  make_one k p = if fs.can_reach k p then (k, true) else fs.mkdir k p

  -- The loop of `Mkdir`, which stops at the first that fails.
  abbrev pub make_each : K → List Str → K × Bool
  make_each k [] = (k, true)
  make_each k (p ∷ ps) =
      let rest = make_each ((make_one k p).0) ps in
      if (make_one k p).1 then rest else ((make_one k p).0, false)

  -- `FSUtil::Mkdir`: of an empty name, it reads behind the end.
  abbrev pub dirs_of : Str → Outcome (List Str)
  dirs_of [] = undefined
  dirs_of (c ∷ cs) = ok (parents (c ∷ []) cs ++ (c ∷ cs) ∷ [])

  abbrev pub make_dirs : K → Outcome (List Str) → Outcome (K × Bool)
  make_dirs k (ok ps) = ok (make_each k ps)
  make_dirs k undefined = undefined
  make_dirs k Outcome.abort = Outcome.abort

  unfoldable pub mkdir : K → Str → Outcome (K × Bool)
  mkdir k name = if fs.is_there k name then ok (k, true) else make_dirs k (dirs_of name)

  -- `FSUtil::Unlink`
  unfoldable pub unlink : K → Str → Bool → K × Bool
  unlink k name exist =
      if not exist && not (fs.is_there k name) then (k, true) else fs.unlink k name

  abbrev pub inside : Str → Str → Str
  inside path name = path ++ slash ∷ name

  -- The loop of `Rm` over a directory, which reads one entry and never the next; `rounds` of it are
  -- made, and `none` is a loop that has not ended. `go` is `Rm` itself.
  abbrev pub rm_loop :
      (K → Str → Option (K × Bool)) → ℕ → K → Str → Option (Str × Kind) → Bool → Option (K × Bool)
  rm_loop go zero k path d ret = none
  rm_loop go (suc rounds) k path none ret =
      let (k', good) = fs.rmdir k path in some (k', ret && good)
  rm_loop go (suc rounds) k path (some d) ret =
      let again = rm_loop go rounds k path (some d) ret in
      if is_self d.0
      then again
      else go k (inside path d.0) >>= λ r. rm_loop go rounds r.0 path (some d) r.1

  abbrev pub rm_listed :
      (K → Str → Option (K × Bool)) → ℕ → K → Str → Option (List (Str × Kind)) → Option (K × Bool)
  rm_listed go rounds k path none = some (k, false)
  rm_listed go rounds k path (some ds) = rm_loop go rounds k path (first ds) true

  -- `FSUtil::Rm`, on fuel.
  unfoldable pub rm : ℕ → K → Str → Option (K × Bool)
  unfolding unlink
  rm zero k path = none
  rm (suc n) k path =
      let listed = rm_listed (rm n) n k path (fs.list k path) in
      if not (fs.is_there k path)
      then some (k, true)
      else if not (fs.is_dir k path)
      then some (unlink k path false)
      else listed

  -- `FSUtil::Mv`, on the same fuel.
  unfoldable pub mv : ℕ → K → Str → Str → Option (K × Bool)
  unfolding rm
  mv n k from to =
      rm n k to >>= λ r. if r.1 then some (fs.rename r.0 from to) else some (r.0, false)

  -- The loop of `ListAllFile`, which does not read a second entry either.
  abbrev pub list_loop :
      (List Str → Str → Option (List Str))
      → ℕ
      → List Str
      → Str
      → Str
      → Option (Str × Kind)
      → Option (List Str)
  list_loop go zero files path subfix d = none
  list_loop go (suc rounds) files path subfix none = some files
  list_loop go (suc rounds) files path subfix (some (name, directory)) =
      let again = list_loop go rounds files path subfix (some (name, directory)) in
      if is_self name
      then again
      else go files (inside path name) >>= λ fs'.
          list_loop go rounds fs' path subfix (some (name, directory))
  list_loop go (suc rounds) files path subfix (some (name, regular)) =
      let fs' = if ends_in subfix name then files ++ inside path name ∷ [] else files in
      list_loop go rounds fs' path subfix (some (name, regular))
  list_loop go (suc rounds) files path subfix (some (name, other)) =
      list_loop go rounds files path subfix (some (name, other))

  abbrev pub list_listed :
      (List Str → Str → Option (List Str))
      → ℕ
      → List Str
      → Str
      → Str
      → Option (List (Str × Kind))
      → Option (List Str)
  list_listed go rounds files path subfix none = some files
  list_listed go rounds files path subfix (some ds) =
      list_loop go rounds files path subfix (first ds)

  -- `FSUtil::ListAllFile`, on fuel.
  unfoldable pub list_all_file : ℕ → K → Str → List Str → Str → Option (List Str)
  list_all_file zero k subfix files path = none
  list_all_file (suc n) k subfix files path =
      let listed = list_listed (list_all_file n k subfix) n files path subfix (fs.list k path) in
      if fs.can_reach k path then listed else some files
