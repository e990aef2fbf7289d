-- ===== src/Util/Tests.antt =====
-- The string and path helpers at concrete strings, src/util.cc.
use ztyco.Base.{
  ◌≡◌, refl, ap, [], ◌∷◌, List, Str, Bool, true, false, ◌||◌, none, ok, same, same_refl,
}
use ztyco.Util.Files.{FileSystem, mkdir}
use ztyco.Util.Dirs.{all_reached, mkdir_lem}
use ztyco.Util.{trim_left, trim_right}

-- The last character of the text is lost.
trim_right_runs : trim_right (97 ∷ 98 ∷ 32 ∷ []) (32 ∷ []) ≡ 97 ∷ []
unfolding trim_right
trim_right_runs = refl

trim_left_runs : trim_left (32 ∷ 97 ∷ 98 ∷ []) (32 ∷ []) ≡ 97 ∷ 98 ∷ []
unfolding trim_left
trim_left_runs = refl

-- A file system of the directories that have been made.
abbrev has : List Str → Str → Bool
has [] p = false
has (q ∷ qs) p = let rest = has qs p in same q p || rest

abbrev dirs : FileSystem (List Str)
dirs = record {
  is_there = has;
  is_dir = has;
  can_reach = has;
  mkdir = λ k p. (p ∷ k, true);
  unlink = λ k p. (k, false);
  rmdir = λ k p. (k, false);
  rename = λ k p q. (k, false);
  list = λ k p. none;
}

has_kept : (b c : Bool) → c ≡ true → (b || c) ≡ true
has_kept true c h = refl
has_kept false c h = h

-- `/a/b`
mkdir_lem_example :
    (k : List Str) × (mkdir dirs [] (47 ∷ 97 ∷ 47 ∷ 98 ∷ [])
      ≡ ok (k, all_reached dirs k ((47 ∷ 97 ∷ []) ∷ (47 ∷ 97 ∷ 47 ∷ 98 ∷ []) ∷ [])))
mkdir_lem_example =
    mkdir_lem dirs (λ k p h. ap (λ b. b || has k p) (same_refl p))
      (λ k p q h. has_kept (same p q) (has k q) h) [] 47 (97 ∷ 47 ∷ 98 ∷ []) refl
