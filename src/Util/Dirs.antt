-- ===== src/Util/Dirs.antt =====
-- What `Mkdir` makes, and that `Rm` and `ListAllFile` do not come back from a directory: src/util.cc.
use ztyco.Base.{
  ℕ, zero, suc, ◌≡◌, refl, ap, sym, ◌∙◌, inl, inr, Bool, true, false, ◌&&◌, Option, none, some,
  List, [], ◌∷◌, ◌++◌, Str, ok, Bool-cases,
}
use ztyco.Util.Files.{
  Kind, directory, regular, other, FileSystem, is_self, parents, make_one, make_each, mkdir, rm,
  rm_loop, list_loop, list_all_file, inside, ◌>>=◌,
}

>>=-none :
    {A B : Type 0} (o : Option A) (f : A → Option B) → ((a : A) → f a ≡ none) → (o >>= f) ≡ none
>>=-none none f h = refl
>>=-none (some a) f h = h a

module _ {K : Type 0} (fs : FileSystem K) where
  -- Whether all of the paths can be reached.
  abbrev pub all_reached : K → List Str → Bool
  all_reached k [] = true
  all_reached k (p ∷ ps) = let rest = all_reached k ps in fs.can_reach k p && rest

  rm_loop-none :
      (go : K → Str → Option (K × Bool)) (rounds : ℕ) (k : K) (path : Str) (d : Str × Kind)
      (ret : Bool)
      → rm_loop fs go rounds k path (some d) ret ≡ none
  rm_loop-none go zero k path d ret = refl
  rm_loop-none go (suc rounds) k path d ret = elim (Bool-cases (is_self d.0)) [
    | inl self ↦ rw self (rm_loop-none go rounds k path d ret)
    | inr away ↦ rw away (
        >>=-none (go k (inside fs path d.0)) (λ r. rm_loop fs go rounds r.0 path (some d) r.1)
          (λ r. rm_loop-none go rounds r.0 path d r.1))
  ]

  -- `Rm` of a directory with an entry never returns, whatever the fuel.
  rm-none :
      (n : ℕ) (k : K) (path : Str) (d : Str × Kind) (ds : List (Str × Kind))
      → fs.is_there k path ≡ true
      → fs.is_dir k path ≡ true
      → fs.list k path ≡ some (d ∷ ds)
      → rm fs n k path ≡ none
  unfolding rm
  rm-none zero k path d ds there is_dir listed = refl
  rm-none (suc n) k path d ds there is_dir listed =
      rw (there, is_dir, listed) (rm_loop-none (rm fs n) n k path d true)

  list_loop-none :
      (go : List Str → Str → Option (List Str)) (rounds : ℕ) (files : List Str) (path subfix : Str)
      (d : Str × Kind)
      → list_loop fs go rounds files path subfix (some d) ≡ none
  list_loop-none go zero files path subfix d = refl
  list_loop-none go (suc rounds) files path subfix (name, directory) =
      elim (Bool-cases (is_self name)) [
        | inl self ↦ rw self (list_loop-none go rounds files path subfix (name, directory))
        | inr away ↦ rw away (
            >>=-none (go files (inside fs path name)) _
              (λ fs'. list_loop-none go rounds fs' path subfix (name, directory)))
      ]
  list_loop-none go (suc rounds) files path subfix (name, regular) =
      list_loop-none go rounds _ path subfix (name, regular)
  list_loop-none go (suc rounds) files path subfix (name, other) =
      list_loop-none go rounds files path subfix (name, other)

  -- Nor does `ListAllFile`.
  list_all_file-none :
      (n : ℕ) (k : K) (path subfix : Str) (files : List Str) (d : Str × Kind)
      (ds : List (Str × Kind))
      → fs.can_reach k path ≡ true
      → fs.list k path ≡ some (d ∷ ds)
      → list_all_file fs n k subfix files path ≡ none
  unfolding list_all_file
  list_all_file-none zero k path subfix files d ds there listed = refl
  list_all_file-none (suc n) k path subfix files d ds there listed =
      rw (there, listed) (list_loop-none (list_all_file fs n k subfix) n files path subfix d)

  module _
      (reached : (k : K) (p : Str)
        → fs.can_reach k p ≡ false
        → fs.can_reach ((fs.mkdir k p).0) p ≡ (fs.mkdir k p).1)
      (kept : (k : K) (p q : Str)
        → fs.can_reach k q ≡ true
        → fs.can_reach ((fs.mkdir k p).0) q ≡ true) where
    one_reached : (k : K) (p : Str) → fs.can_reach ((make_one fs k p).0) p ≡ (make_one fs k p).1
    one_reached k p = elim (Bool-cases (fs.can_reach k p)) [
      | inl there ↦ rw there there
      | inr away ↦ rw away (reached k p away)
    ]

    one_kept :
        (k : K) (p q : Str) → fs.can_reach k q ≡ true → fs.can_reach ((make_one fs k p).0) q ≡ true
    one_kept k p q h = elim (Bool-cases (fs.can_reach k p)) [
      | inl there ↦ rw there h
      | inr away ↦ rw away (kept k p q h)
    ]

    each_kept :
        (k : K) (ps : List Str) (q : Str)
        → fs.can_reach k q ≡ true
        → fs.can_reach ((make_each fs k ps).0) q ≡ true
    each_kept k [] q h = h
    each_kept k (p ∷ ps) q h = elim (Bool-cases ((make_one fs k p).1)) [
      | inl good ↦ rw good (each_kept ((make_one fs k p).0) ps q (one_kept k p q h))
      | inr bad ↦ rw bad (one_kept k p q h)
    ]

    make_each_lem :
        (k : K) (ps : List Str) → (make_each fs k ps).1 ≡ all_reached ((make_each fs k ps).0) ps
    make_each_lem k [] = refl
    make_each_lem k (p ∷ ps) = elim (Bool-cases ((make_one fs k p).1)) [
      | inl good ↦
          let k1 = (make_one fs k p).0 in
          let rest : make_each fs k (p ∷ ps) ≡ make_each fs k1 ps = rw good refl in
          ap (λ r. r.1) rest
          ∙ make_each_lem k1 ps
          ∙ ap (λ b. b && all_reached ((make_each fs k1 ps).0) ps)
              (sym (each_kept k1 ps p (one_reached k p ∙ good)))
          ∙ sym (ap (λ r. all_reached r.0 (p ∷ ps)) rest)
      | inr bad ↦
          let k1 = (make_one fs k p).0 in
          let stop : make_each fs k (p ∷ ps) ≡ (k1, false) = rw bad refl in
          ap (λ r. r.1) stop
          ∙ ap (λ b. b && all_reached k1 ps) (sym (one_reached k p ∙ bad))
          ∙ sym (ap (λ r. all_reached r.0 (p ∷ ps)) stop)
    ]

    -- `Mkdir` of a name that is not empty and not there, over a file system where a directory that was
    -- made can be reached, one that could not be made cannot, and what could be reached still can: it
    -- returns, with success exactly if then the name and the text before each of its slashes, but one
    -- in front, can be reached.
    pub mkdir_lem :
        (k : K) (c : ℕ) (cs : Str)
        → fs.is_there k (c ∷ cs) ≡ false
        → (k' : K) × (mkdir fs k (c ∷ cs)
            ≡ ok (k', all_reached k' (parents (c ∷ []) cs ++ (c ∷ cs) ∷ [])))
    unfolding mkdir
    mkdir_lem k c cs away =
        let ps = parents (c ∷ []) cs ++ (c ∷ cs) ∷ [] in
        let k' = (make_each fs k ps).0 in (k', rw away (ap (λ b. ok (k', b)) (make_each_lem k ps)))
