-- ===== src/Env/Helps.antt =====
-- The help texts and the paths, src/env.cc.
use ztyco.Base.{
  ◌≡◌, refl, ap, ◌∙◌, inl, inr, not, List, [], ◌∷◌, ◌++◌, if◌then◌else◌, keep, Str, same, same_refl,
  Bool-cases,
}
use ztyco.Env.{Env, remove_help, add_help}

-- The texts of a key.
abbrev pub texts : Str → List (Str × Str) → List Str
texts k [] = []
texts k ((k', d) ∷ hs) = let rest = texts k hs in if same k' k then d ∷ rest else rest

texts-removed : (k : Str) (hs : List (Str × Str)) → texts k (keep (λ h. not (same (h.0) k)) hs) ≡ []
texts-removed k [] = refl
texts-removed k ((k', d) ∷ hs) = elim (Bool-cases (same k' k)) [
  | inl e ↦ rw e (texts-removed k hs)
  | inr n ↦ rw (n, n) (texts-removed k hs)
]

texts-append : (k : Str) (xs ys : List (Str × Str)) → texts k (xs ++ ys) ≡ texts k xs ++ texts k ys
texts-append k [] ys = refl
texts-append k ((k', d) ∷ xs) ys = elim (Bool-cases (same k' k)) [
  | inl e ↦ rw e (ap (◌∷◌ d) (texts-append k xs ys))
  | inr n ↦ rw n (texts-append k xs ys)
]

-- After `addHelp` a key has the one text just added, and it is the last that is printed.
pub texts-add_help :
    (e : Env) (k d : Str)
    → (texts k (add_help e k d).helps ≡ d ∷ [])
      × ((add_help e k d).helps ≡ (remove_help e k).helps ++ (k, d) ∷ [])
unfolding add_help remove_help
texts-add_help e k d = (
  texts-append k (keep (λ x. not (same (x.0) k)) e.helps) ((k, d) ∷ [])
      ∙ rw (texts-removed k e.helps, same_refl k) refl,
  refl,
)
