-- ===== src/Util/Laws.antt =====
-- What is trimmed from a string, and the parts of a path, src/util.cc.
use mathlib.Core.List.{append_assoc}
use ztyco.Base.{
  ℕ, suc, ◌+◌, ◌-◌, ◌≡◌, refl, sym, ap, ap₂, ◌∙◌, true, false, none, some, [], ◌∷◌, ◌++◌, ◌==◌,
  take, mem, Str, All, length, length-append, arith,
}
use ztyco.Util.{
  next, find_first_not_of, find_last_not_of, rfind, drop, trim, trim_at, trim_left, trim_left_at,
  trim_right, trim_right_at, slash, dirname, dirname_at, basename, basename_at,
}

first_not_of-append :
    (d ds s : Str) (c : ℕ)
    → All (λ x. mem x d ≡ true) ds
    → mem c d ≡ false
    → find_first_not_of d (ds ++ c ∷ s) ≡ some (length ds)
first_not_of-append d [] s c h n = rw n refl
first_not_of-append d (x ∷ ds) s c h n = rw (h.0) (ap next (first_not_of-append d ds s c (h.1) n))

last_none : (d es : Str) → All (λ x. mem x d ≡ true) es → find_last_not_of d es ≡ none
last_none d [] h = refl
last_none d (x ∷ es) h = rw (h.0, last_none d es (h.1)) refl

last_not_of-append :
    (d s es : Str) (c : ℕ)
    → All (λ x. mem x d ≡ true) es
    → mem c d ≡ false
    → find_last_not_of d (s ++ c ∷ es) ≡ some (length s)
last_not_of-append d [] es c h n = rw (n, last_none d es h) refl
last_not_of-append d (x ∷ s) es c h n = rw (last_not_of-append d s es c h n) refl

drop-append : (xs ys : Str) → drop (length xs) (xs ++ ys) ≡ ys
drop-append [] ys = refl
drop-append (x ∷ xs) ys = drop-append xs ys

take-append : (xs ys : Str) → take (length xs) (xs ++ ys) ≡ xs
take-append [] ys = refl
take-append (x ∷ xs) ys = ap (◌∷◌ x) (take-append xs ys)

-- For a text `c ∷ m`, which is `m' ++ e ∷ []`, between delimiters, that begins and ends with none:
-- `Trim` gives the text, `TrimLeft` the text with what follows it, and `TrimRight` what stands
-- before it with the text, but without the text's last character.
trim_lem :
    (d ds es m m' : Str) (c e : ℕ)
    → All (λ x. mem x d ≡ true) ds
    → All (λ x. mem x d ≡ true) es
    → mem c d ≡ false
    → mem e d ≡ false
    → c ∷ m ≡ m' ++ e ∷ []
    → let s = ds ++ ((c ∷ m) ++ es) in
      (trim s d ≡ c ∷ m) × (trim_left s d ≡ (c ∷ m) ++ es) × (trim_right s d ≡ ds ++ m')
unfolding trim trim_left trim_right
trim_lem d ds es m m' c e hd he nc ne same =
    let s = ds ++ ((c ∷ m) ++ es) in
    let first = first_not_of-append d ds (m ++ es) c hd nc in
    let split : s ≡ (ds ++ m') ++ e ∷ es =
      ap (λ x. ds ++ (x ++ es)) same
      ∙ ap (λ x. ds ++ x) (append_assoc m' (e ∷ []) es)
      ∙ sym (append_assoc ds m' (e ∷ es)) in
    let last : find_last_not_of d s ≡ some (length (ds ++ m')) =
      ap (find_last_not_of d) split ∙ last_not_of-append d (ds ++ m') es e he ne in
    let size : length (ds ++ m') - length ds + 1 ≡ length (c ∷ m) =
      omega (arith, length-append ds m', length-append m' (e ∷ []), ap length same) in
    (
      ap₂ (trim_at s) first last
          ∙ ap₂ take size (drop-append ds ((c ∷ m) ++ es))
          ∙ take-append (c ∷ m) es,
      ap (trim_left_at s) first ∙ drop-append ds ((c ∷ m) ++ es),
      ap (trim_right_at s) last
          ∙ ap (take (length (ds ++ m'))) split
          ∙ take-append (ds ++ m') (e ∷ es),
    )

rfind-none : (b : Str) → All (λ x. (x == slash) ≡ false) b → rfind slash b ≡ none
rfind-none [] h = refl
rfind-none (x ∷ b) h = rw (h.0, rfind-none b (h.1)) refl

rfind-append :
    (p b : Str) → All (λ x. (x == slash) ≡ false) b → rfind slash (p ++ slash ∷ b) ≡ some (length p)
rfind-append [] b h = rw (rfind-none b h) refl
rfind-append (x ∷ p) b h = rw (rfind-append p b h) refl

-- A path of a directory and a name without a slash: `Dirname` and `Basename` give the two back.
pub dirname-basename :
    (c : ℕ) (p b : Str)
    → All (λ x. (x == slash) ≡ false) b
    → (dirname ((c ∷ p) ++ slash ∷ b) ≡ c ∷ p) × (basename ((c ∷ p) ++ slash ∷ b) ≡ b)
unfolding dirname basename
dirname-basename c p b h =
    let s = (c ∷ p) ++ slash ∷ b in
    let found = rfind-append (c ∷ p) b h in
    let plus : length (c ∷ p) + 1 ≡ suc (suc (length p)) = omega arith in
    (
      ap (dirname_at s) found ∙ take-append (c ∷ p) (slash ∷ b),
      ap (basename_at s) found ∙ ap (λ n. drop n s) plus ∙ past p,
    )
  where
    past : (q : Str) → drop (suc (length q)) (q ++ slash ∷ b) ≡ b
    past [] = refl
    past (x ∷ q) = past q
