-- ===== src/Env/Args.antt =====
-- What the command line becomes, src/env.cc.
use ztyco.Base.{
  ◌≡◌, refl, sym, ap, ◌∙◌, inl, inr, Bool, true, false, not, Option, none, some, List, [], ◌∷◌,
  ◌==◌, Str, same, same_refl, same→eq, Bool-cases, arith,
}
use ztyco.Env.{Env, find, assign, erase, add, has, del, get, value, arg_of, turn, parse, init, dash}

find-assign : (k v : Str) (m : List (Str × Str)) → find k (assign k v m) ≡ some v
find-assign k v [] = rw (same_refl k) refl
find-assign k v ((k', v') ∷ m) = elim (Bool-cases (same k k')) [
  | inl e ↦ rw (e, same_refl k) refl
  | inr n ↦ rw (n, n) (find-assign k v m)
]

find-assign_other :
    (j k v : Str) (m : List (Str × Str)) → same j k ≡ false → find j (assign k v m) ≡ find j m
find-assign_other j k v [] h = rw h refl
find-assign_other j k v ((k', v') ∷ m) h = elim (Bool-cases (same k k')) [
  | inl e ↦ let eq : k ≡ k' = same→eq k k' e in rw (e, h, sym (ap (same j) eq) ∙ h) refl
  | inr n ↦ elim (Bool-cases (same j k')) [
    | inl y ↦ rw (n, y) refl
    | inr o ↦ rw (n, o) (find-assign_other j k v m h)
  ]
]

find-erase : (k : Str) (m : List (Str × Str)) → find k (erase k m) ≡ none
find-erase k [] = refl
find-erase k ((k', v') ∷ m) = elim (Bool-cases (same k k')) [
  | inl e ↦ rw e (find-erase k m)
  | inr n ↦ rw (n, n) (find-erase k m)
]

find-erase_other :
    (j k : Str) (m : List (Str × Str)) → same j k ≡ false → find j (erase k m) ≡ find j m
find-erase_other j k [] h = refl
find-erase_other j k ((k', v') ∷ m) h = elim (Bool-cases (same k k')) [
  | inl e ↦
      let eq : k ≡ k' = same→eq k k' e in
      rw (e, sym (ap (same j) eq) ∙ h) (find-erase_other j k m h)
  | inr n ↦ elim (Bool-cases (same j k')) [
    | inl y ↦ rw (n, y) refl
    | inr o ↦ rw (n, o) (find-erase_other j k m h)
  ]
]

-- What `get` finds after `add` and after `del`: the value just added and nothing for the key, and
-- for every other key what it found before.
pub get-add-del :
    (e : Env) (j k v d : Str)
    → (get (add e k v) k d ≡ v)
      × (has (add e k v) k ≡ true)
      × (get (del e k) k d ≡ d)
      × (has (del e k) k ≡ false)
      × (same j k ≡ false → (get (add e k v) j d ≡ get e j d) × (get (del e k) j d ≡ get e j d))
unfolding get has add del
get-add-del e j k v d = (
  ground (arith, find-assign k v e.args),
  ground (arith, find-assign k v e.args),
  ground (arith, find-erase k e.args),
  ground (arith, find-erase k e.args),
  λ h. (
    ground (arith, find-assign_other j k v e.args h),
    ground (arith, find-erase_other j k e.args h),
  ),
)

-- An option as it is meant: a key, and a value or none.
abbrev pub Opt : Type 0
Opt = Str × Option Str

-- A value does not begin with a dash.
abbrev pub is_value : Str → Bool
is_value [] = true
is_value (c ∷ s) = not (c == dash)

abbrev pub is_some_char : Str → Bool
is_some_char [] = false
is_some_char (c ∷ s) = true

abbrev pub IsOpt : Opt → Type 0
IsOpt (k, none) = is_some_char k ≡ true
IsOpt (k, some v) = (is_some_char k ≡ true) × (is_value v ≡ true)

-- The options as arguments.
abbrev pub written : List Opt → List Str
written [] = []
written ((k, none) ∷ os) = (dash ∷ k) ∷ written os
written ((k, some v) ∷ os) = (dash ∷ k) ∷ v ∷ written os

-- The options added one after the other.
abbrev pub add_all : Env → List Opt → Env
unfolding add
add_all e [] = e
add_all e ((k, none) ∷ os) = add_all (add e k []) os
add_all e ((k, some v) ∷ os) = add_all (add e k v) os

arg_of_value : (v : Str) → is_value v ≡ true → arg_of v ≡ value v
arg_of_value [] h = refl
arg_of_value (c ∷ []) h = ground arith
arg_of_value (c ∷ d ∷ s) h = ground arith

-- `init` reads the program's own name as the first argument: where that does not begin with a
-- dash, it returns false and adds nothing, whatever the arguments are.
init_fails :
    (e : Env) (exe name : Str) (rest : List Str)
    → is_value name ≡ true
    → ((init e exe name rest).1 ≡ false) × (((init e exe name rest).0).args ≡ e.args)
unfolding init parse turn
init_fails e exe name rest h = rw (arg_of_value name h) (refl, refl)
