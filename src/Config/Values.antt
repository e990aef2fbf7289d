-- ===== src/Config/Values.antt =====
-- The variables, their listeners and their lookup, src/config.cc and include/config.h.
use mathlib.Core.List.{append-nil}
use ztyco.Base.{
  ℕ, ◌+◌, ◌<◌, ◌≡◌, refl, ap, ◌∙◌, inl, inr, Bool, true, false, not, none, some, List, [], ◌∷◌,
  ◌++◌, ◌==◌, keep, map, Str, same, same_refl, All, Bool-cases, Option-cases, arith,
}
use ztyco.Config.{
  new_var, ConfigVar, Call, set_value, add_listener, del_listener, Datas, lookup_base, lookup,
  lookup_default,
}

-- The ids of the listeners were given out before, and each is there once.
abbrev pub AreGiven : ℕ → List ℕ → Type 0
AreGiven last ids = All (λ i. i < last + 1) ids

keep_fresh :
    (last : ℕ) (ids : List ℕ) → AreGiven last ids → keep (λ i. not (i == last + 1)) ids ≡ ids
keep_fresh last [] h = refl
keep_fresh last (i ∷ ids) h =
    let n : (i == last + 1) ≡ false = ground arith in rw n (ap (◌∷◌ i) (keep_fresh last ids (h.1)))

keep-append : (p : ℕ → Bool) (xs ys : List ℕ) → keep p (xs ++ ys) ≡ keep p xs ++ keep p ys
keep-append p [] ys = refl
keep-append p (x ∷ xs) ys = elim (Bool-cases (p x)) [
  | inl e ↦ rw e (ap (◌∷◌ x) (keep-append p xs ys))
  | inr n ↦ rw n (keep-append p xs ys)
]

-- A listener that is added and deleted again leaves the listeners as they were.
pub del_listener-add_listener :
    {T : Type 0} (last : ℕ) (x : ConfigVar T)
    → AreGiven last x.listeners
    → let (x', id) = add_listener last x in del_listener x' id ≡ x
unfolding add_listener del_listener
del_listener-add_listener last x h =
    ap (λ ids. record x { listeners = ids })
      (keep-append (λ i. not (i == last + 1)) x.listeners ((last + 1) ∷ [])
        ∙ rw (keep_fresh last x.listeners h) (ground (arith, append-nil x.listeners)))

-- The listener that is called.
abbrev pub called : {T : Type 0} → Call T → ℕ
called (i, old, new) = i

map-called :
    {T : Type 0} (old new : T) (ids : List ℕ) → map called (map (λ id. (id, old, new)) ids) ≡ ids
map-called old new [] = refl
map-called old new (i ∷ ids) = ap (◌∷◌ i) (map-called old new ids)

-- After `setValue` the variable has a value equal to the one given, and the same listeners;
-- setting the same value again calls none. Where the value was another one, every listener is
-- called once, in the order of the listeners. The equality holds of every value and itself.
set_value_lem :
    {T : Type 0} (eq : T → T → Bool) (x : ConfigVar T) (v : T)
    → ((t : T) → eq t t ≡ true)
    → let r = set_value eq x v in
      (eq v (r.0).value ≡ true)
      × ((r.0).listeners ≡ x.listeners)
      × (set_value eq (r.0) v ≡ (r.0, []))
      × (eq v x.value ≡ false → map called (r.1) ≡ x.listeners)
unfolding set_value
set_value_lem eq x v self = elim (Bool-cases (eq v x.value)) [
  | inl e ↦ (ground arith, ground arith, ground arith, λ h. absurd (ground arith))
  | inr n ↦ (
    ground (arith, self v),
    ground arith,
    ground (arith, self v),
    λ h. ground (arith, map-called x.value v x.listeners),
  )
]

lookup_base-append :
    {T : Type 0} (name : Str) (m : Datas T) (x : ConfigVar T)
    → lookup_base name m ≡ none
    → lookup_base name (m ++ (name, x) ∷ []) ≡ some x
lookup_base-append name [] x h = rw (same_refl name) refl
lookup_base-append name ((n, y) ∷ m) x h = elim (Bool-cases (same name n)) [
  | inl e ↦ absurd (ground arith)
  | inr o ↦ rw o (lookup_base-append name m x (ground arith))
]

-- What `Lookup(name, default)` returns is what every later `Lookup(name)` of the same type returns,
-- and a later `Lookup` with another default changes nothing and returns it too.
pub lookup-lookup_default :
    {T : Type 0} (kind : ℕ) (m : Datas T) (name : Str) (v w : T)
    → let r = lookup_default kind m name v in
      (lookup kind (r.0) name ≡ r.1) × (lookup_default kind (r.0) name w ≡ r)
unfolding lookup lookup_default
lookup-lookup_default kind m name v w = elim (Option-cases (lookup_base name m)) [
  | inr (x, e) ↦ rw e (rw e refl, rw e refl)
  | inl n ↦
      let found = lookup_base-append name m (new_var kind v) n in
      rw (n, found) (ground arith, ground arith)
]
