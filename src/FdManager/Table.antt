-- ===== src/FdManager/Table.antt =====
-- A sound table of descriptors, and what it is to write into one, src/fdmanager.cc.
use ztyco.Base.{
  ℕ, zero, suc, ◌-◌, ◌*◌, ◌/◌, ◌<◌, ◌≤◌, ◌≡◌, ◌≢◌, refl, sym, subst, ap, ◌∙◌, inl, inr, Option,
  none, some, List, [], ◌∷◌, ◌++◌, leb, ◌==◌, if◌then◌else◌, length, length-append, get_elem?, set,
  arith, Bool-cases,
}
use ztyco.FdManager.{new_manager, FdCtx, FdManager, nulls, grow, make, del}

-- The contexts in the table exist, and there is room for 64 descriptors at least.
pub record IsTable (m : FdManager) : Type 0 where
  pub room : 64 ≤ length m.datas
  pub known : (fd a : ℕ) → get_elem? m.datas fd ≡ some (some a) → a < m.fresh

pub length-set : (xs : List (Option ℕ)) (i : ℕ) (v : Option ℕ) → length (set xs i v) ≡ length xs
length-set [] i v = refl
length-set (x ∷ xs) zero v = refl
length-set (x ∷ xs) (suc i) v = ap suc (length-set xs i v)

length-nulls : (n : ℕ) → length (nulls n) ≡ n
length-nulls zero = refl
length-nulls (suc n) = ap suc (length-nulls n)

pub get_elem?-set :
    (xs : List (Option ℕ)) (i : ℕ) (v : Option ℕ)
    → i < length xs
    → get_elem? (set xs i v) i ≡ some v
get_elem?-set [] i v l = elim l [ ]
get_elem?-set (x ∷ xs) zero v l = refl
get_elem?-set (x ∷ xs) (suc i) v l = get_elem?-set xs i v (omega arith)

pub get_elem?-set_other :
    (xs : List (Option ℕ)) (i j : ℕ) (v : Option ℕ)
    → i ≢ j
    → get_elem? (set xs i v) j ≡ get_elem? xs j
get_elem?-set_other [] i j v n = refl
get_elem?-set_other (x ∷ xs) zero zero v n = absurd (n refl)
get_elem?-set_other (x ∷ xs) zero (suc j) v n = refl
get_elem?-set_other (x ∷ xs) (suc i) zero v n = refl
get_elem?-set_other (x ∷ xs) (suc i) (suc j) v n = get_elem?-set_other xs i j v (λ e. n (ap suc e))

get_elem?-nulls : (n j a : ℕ) → get_elem? (nulls n) j ≡ some (some a) → ⊥
get_elem?-nulls zero j a h = cc
get_elem?-nulls (suc n) zero a h = cc
get_elem?-nulls (suc n) (suc j) a h = get_elem?-nulls n j a h

-- Growing the table adds no pointer.
get_elem?-grow :
    (xs : List (Option ℕ)) (n j a : ℕ)
    → get_elem? (xs ++ nulls n) j ≡ some (some a)
    → get_elem? xs j ≡ some (some a)
get_elem?-grow [] n j a h = absurd (get_elem?-nulls n j a h)
get_elem?-grow (x ∷ xs) n zero a h = h
get_elem?-grow (x ∷ xs) n (suc j) a h = get_elem?-grow xs n j a h

-- The table that `make` writes into.
abbrev pub enlarged : FdManager → ℕ → List (Option ℕ)
enlarged m fd = if leb (length m.datas) fd then grow m.datas (fd * 3 / 2) else m.datas

pub length-enlarged :
    (m : FdManager) (fd : ℕ)
    → IsTable m
    → (fd < length (enlarged m fd)) × (length m.datas ≤ length (enlarged m fd))
length-enlarged m fd t =
    let r = t.room in
    let n = fd * 3 / 2 - length m.datas in
    elim (Bool-cases (leb (length m.datas) fd)) [
      | inl e ↦ rw e (
        ground (arith, length-append m.datas (nulls n), length-nulls n),
        ground (arith, length-append m.datas (nulls n), length-nulls n),
      )
      | inr e ↦ (ground arith, ground arith)
    ]

enlarged-known :
    (m : FdManager) (fd j a : ℕ)
    → get_elem? (enlarged m fd) j ≡ some (some a)
    → get_elem? m.datas j ≡ some (some a)
enlarged-known m fd j a h = elim (Bool-cases (leb (length m.datas) fd)) [
  | inl e ↦ get_elem?-grow m.datas (fd * 3 / 2 - length m.datas) j a (ground arith)
  | inr e ↦ ground arith
]

pub make-IsTable : (m : FdManager) (fd : ℕ) (c : FdCtx) → IsTable m → IsTable (make m fd c)
unfolding make
make-IsTable m fd c t =
    let big = length-enlarged m fd t in
    record {
      room = omega (arith, big.1, t.room, length-set (enlarged m fd) fd (some m.fresh));
      known = λ j a h. elim (Bool-cases (fd == j)) [
        | inl same ↦
            let eq : fd ≡ j = ground arith in
            let new = get_elem?-set (enlarged m fd) fd (some m.fresh) (big.0) in
            let at_j : get_elem? (set (enlarged m fd) fd (some m.fresh)) j ≡ some (some m.fresh) =
              subst (λ x. get_elem? (set (enlarged m fd) fd (some m.fresh)) x ≡ some (some m.fresh))
                eq new in
            ground (arith, sym h ∙ at_j)
        | inr other ↦
            let keeps = get_elem?-set_other (enlarged m fd) fd j (some m.fresh) (ground arith) in
            let old = t.known j a (enlarged-known m fd j a (sym keeps ∙ h)) in omega arith
      ];
    }

pub del-IsTable : (m : FdManager) (fd : ℕ) → IsTable m → IsTable (del m fd)
unfolding del
del-IsTable m fd t = elim (Bool-cases (leb (length m.datas) fd)) [
  | inl e ↦ rw e t
  | inr e ↦ rw e (record {
    room = omega (arith, t.room, length-set m.datas fd none);
    known = λ j a h. elim (Bool-cases (fd == j)) [
      | inl same ↦
          let eq : fd ≡ j = ground arith in
          let gone = get_elem?-set m.datas fd none (ground arith) in
          let at_j : get_elem? (set m.datas fd none) j ≡ some none =
            subst (λ x. get_elem? (set m.datas fd none) x ≡ some none) eq gone in
          absurd (ground (arith, sym h ∙ at_j))
      | inr other ↦ t.known j a (sym (get_elem?-set_other m.datas fd j none (ground arith)) ∙ h)
    ];
  })
]

pub new_manager-IsTable : IsTable new_manager
new_manager-IsTable = record {
  room = refl_room;
  known = λ fd a h. absurd (get_elem?-nulls 64 fd a h);
}
  where
    refl_room : 64 ≤ length (new_manager.datas)
    refl_room = omega (arith, length-nulls 64)
