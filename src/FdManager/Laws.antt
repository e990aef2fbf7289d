-- ===== src/FdManager/Laws.antt =====
-- What the table of descriptors promises, src/fdmanager.cc.
use ztyco.Base.{
  ℕ, zero, suc, ◌<◌, ◌≤◌, ◌≡◌, ◌≢◌, refl, sym, ap, ◌∙◌, inl, inr, Bool, true, false, Option, none,
  some, List, [], ◌∷◌, leb, ◌==◌, is_some, length, get_elem?, arith, Bool-cases, Option-cases,
}
use ztyco.FdManager.{
  Sys, FdCtx, FdManager, entry, look, make, get_nat, look_then, del, new_ctx, change,
}
use ztyco.FdManager.Table.{
  IsTable, enlarged, length-set, get_elem?-set, get_elem?-set_other, length-enlarged, make-IsTable,
}

-- The calls on the table, and changes of the context that a pointer leads to.
pub data Step {K : Type 0} (sys : Sys K) (m : FdManager) : FdManager → Type 0 where
  getting : (k : K) (fd : ℕ) (auto_create : Bool) → Step sys m ((get_nat sys k m fd auto_create).1)
  deleting : (fd : ℕ) → Step sys m (del m fd)
  changing : (a : ℕ) (c : FdCtx) → Step sys m (change m a c)

pub make-entry :
    (m : FdManager) (fd : ℕ) (c : FdCtx)
    → IsTable m
    → (entry (make m fd c) fd ≡ some m.fresh) × (fd < length (make m fd c).datas)
unfolding make
make-entry m fd c t =
    let big = length-enlarged m fd t in
    (
      ground (arith, get_elem?-set (enlarged m fd) fd (some m.fresh) (big.0)),
      omega (arith, big.0, length-set (enlarged m fd) fd (some m.fresh)),
    )

look_found :
    (m : FdManager) (fd a : ℕ) (b : Bool) → entry m fd ≡ some a → look m fd b ≡ some (some a)
unfolding look
look_found m fd a b h = elim (Bool-cases (leb (length m.datas) fd)) [
  | inl e ↦ absurd (beyond m.datas fd a (ground arith) h)
  | inr e ↦ ground arith
]
  where
    beyond :
        (xs : List (Option ℕ)) (i a : ℕ)
        → length xs ≤ i
        → elim (get_elem? xs i) as (λ _. Option ℕ) [ none ↦ none | some p ↦ p ] ≡ some a
        → ⊥
    beyond [] i a l h = cc
    beyond (x ∷ xs) zero a l h = elim l [ ]
    beyond (x ∷ xs) (suc i) a l h = beyond xs i a (omega arith) h

get_made :
    {K : Type 0} (sys : Sys K) (k : K) (m : FdManager) (fd : ℕ)
    → IsTable m
    → (a : ℕ) × ((get_nat sys k m fd true).2 ≡ some a)
      × (entry ((get_nat sys k m fd true).1) fd ≡ some a)
unfolding get_nat look_then
get_made sys k m fd t = elim (Option-cases (look m fd true)) [
  | inl e ↦ (m.fresh, rw e refl, rw e ((make-entry m fd ((new_ctx sys k fd).1) t).0))
  | inr (r, e) ↦ elim (Option-cases (entry m fd)) [
    | inl none_there ↦ absurd (unfold look in ground arith)
    | inr (a, there) ↦
        let same : some (some a) ≡ some r = sym (look_found m fd a true there) ∙ e in
        (a, rw e (ground arith), rw e there)
  ]
]

get_again :
    {K : Type 0} (sys : Sys K) (k : K) (m : FdManager) (fd a : ℕ) (b : Bool)
    → look m fd b ≡ some (some a)
    → get_nat sys k m fd b ≡ (k, m, some a)
unfolding get_nat look_then
get_again sys k m fd a b h = rw h refl

-- In a sound table `get(fd, true)` returns a context, and from then on every `get(fd)`, creating
-- or not, returns that same context and changes nothing, whatever the kernel's state is.
get-get :
    {K : Type 0} (sys : Sys K) (k k' : K) (m : FdManager) (fd : ℕ) (auto_create : Bool)
    → IsTable m
    → let first = get_nat sys k m fd true in
      (is_some (first.2) ≡ true)
      × (get_nat sys k' (first.1) fd auto_create ≡ (k', first.1, first.2))
get-get sys k k' m fd auto_create t =
    let (a, returned, there) = get_made sys k m fd t in
    let again = look_found ((get_nat sys k m fd true).1) fd a auto_create there in
    (
      ground arith,
      get_again sys k' ((get_nat sys k m fd true).1) fd a auto_create again
          ∙ ap (λ r. (k', (get_nat sys k m fd true).1, r)) (sym returned),
    )

get_elem?-beyond : (xs : List (Option ℕ)) (i : ℕ) → length xs ≤ i → get_elem? xs i ≡ none
get_elem?-beyond [] i l = refl
get_elem?-beyond (x ∷ xs) zero l = elim l [ ]
get_elem?-beyond (x ∷ xs) (suc i) l = get_elem?-beyond xs i (omega arith)

-- `get(fd)` reads the table and changes nothing.
pub get_entry :
    {K : Type 0} (sys : Sys K) (k : K) (m : FdManager) (fd : ℕ)
    → get_nat sys k m fd false ≡ (k, m, entry m fd)
unfolding get_nat look_then look
get_entry sys k m fd = elim (Bool-cases (leb (length m.datas) fd)) [
  | inl e ↦ ground (arith, get_elem?-beyond m.datas fd (ground arith))
  | inr e ↦ ground arith
]

-- After `del(fd)`, `get(fd)` returns no context and every other descriptor of the table keeps its
-- own.
pub get-del :
    {K : Type 0} (sys : Sys K) (k : K) (m : FdManager) (fd : ℕ)
    → (get_nat sys k (del m fd) fd false ≡ (k, del m fd, none))
      × ((j : ℕ) → fd ≢ j → entry (del m fd) j ≡ entry m j)
unfolding get_nat look_then look del
get-del sys k m fd = elim (Bool-cases (leb (length m.datas) fd)) [
  | inl e ↦ (ground arith, λ j n. ground arith)
  | inr e ↦ (
    ground (arith, length-set m.datas fd none, get_elem?-set m.datas fd none (ground arith)),
    λ j n. ground (arith, get_elem?-set_other m.datas fd j none n),
  )
]

-- A new context never changes the descriptor's flags, and all the same notes a socket as one that
-- the system holds in non-blocking mode.
pub new_ctx_blocking :
    {K : Type 0} (sys : Sys K) (k : K) (fd : ℕ)
    → ((new_ctx sys k fd).0 ≡ k)
      × (sys.fstat k fd ≡ some true → ((new_ctx sys k fd).1).sys_nonblock ≡ true)
unfolding new_ctx
new_ctx_blocking sys k fd = elim (Bool-cases (sys.getfl k fd == 0)) [
  | inl e ↦ (ground arith, λ h. ground arith)
  | inr e ↦ (ground arith, λ h. ground arith)
]

-- Where the context of a descriptor is made twice in a sound table, the table keeps the second,
-- and a change through the pointer to the first does not reach it.
make-make :
    (m : FdManager) (fd : ℕ) (c c' d : FdCtx)
    → IsTable m
    → let m' = change (make (make m fd c) fd c') m.fresh d in
      (entry (make m fd c) fd ≡ some m.fresh)
      × (entry m' fd ≡ some (suc m.fresh))
      × (m'.ctxs (suc m.fresh) ≡ c')
make-make m fd c c' d t =
    let first = make-entry m fd c t in
    let second = make-entry (make m fd c) fd c' (make-IsTable m fd c t) in
    (first.0, unfold make in second.0, unfold make in ground arith)
