-- ===== src/Address/Order.antt =====
-- The comparison of addresses, `Address::operator<`, `==` and `!=` of src/address.cc, over what
-- the virtual functions return: the memory at `getAddr()` and `getAddrLen()`.
use Prim.Native.Nat.{compare, Ordering}
use ztyco.Base.{
  ℕ, zero, suc, ◌≤◌, min, ◌≡◌, ◌⊎◌, ◌↔◌, take, same, same→eq, same_refl, ap, sym, ◌∙◌, ==_iff, inl,
  inr, refl, Bool, true, false, not, ◌&&◌, List, [], ◌∷◌, ltb, ◌==◌, length, arith, Bool-cases,
}

pub record View : Type 0 where
  pub bytes : List ℕ
  pub len : ℕ

-- `memcmp` of `n` bytes, for memory of at least `n` bytes.
pub memcmp : ℕ → List ℕ → List ℕ → Ordering
memcmp zero xs ys = Ordering.eq
memcmp (suc n) [] ys = Ordering.eq
memcmp (suc n) (x ∷ xs) [] = Ordering.eq
memcmp (suc n) (x ∷ xs) (y ∷ ys) =
    let rest = memcmp n xs ys in elim (compare x y) [ Ordering.eq ↦ rest | o ↦ o ]

-- `operator<`
unfoldable pub less : View → View → Bool
unfolding memcmp
less a b = elim (memcmp (min a.len b.len) a.bytes b.bytes) [
  | Ordering.lt ↦ true
  | Ordering.gt ↦ false
  | Ordering.eq ↦ ltb a.len b.len
]

-- `operator==` and `operator!=`
unfoldable pub equal : View → View → Bool
unfolding memcmp
equal a b = a.len == b.len && elim (memcmp a.len a.bytes b.bytes) [ Ordering.eq ↦ true | _ ↦ false ]

unfoldable pub differs : View → View → Bool
unfolding equal
differs a b = not (equal a b)

-- The lexicographic order of texts.
abbrev pub precedes : List ℕ → List ℕ → Bool
precedes xs [] = false
precedes [] (y ∷ ys) = true
precedes (x ∷ xs) (y ∷ ys) =
    let rest = precedes xs ys in
    elim (compare x y) [ Ordering.lt ↦ true | Ordering.eq ↦ rest | Ordering.gt ↦ false ]

abbrev outcome : ℕ → ℕ → Ordering → Bool
outcome m n o = elim o [ Ordering.lt ↦ true | Ordering.gt ↦ false | Ordering.eq ↦ ltb m n ]

-- The bytes that are compared.
abbrev pub seen : View → List ℕ
seen v = take v.len v.bytes

less_take :
    (m n : ℕ) (xs ys : List ℕ)
    → m ≤ length xs
    → n ≤ length ys
    → outcome m n (memcmp (min m n) xs ys) ≡ precedes (take m xs) (take n ys)
unfolding memcmp
less_take zero zero xs ys p q = refl
less_take zero (suc n) xs [] p q = absurd (omega arith)
less_take zero (suc n) xs (y ∷ ys) p q =
    let e : min 0 (suc n) ≡ 0 = omega arith in rw e (ground arith)
less_take (suc m) zero [] ys p q = absurd (omega arith)
less_take (suc m) zero (x ∷ xs) ys p q =
    let e : min (suc m) 0 ≡ 0 = omega arith in rw e (ground arith)
less_take (suc m) (suc n) [] ys p q = absurd (omega arith)
less_take (suc m) (suc n) (x ∷ xs) [] p q = absurd (omega arith)
less_take (suc m) (suc n) (x ∷ xs) (y ∷ ys) p q =
    let ih = less_take m n xs ys (omega arith) (omega arith) in
    let e : min (suc m) (suc n) ≡ suc (min m n) = omega arith in rw e (ground (arith, ih))

equal_take :
    (m : ℕ) (xs ys : List ℕ)
    → m ≤ length xs
    → m ≤ length ys
    → (elim (memcmp m xs ys) as (λ _. Bool) [ Ordering.eq ↦ true | _ ↦ false ])
      ≡ same (take m xs) (take m ys)
unfolding memcmp
equal_take zero xs ys p q = refl
equal_take (suc m) [] ys p q = absurd (omega arith)
equal_take (suc m) (x ∷ xs) [] p q = absurd (omega arith)
equal_take (suc m) (x ∷ xs) (y ∷ ys) p q =
    let ih = equal_take m xs ys (omega arith) (omega arith) in ground (arith, ih)

precedes_irrefl : (xs : List ℕ) → precedes xs xs ≡ false
precedes_irrefl [] = refl
precedes_irrefl (x ∷ xs) = ground (arith, precedes_irrefl xs)

precedes_trans :
    (xs ys zs : List ℕ) → precedes xs ys ≡ true → precedes ys zs ≡ true → precedes xs zs ≡ true
precedes_trans xs ys [] p q = cc
precedes_trans xs [] (z ∷ zs) p q = cc
precedes_trans [] (y ∷ ys) (z ∷ zs) p q = refl
precedes_trans (x ∷ xs) (y ∷ ys) (z ∷ zs) p q = ground (arith, precedes_trans xs ys zs)

head_total :
    (x y : ℕ) (xs ys : List ℕ)
    → (precedes xs ys ≡ true) ⊎ (xs ≡ ys) ⊎ (precedes ys xs ≡ true)
    → (precedes (x ∷ xs) (y ∷ ys) ≡ true) ⊎ (x ∷ xs ≡ y ∷ ys) ⊎ (precedes (y ∷ ys) (x ∷ xs) ≡ true)
head_total x y xs ys rest = elim (Bool-cases (ltb x y)) [
  | inl lt ↦ inl (ground arith)
  | inr ge ↦ elim (Bool-cases (ltb y x)) [
    | inl gt ↦ inr (inr (ground arith))
    | inr le ↦
        let e : x ≡ y = ground arith in
        elim rest [
          | inl p ↦ inl (ground arith)
          | inr r ↦ elim r [ inl same_rest ↦ inr (inl (cc)) | inr p ↦ inr (inr (ground arith)) ]
        ]
  ]
]

precedes_total : (xs ys : List ℕ) → (precedes xs ys ≡ true) ⊎ (xs ≡ ys) ⊎ (precedes ys xs ≡ true)
precedes_total [] [] = inr (inl refl)
precedes_total [] (y ∷ ys) = inl refl
precedes_total (x ∷ xs) [] = inr (inr refl)
precedes_total (x ∷ xs) (y ∷ ys) = head_total x y xs ys (precedes_total xs ys)

less-precedes :
    (a b : View)
    → a.len ≤ length a.bytes
    → b.len ≤ length b.bytes
    → less a b ≡ precedes (seen a) (seen b)
unfolding less
less-precedes a b ha hb = less_take a.len b.len a.bytes b.bytes ha hb

length-take : (n : ℕ) (xs : List ℕ) → n ≤ length xs → length (take n xs) ≡ n
length-take zero xs h = refl
length-take (suc n) [] h = absurd (omega arith)
length-take (suc n) (x ∷ xs) h = omega (arith, length-take n xs (omega arith))

equal-seen :
    (a b : View)
    → a.len ≤ length a.bytes
    → b.len ≤ length b.bytes
    → (equal a b ≡ true) ↔ (seen a ≡ seen b)
unfolding equal
equal-seen a b ha hb = (forth, back)
  where
    forth : equal a b ≡ true → seen a ≡ seen b
    forth h =
        let e : a.len ≡ b.len = ground arith in
        let t = equal_take a.len a.bytes b.bytes ha (omega arith) in
        let u : same (take a.len a.bytes) (take a.len b.bytes) ≡ true = ground (arith, t) in
        same→eq _ _ u ∙ ap (λ n. take n b.bytes) e

    back : seen a ≡ seen b → equal a b ≡ true
    back h =
        let n = ap length h in
        let e : a.len ≡ b.len =
          omega (arith, n, length-take a.len a.bytes ha, length-take b.len b.bytes hb) in
        let t = equal_take a.len a.bytes b.bytes ha (omega arith) in
        let u : take a.len b.bytes ≡ take a.len a.bytes = ap (λ k. take k b.bytes) e ∙ sym h in
        let v : same (take a.len a.bytes) (take a.len b.bytes) ≡ true =
          rw u (same_refl (take a.len a.bytes)) in
        ground (arith, t, v, ==_iff a.len b.len)

chain : (x y z : Bool) → (x ≡ true → y ≡ true → z ≡ true) → (x && y && not z) ≡ false
chain true true z h = rw (h refl refl)
chain true false z h = refl
chain false y z h = refl

-- Where the bytes in use are there, `<` is the lexicographic order of those bytes and `==` their
-- equality; so `<` is a strict total order: no address precedes itself, it is transitive, and of
-- two addresses one precedes the other or they are equal.
pub less_lem :
    (a b c : View)
    → a.len ≤ length a.bytes
    → b.len ≤ length b.bytes
    → c.len ≤ length c.bytes
    → (less a b ≡ precedes (seen a) (seen b))
      × ((equal a b ≡ true) ↔ (seen a ≡ seen b))
      × (less a a ≡ false)
      × ((less a b && less b c && not (less a c)) ≡ false)
      × ((less a b ≡ true) ⊎ (equal a b ≡ true) ⊎ (less b a ≡ true))
less_lem a b c ha hb hc =
    let ab = less-precedes a b ha hb in
    let bc = less-precedes b c hb hc in
    let e = equal-seen a b ha hb in
    (
      ab,
      e,
      less-precedes a a ha ha ∙ precedes_irrefl (seen a),
      chain (less a b) (less b c) (less a c) (λ p q.
          less-precedes a c ha hc
          ∙ precedes_trans (seen a) (seen b) (seen c) (sym ab ∙ p) (sym bc ∙ q)),
      elim (precedes_total (seen a) (seen b)) [
        | inl p ↦ inl (ab ∙ p)
        | inr r ↦ inr (elim r [
          | inl same_bytes ↦ inl (e.1 same_bytes)
          | inr p ↦ inr (less-precedes b a hb ha ∙ p)
        ])
      ],
    )
