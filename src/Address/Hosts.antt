-- ===== src/Address/Hosts.antt =====
-- How `Lookup` of src/address.cc reads a host, and what it makes of a failure.
use ztyco.Base.{
  ℕ, ◌≡◌, ◌≢◌, refl, inl, inr, true, false, none, some, [], ◌∷◌, ◌++◌, ◌==◌, if◌then◌else◌, mem,
  arith, Str, Bool-cases,
}
use ztyco.Address.Resolve.{bracket, end_bracket, colon, beside, split_host}

beside_found : (c : ℕ) (xs ys : Str) → mem c xs ≡ false → beside c (xs ++ c ∷ ys) ≡ some (xs, ys)
beside_found c [] ys h = let e : (c == c) ≡ true = ground arith in rw e
beside_found c (x ∷ xs) ys h =
    let n : (x == c) ≡ false = ground arith in
    let ih = beside_found c xs ys (ground arith) in rw (n, ih)

beside-none : (c : ℕ) (xs : Str) → mem c xs ≡ false → beside c xs ≡ none
beside-none c [] h = refl
beside-none c (x ∷ xs) h =
    let n : (x == c) ≡ false = ground arith in rw (n, beside-none c xs (ground arith))

-- How a host is read. In brackets, without the closing one in it: the node, and what follows a
-- colon behind it as the service. Outside, where the node has no bracket before it and no colon in
-- it: alone it has no service, before a colon it is the node of the service behind. But where that
-- has a colon too, as an IPv6 address has, the node is the whole host and its service is the rest
-- from the first colon on. No node is empty.
pub split_host_lem :
    (b c : ℕ) (inner node service : Str)
    → mem end_bracket (b ∷ inner) ≡ false
    → c ≢ bracket
    → mem colon (c ∷ node) ≡ false
    → (split_host (bracket ∷ (b ∷ inner) ++ end_bracket ∷ colon ∷ service)
        ≡ (b ∷ inner, some service))
      × (split_host (bracket ∷ (b ∷ inner) ++ end_bracket ∷ []) ≡ (b ∷ inner, none))
      × (split_host (c ∷ node) ≡ (c ∷ node, none))
      × (split_host ((c ∷ node) ++ colon ∷ service) ≡ (
          if mem colon service
          then ((c ∷ node) ++ colon ∷ service, some (colon ∷ service))
          else (c ∷ node, some service)))
unfolding split_host
split_host_lem b c inner node service inside other outside =
    let o : (c == 91) ≡ false = ground arith in
    (
      rw (beside_found end_bracket (b ∷ inner) (colon ∷ service) inside),
      rw (beside_found end_bracket (b ∷ inner) [] inside),
      rw (o, beside-none colon (c ∷ node) outside),
      rw (o, beside_found colon (c ∷ node) service outside)
          (elim (Bool-cases (mem colon service)) [ inl more ↦ rw more | inr last ↦ rw last ]),
    )
