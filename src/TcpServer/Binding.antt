-- ===== src/TcpServer/Binding.antt =====
-- What the server's `bind` leaves, src/tcpserver.cc: every address or none.
use mathlib.Core.List.{append-nil, append_assoc}
use ztyco.FdManager.{Sys}
use ztyco.IoManager.{Ctl}
use ztyco.Hook.{World}
use ztyco.Socket.{Addr, Net, Socket, close, is_valid}
use ztyco.Socket.Ops.{bind, listen, listen_at, create_tcp}
use ztyco.TcpServer.{
  TcpServer, backlog, given_up, listening, bind_one, noted, bind_each, close_each, cleared,
  bind_all,
}
use ztyco.Base.{
  ℕ, suc, ◌+◌, ◌≡◌, refl, ap, sym, ◌∙◌, inl, inr, Bool, true, false, Option, none, some, List, [],
  ◌∷◌, ◌++◌, length, if◌then◌else◌, is_empty, All, Outcome, ok, abort, undefined, ◌>>=◌, arith,
  Bool-cases, is_some,
}

-- What the loop over a number of addresses adds to the sockets and to the failed addresses: each
-- address has a socket with a descriptor or has failed.
abbrev pub Split :
    {K : Type 0}
    → List Socket × List Addr
    → ℕ
    → Outcome (World K × List Socket × List Addr)
    → Type 0
Split so_far count (ok (w, socks, fails)) =
    (new : List Socket) × (gone : List Addr) × (socks ≡ so_far.0 ++ new)
    × (fails ≡ so_far.1 ++ gone)
    × (All (λ x. is_valid x ≡ true) new)
    × (length new + length gone ≡ count)
Split so_far count abort = Unit {0}
Split so_far count undefined = Unit {0}

-- What `bind` leaves of the server: the failed addresses; if there is none, each address has a socket
-- behind those that were there, and otherwise no socket is left, not even those.
abbrev pub AllOrNone :
    {K : Type 0} → TcpServer → ℕ → Outcome (World K × TcpServer × List Addr × Bool) → Type 0
AllOrNone s count (ok (w, t, fails, good)) =
    (new : List Socket) × (good ≡ is_empty fails)
    × (t ≡ record s { socks = if good then s.socks ++ new else [] })
    × (All (λ x. is_valid x ≡ true) new)
    × (length new + length fails ≡ count)
AllOrNone s count abort = Unit {0}
AllOrNone s count undefined = Unit {0}

-- One address: a socket with a descriptor, or none.
abbrev One : {K : Type 0} → Outcome (World K × Option Socket) → Type 0
One (ok (w, none)) = Unit {0}
One (ok (w, some x)) = is_valid x ≡ true
One abort = Unit {0}
One undefined = Unit {0}

if_One :
    {K : Type 0} (b : Bool) (s t : Outcome (World K × Option Socket))
    → (b ≡ true → One s)
    → One t
    → One (if b then s else t)
if_One true s t h k = h refl
if_One false s t h k = k

>>=-One :
    {K A : Type 0} (m : Outcome A) (f : A → Outcome (World K × Option Socket))
    → ((a : A) → One (f a))
    → One (m >>= f)
>>=-One (ok a) f h = h a
>>=-One abort f h = tt
>>=-One undefined f h = tt

module _ {K : Type 0} (sys : Sys K) (ctl : Ctl) (net : Net K) where
  given_up-One : (w : World K) (x : Socket) → One (given_up sys ctl net w x)
  unfolding close
  given_up-One w x = >>=-One (close sys ctl net w x) (λ r. ok (r.0, none)) (λ r. tt)

  -- Only a socket with a descriptor listens.
  listens :
      (w : World K) (x : Socket) (o : Option ℕ)
      → x.sock ≡ o
      → (listen_at sys ctl net w backlog o).1 ≡ true
      → is_valid x ≡ true
  listens w x none e h = ap is_some e ∙ h
  listens w x (some fd) e h = rw e refl

  listening-One : (w : World K) (x : Socket) → One (listening sys ctl net w x)
  unfolding listen close
  listening-One w x =
      if_One ((listen sys ctl net w x backlog).1) _ _ (listens w x x.sock refl) (given_up-One _ x)

  bind_one-One : (w : World K) (addr : Addr) → One (bind_one sys ctl net w addr)
  unfolding bind_one bind listen close
  bind_one-One w addr =
      >>=-One (bind sys ctl net w (create_tcp sys ctl net addr.family) addr) _
        (λ r. if_One r.2 _ _ (λ e. listening-One r.0 r.1) (given_up-One r.0 r.1))

  Split-with :
      (w : World K) (so_far : List Socket × List Addr) (addr : Addr) (count : ℕ) (r : Option Socket)
      (m : Outcome (World K × List Socket × List Addr))
      → One (ok (w, r))
      → Split (noted sys ctl net so_far addr r) count m
      → Split so_far (suc count) m
  Split-with w so_far addr count none (ok (w', socks, fails)) h (new, gone, e, f, v, n) =
      (new, addr ∷ gone, e, f ∙ append_assoc so_far.1 (addr ∷ []) gone, v, omega (arith, n))
  Split-with w so_far addr count (some x) (ok (w', socks, fails)) h (new, gone, e, f, v, n) =
      (x ∷ new, gone, e ∙ append_assoc so_far.0 (x ∷ []) new, f, (h, v), omega (arith, n))
  Split-with w so_far addr count r abort h k = tt
  Split-with w so_far addr count r undefined h k = tt

  >>=-Split :
      (so_far : List Socket × List Addr) (addr : Addr) (count : ℕ)
      (m : Outcome (World K × Option Socket))
      (f : World K × Option Socket → Outcome (World K × List Socket × List Addr))
      → One m
      → ((r : World K × Option Socket) → Split (noted sys ctl net so_far addr r.1) count (f r))
      → Split so_far (suc count) (m >>= f)
  >>=-Split so_far addr count (ok r) f h k = Split-with r.0 so_far addr count r.1 (f r) h (k r)
  >>=-Split so_far addr count abort f h k = tt
  >>=-Split so_far addr count undefined f h k = tt

  bind_each-Split :
      (w : World K) (addrs : List Addr) (so_far : List Socket × List Addr)
      → Split so_far (length addrs) (bind_each sys ctl net w addrs so_far)
  unfolding bind_each bind_one
  bind_each-Split w [] (socks, fails) =
      ([], [], sym (append-nil socks), sym (append-nil fails), tt, refl)
  bind_each-Split w (addr ∷ rest) so_far =
      >>=-Split so_far addr (length rest) (bind_one sys ctl net w addr)
        (λ r. bind_each sys ctl net r.0 rest (noted sys ctl net so_far addr r.1))
        (bind_one-One w addr) (λ r. bind_each-Split r.0 rest (noted sys ctl net so_far addr r.1))

  closing :
      (s : TcpServer) (new : List Socket) (fails : List Addr) (m : Outcome (World K)) (count : ℕ)
      → is_empty fails ≡ false
      → All (λ x. is_valid x ≡ true) new
      → length new + length fails ≡ count
      → AllOrNone s count (cleared sys ctl net s fails m)
  closing s new fails (ok w) count e v n = (new, sym e, refl, v, n)
  closing s new fails abort count e v n = tt
  closing s new fails undefined count e v n = tt

  finished :
      (s : TcpServer) (count : ℕ) (m : Outcome (World K × List Socket × List Addr))
      → Split (s.socks, []) count m
      → AllOrNone s count (do
        (w, socks, fails) ← m
        if is_empty fails
            then ok (w, record s { socks = socks }, fails, true)
            else cleared sys ctl net s fails (close_each sys ctl net w socks))
  unfolding close_each
  finished s count (ok (w, socks, fails)) (new, gone, e, f, v, n) =
      let same_length : length new + length fails ≡ count =
        ap (λ xs. length new + length xs) f ∙ n in
      elim (Bool-cases (is_empty fails)) [
        | inl none_failed ↦
            rw none_failed
              (new, sym none_failed, ap (λ xs. record s { socks = xs }) e, v, same_length)
        | inr failed ↦
            rw failed
              (closing s new fails (close_each sys ctl net w socks) count failed v same_length)
      ]
  finished s count abort k = tt
  finished s count undefined k = tt

  -- The server's `bind` of any addresses, where it returns: it succeeds exactly if no address failed,
  -- and then every address has a socket with a descriptor behind the sockets of before; otherwise no
  -- socket is left, those of earlier calls included.
  pub bind_all-AllOrNone :
      (w : World K) (s : TcpServer) (addrs : List Addr)
      → AllOrNone s (length addrs) (bind_all sys ctl net w s addrs)
  unfolding bind_all bind_each close_each
  bind_all-AllOrNone w s addrs =
      finished s (length addrs) (bind_each sys ctl net w addrs (s.socks, []))
        (bind_each-Split w addrs (s.socks, []))
