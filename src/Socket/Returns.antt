-- ===== src/Socket/Returns.antt =====
-- On a thread without the hooks, every call of a socket returns: src/socket.cc over src/hook.cc.
use ztyco.FdManager.{Sys}
use ztyco.IoManager.{Ctl}
use ztyco.Hook.{World}
use ztyco.Hook.Calls as H
use ztyco.Base.{
  ℕ, ◌≡◌, refl, inl, inr, Bool, true, false, not, Option, none, some, ◌==◌, if◌then◌else◌, is_some,
  Str, Outcome, ok, abort, undefined, ◌>>=◌, Bool-cases,
}
use ztyco.Socket.{
  Addr, Net, Socket, tcp, af_unix, new_socket, new_sock, close, close_at, fd_of, got_sock, ensure,
  ensure_at,
}
use ztyco.Socket.State.{Call, connects, reconnects, binds, closes, run, Sound, is_sound, run-Sound}
use ztyco.Socket.Ops.{
  reconnect, reconnect_to, connect, connect_at, bind, bind_at, bind_fd, try_path,
}

-- A call that returns, with the hooks off.
abbrev pub Returns : {K R : Type 0} → (R → World K) → Outcome R → Type 0
Returns world (ok r) = (world r).enabled ≡ false
Returns world abort = ⊥
Returns world undefined = ⊥

pub >>=-Returns :
    {K R Q : Type 0} (world : R → World K) (after : Q → World K) (m : Outcome R) (f : R → Outcome Q)
    → Returns world m
    → ((r : R) → (world r).enabled ≡ false → Returns after (f r))
    → Returns after (m >>= f)
>>=-Returns world after (ok r) f h k = k r h
>>=-Returns world after abort f h k = elim h [ ]
>>=-Returns world after undefined f h k = elim h [ ]

pub if_Returns :
    {K R : Type 0} (world : R → World K) (b : Bool) (s t : Outcome R)
    → Returns world s
    → Returns world t
    → Returns world (if b then s else t)
if_Returns world true s t h k = h
if_Returns world false s t h k = k

module _ {K : Type 0} (sys : Sys K) (ctl : Ctl) (net : Net K) where
  abbrev pub of_socket : World K × Socket × Bool → World K
  of_socket r = r.0

  close_at-Returns :
      (w : World K) (x : Socket) (o : Option ℕ)
      → w.enabled ≡ false
      → Returns of_socket (close_at sys ctl net w x o)
  unfolding H.close
  close_at-Returns w x none h = h
  close_at-Returns w x (some fd) h = rw h refl

  pub close-Returns :
      (w : World K) (x : Socket) → w.enabled ≡ false → Returns of_socket (close sys ctl net w x)
  unfolding close
  close-Returns w x h = close_at-Returns w x x.sock h

  got_sock_off :
      (x : Socket) (w : World K) (o : Option ℕ)
      → w.enabled ≡ false
      → (got_sock sys ctl net x w o).0.enabled ≡ false
  got_sock_off x w none h = h
  got_sock_off x w (some fd) h = h

  ensure_off :
      (w : World K) (x : Socket) (o : Option ℕ)
      → w.enabled ≡ false
      → (ensure_at sys ctl net w x o).0.enabled ≡ false
  unfolding new_sock H.socket
  ensure_off w x none h =
      got_sock_off x ((H.socket sys w).0) (fd_of ((H.socket sys w).1)) (rw h refl)
  ensure_off w x (some fd) h = h

  connect_at-Returns :
      (w : World K) (x : Socket) (addr : Addr) (timeout o : Option ℕ)
      → w.enabled ≡ false
      → Returns of_socket (connect_at sys ctl net w x addr timeout o)
  unfolding close
  connect_at-Returns w x addr timeout none h = h
  connect_at-Returns w x addr timeout (some fd) h =
      let w' = record w { kernel = (net.connect w.kernel fd addr timeout).0 } in
      if_Returns of_socket (addr.family == x.family) _ _
        (if_Returns of_socket ((net.connect w.kernel fd addr timeout).1) _ _ h (
          if_Returns of_socket (is_some timeout) _ _
            (>>=-Returns of_socket of_socket (close sys ctl net w' x) (λ r. ok (r.0, r.1, false))
              (close-Returns w' x h) (λ r k. k))
            h))
        h

  connect-Returns :
      (w : World K) (x : Socket) (addr : Addr) (timeout : Option ℕ)
      → w.enabled ≡ false
      → Returns of_socket (connect sys ctl net w x addr timeout)
  unfolding connect new_sock
  connect-Returns w x addr timeout h =
      let p = ensure sys ctl net w (record x { remote = some addr }) in
      connect_at-Returns p.0 p.1 addr timeout p.1.sock
        (ensure_off w (record x { remote = some addr }) x.sock h)

  try_path-Returns :
      (w : World K) (addr : Addr) (o : Option Str)
      → w.enabled ≡ false
      → Returns (λ r. r.0) (try_path sys ctl net w addr o)
  unfolding connect close
  try_path-Returns w addr none h = h
  try_path-Returns w addr (some path) h =
      >>=-Returns of_socket (λ r. r.0) (connect sys ctl net w (new_socket af_unix tcp) addr none) _
        (connect-Returns w (new_socket af_unix tcp) addr none h)
        (λ r k.
          >>=-Returns of_socket (λ r. r.0)
            (close sys ctl net
              (if r.2 then r.0 else record r.0 { kernel = net.unlink r.0.kernel path }) r.1)
            (λ q. ok (q.0, not r.2))
            (close-Returns _ r.1
              (elim (Bool-cases r.2) [ inl taken ↦ rw taken k | inr free ↦ rw free k ]))
            (λ q j. j))

  bind_at-Returns :
      (w : World K) (x : Socket) (addr : Addr) (o : Option ℕ)
      → w.enabled ≡ false
      → Returns of_socket (bind_at sys ctl net w x addr o)
  unfolding connect close
  bind_at-Returns w x addr none h = h
  bind_at-Returns w x addr (some fd) h =
      if_Returns of_socket (addr.family == x.family) _ _
        (>>=-Returns (λ r. r.0) of_socket (try_path sys ctl net w addr addr.path)
          (λ r. if r.1 then bind_fd sys ctl net r.0 x addr fd else ok (r.0, x, false))
          (try_path-Returns w addr addr.path h) (λ r k. if_Returns of_socket r.1 _ _ k k))
        h

  pub bind-Returns :
      (w : World K) (x : Socket) (addr : Addr)
      → w.enabled ≡ false
      → Returns of_socket (bind sys ctl net w x addr)
  unfolding bind connect close new_sock
  bind-Returns w x addr h =
      let y = record x { local = some addr } in
      let p = ensure sys ctl net w y in
      bind_at-Returns p.0 p.1 addr p.1.sock (ensure_off w y x.sock h)

  reconnect_to-Returns :
      (w : World K) (x : Socket) (timeout : Option ℕ) (o : Option Addr)
      → w.enabled ≡ false
      → Returns of_socket (reconnect_to sys ctl net w x timeout o)
  unfolding connect
  reconnect_to-Returns w x timeout none h = h
  reconnect_to-Returns w x timeout (some addr) h =
      connect-Returns w (record x { local = none }) addr timeout h

  run-Returns :
      (c : Call) (w : World K) (x : Socket)
      → w.enabled ≡ false
      → Returns of_socket (run sys ctl net c w x)
  unfolding connect reconnect bind close
  run-Returns (connects addr timeout) w x h = connect-Returns w x addr timeout h
  run-Returns (reconnects timeout) w x h = reconnect_to-Returns w x timeout x.remote h
  run-Returns (binds addr) w x h = bind-Returns w x addr h
  run-Returns closes w x h = close-Returns w x h

  returned :
      (m : Outcome (World K × Socket × Bool))
      → Returns of_socket m
      → Sound m
      → (r : World K × Socket × Bool) × (m ≡ ok r) × (is_sound r.1 ≡ true)
  returned (ok r) h k = (r, refl, k)
  returned abort h k = elim h [ ]
  returned undefined h k = elim h [ ]

  -- On a thread without the hooks `connect`, `reconnect`, `bind` and `close` return, whatever the
  -- kernel answers, and of a socket that has a descriptor if it is connected they leave such a socket.
  pub run_returns :
      (c : Call) (w : World K) (x : Socket)
      → w.enabled ≡ false
      → is_sound x ≡ true
      → (r : World K × Socket × Bool) × (run sys ctl net c w x ≡ ok r) × (is_sound r.1 ≡ true)
  unfolding connect reconnect bind close
  run_returns c w x h k =
      returned (run sys ctl net c w x) (run-Returns c w x h) (run-Sound sys ctl net c w x k)
