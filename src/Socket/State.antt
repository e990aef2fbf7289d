-- ===== src/Socket/State.antt =====
-- The state of a socket over its calls, src/socket.cc: one that is connected has a descriptor.
use ztyco.FdManager.{Sys}
use ztyco.IoManager.{Ctl}
use ztyco.Hook.{World}
use ztyco.Hook.Calls as H
use ztyco.Base.{
  ℕ, ◌≡◌, refl, ap, sym, ◌∙◌, inl, inr, Bool, true, false, not, ◌||◌, Option, none, some, ◌==◌,
  if◌then◌else◌, is_some, Outcome, ok, abort, undefined, ◌>>=◌, Bool-cases,
}
use ztyco.Socket.{
  Addr, Net, Socket, is_valid, new_sock, close, close_at, fd_of, got_sock, ensure, ensure_at,
}
use ztyco.Socket.Ops.{
  connect, connect_at, connect_fd, reconnect, reconnect_to, bind, bind_at, bind_fd, try_path,
}

-- A connected socket has a descriptor.
abbrev pub is_sound : Socket → Bool
is_sound x = not x.is_connected || is_valid x

abbrev pub Sound : {K : Type 0} → Outcome (World K × Socket × Bool) → Type 0
Sound (ok (w, x, b)) = is_sound x ≡ true
Sound abort = Unit {0}
Sound undefined = Unit {0}

>>=-Sound :
    {K A : Type 0} (m : Outcome A) (f : A → Outcome (World K × Socket × Bool))
    → ((a : A) → Sound (f a))
    → Sound (m >>= f)
>>=-Sound (ok a) f h = h a
>>=-Sound abort f h = tt
>>=-Sound undefined f h = tt

if_Sound :
    {K : Type 0} (b : Bool) (s t : Outcome (World K × Socket × Bool))
    → Sound s
    → Sound t
    → Sound (if b then s else t)
if_Sound true s t h k = h
if_Sound false s t h k = k

failed-Sound :
    {K : Type 0} (m : Outcome (World K × Socket × Bool))
    → Sound m
    → Sound (do (w, x, b) ← m; ok (w, x, false))
failed-Sound (ok a) h = h
failed-Sound abort h = tt
failed-Sound undefined h = tt

or_true : (b : Bool) → (b || true) ≡ true
or_true true = refl
or_true false = refl

got_sound :
    {K : Type 0} (sys : Sys K) (ctl : Ctl) (net : Net K) (w : World K) (x : Socket) (r : Option ℕ)
    → x.is_connected ≡ false
    → is_sound ((got_sock sys ctl net x w r).1) ≡ true
got_sound sys ctl net w x none h = rw (h, ◌||◌) refl
got_sound sys ctl net w x (some fd) h = or_true (not x.is_connected)

module _ {K : Type 0} (sys : Sys K) (ctl : Ctl) (net : Net K) where
  close_at-Sound : (w : World K) (x : Socket) (o : Option ℕ) → Sound (close_at sys ctl net w x o)
  close_at-Sound w x none = refl
  close_at-Sound w x (some fd) =
      >>=-Sound (H.close sys ctl w fd)
        (λ r. ok (r.0, record x { is_connected = false; sock = none }, true)) (λ r. refl)

  close-Sound : (w : World K) (x : Socket) → Sound (close sys ctl net w x)
  unfolding close
  close-Sound w x = close_at-Sound w x x.sock

  connect_fd-Sound :
      (w : World K) (x : Socket) (addr : Addr) (timeout : Option ℕ) (fd : ℕ)
      → x.sock ≡ some fd
      → Sound (connect_fd sys ctl net w x addr timeout fd)
  unfolding close
  connect_fd-Sound w x addr timeout fd e =
      let w' = record w { kernel = (net.connect w.kernel fd addr timeout).0 } in
      if_Sound ((net.connect w.kernel fd addr timeout).1) _ _ (rw e refl) (
        if_Sound (is_some timeout) _ _ (failed-Sound (close sys ctl net w' x) (close-Sound w' x))
          (rw e (or_true (not x.is_connected))))

  not_connected : (x : Socket) → x.sock ≡ none → is_sound x ≡ true → x.is_connected ≡ false
  not_connected x e h = elim (Bool-cases x.is_connected) [
    | inl on ↦ on ∙ sym h ∙ ap (λ b. not b || is_some x.sock) on ∙ ap is_some e
    | inr off ↦ off
  ]

  ensure_at_sound :
      (w : World K) (x : Socket) (o : Option ℕ)
      → x.sock ≡ o
      → is_sound x ≡ true
      → is_sound ((ensure_at sys ctl net w x o).1) ≡ true
  unfolding new_sock
  ensure_at_sound w x none e h =
      got_sound sys ctl net ((H.socket sys w).0) x (fd_of ((H.socket sys w).1))
        (not_connected x e h)
  ensure_at_sound w x (some fd) e h = h

  connect_at-Sound :
      (w : World K) (x : Socket) (addr : Addr) (timeout : Option ℕ) (o : Option ℕ)
      → x.sock ≡ o
      → is_sound x ≡ true
      → Sound (connect_at sys ctl net w x addr timeout o)
  unfolding close
  connect_at-Sound w x addr timeout none e h = h
  connect_at-Sound w x addr timeout (some fd) e h =
      if_Sound (addr.family == x.family) _ _ (connect_fd-Sound w x addr timeout fd e) h

  connect-Sound :
      (w : World K) (x : Socket) (addr : Addr) (timeout : Option ℕ)
      → is_sound x ≡ true
      → Sound (connect sys ctl net w x addr timeout)
  unfolding connect new_sock
  connect-Sound w x addr timeout h =
      let y = record x { remote = some addr } in
      let p = ensure sys ctl net w y in
      connect_at-Sound p.0 p.1 addr timeout p.1.sock refl (ensure_at_sound w y x.sock refl h)

  reconnect_to-Sound :
      (w : World K) (x : Socket) (timeout : Option ℕ) (o : Option Addr)
      → is_sound x ≡ true
      → Sound (reconnect_to sys ctl net w x timeout o)
  unfolding connect
  reconnect_to-Sound w x timeout none h = h
  reconnect_to-Sound w x timeout (some addr) h =
      connect-Sound w (record x { local = none }) addr timeout h

  bind_fd-Sound :
      (w : World K) (x : Socket) (addr : Addr) (fd : ℕ)
      → is_sound x ≡ true
      → Sound (bind_fd sys ctl net w x addr fd)
  bind_fd-Sound w x addr fd h = elim (Bool-cases ((net.bind w.kernel fd addr).1)) [
    | inl good ↦ rw good h
    | inr bad ↦ rw bad h
  ]

  bind_at-Sound :
      (w : World K) (x : Socket) (addr : Addr) (o : Option ℕ)
      → is_sound x ≡ true
      → Sound (bind_at sys ctl net w x addr o)
  unfolding connect
  bind_at-Sound w x addr none h = h
  bind_at-Sound w x addr (some fd) h =
      if_Sound (addr.family == x.family) _ _
        (>>=-Sound (try_path sys ctl net w addr addr.path)
          (λ r. if r.1 then bind_fd sys ctl net r.0 x addr fd else ok (r.0, x, false))
          (λ r. if_Sound r.1 _ _ (bind_fd-Sound r.0 x addr fd h) h))
        h

-- The calls that change a socket.
pub data Call : Type 0 where
  connects : Addr → Option ℕ → Call
  reconnects : Option ℕ → Call
  binds : Addr → Call
  closes : Call

module _ {K : Type 0} (sys : Sys K) (ctl : Ctl) (net : Net K) where
  abbrev pub run : Call → World K → Socket → Outcome (World K × Socket × Bool)
  unfolding connect reconnect bind close
  run (connects addr timeout) w x = connect sys ctl net w x addr timeout
  run (reconnects timeout) w x = reconnect sys ctl net w x timeout
  run (binds addr) w x = bind sys ctl net w x addr
  run closes w x = close sys ctl net w x

  -- `connect`, `reconnect`, `bind` and `close` keep it that a connected socket has a descriptor.
  pub run-Sound : (c : Call) (w : World K) (x : Socket) → is_sound x ≡ true → Sound (run c w x)
  unfolding connect reconnect bind close new_sock
  run-Sound (connects addr timeout) w x h = connect-Sound sys ctl net w x addr timeout h
  run-Sound (reconnects timeout) w x h = reconnect_to-Sound sys ctl net w x timeout x.remote h
  run-Sound (binds addr) w x h =
      let y = record x { local = some addr } in
      let p = ensure sys ctl net w y in
      bind_at-Sound sys ctl net p.0 p.1 addr p.1.sock
        (ensure_at_sound sys ctl net w y x.sock refl h)
  run-Sound closes w x h = close-Sound sys ctl net w x
