-- ===== src/Socket/Timeouts.antt =====
-- The timeouts of a socket set and read, and what `accept` comes to, src/socket.cc.
use ztyco.FdManager.{
  Sys, Side, receiving, sending, FdCtx, set_timeout, get_timeout, entry, get, change,
}
use ztyco.FdManager.Laws.{get_entry}
use ztyco.IoManager.{Ctl}
use ztyco.Hook.{World}
use ztyco.Hook.Calls.{setsockopt_timeout}
use ztyco.Base.{
  ℕ, ◌+◌, ◌*◌, ◌/◌, ◌%◌, ◌^◌, ◌<◌, ◌≡◌, refl, ap, ◌∙◌, true, none, some, ==_refl, arith, ok,
}
use ztyco.Socket.{Net, Socket, accept, accept_at, accepted, init}
use ztyco.Socket.Ops.{set_side_timeout, get_side_timeout, seconds}

same_timeout : (c : FdCtx) (side : Side) (v : ℕ) → get_timeout (set_timeout c side v) side ≡ v
same_timeout c receiving v = refl
same_timeout c sending v = refl

millis : (v : ℕ) → v < 1000 * 2 ^ 31 → (seconds v * 1000 + v % 1000 * 1000 / 1000) % 2 ^ 64 ≡ v
millis v h = ground arith

module _ {K : Type 0} (sys : Sys K) (ctl : Ctl) (net : Net K) where
  -- A socket whose descriptor the table knows as an open socket, with the hooks on: a timeout below
  -- 2^31 seconds that is set for one direction is what is then read for it, to the millisecond.
  pub get_side_timeout-set_side_timeout :
      (w : World K) (side : Side) (x : Socket) (fd a v : ℕ)
      → x.sock ≡ some fd
      → entry w.mgr fd ≡ some a
      → w.enabled ≡ true
      → v < 1000 * 2 ^ 31
      → get_side_timeout sys ctl net (set_side_timeout sys ctl net w side fd v) side x ≡ ok (some v)
  unfolding get_side_timeout set_side_timeout setsockopt_timeout get
  get_side_timeout-set_side_timeout w side x fd a v e known hooked small =
      let v' = (seconds v * 1000 + v % 1000 * 1000 / 1000) % 2 ^ 64 in
      let noted = record w { mgr = change w.mgr a (set_timeout (w.mgr.ctxs a) side v') } in
      let set : set_side_timeout sys ctl net w side fd v ≡ noted =
        rw (hooked, get_entry sys w.kernel w.mgr fd, known) refl in
      ap (λ w'. get_side_timeout sys ctl net w' side x) set
      ∙ rw (e, get_entry sys w.kernel noted.mgr fd, known, ==_refl a)
          (ap (λ n. ok (some n)) (same_timeout (w.mgr.ctxs a) side v' ∙ millis v small))

  -- `accept` of a descriptor that the table does not know, and nothing puts one in that the kernel
  -- has just made: the null pointer, and the descriptor stays open.
  accept_lem :
      (w : World K) (x : Socket) (listening fd : ℕ) (k : K)
      → x.sock ≡ some listening
      → net.accept w.kernel listening ≡ (k, some fd)
      → entry w.mgr fd ≡ none
      → accept sys ctl net w x ≡ (record w { kernel = k }, none)
  unfolding accept init
  accept_lem w x listening fd k e made unknown =
      ap (accept_at sys ctl net w x) e
      ∙ ap (λ r. accepted sys ctl net (record w { kernel = r.0 }) x r.1) made
      ∙ rw (get_entry sys k w.mgr fd, unknown) refl
