-- ===== src/Socket.antt =====
-- Sockets, `Socket` of src/socket.cc and include/socket.h.
-- `socket`, `close` and `setsockopt` of the timeouts are those of src/hook.cc, over the table of
-- descriptors; what the kernel answers to the other calls is the record `Net`. An address is what
-- the class looks at: its family, and the path of a local one. `m_sock` is `none` where it is -1.
pub mod Ops
pub mod State
pub mod Returns
pub mod Timeouts
mod Tests
use ztyco.Base.Int.{ℤ, pos, negsuc}
use ztyco.FdManager.{Sys, Side, get_nat}
use ztyco.IoManager.{Ctl}
use ztyco.Hook.{World}
use ztyco.Hook.Calls as H
use ztyco.Base.{
  ℕ, ◌+◌, Bool, true, false, not, ◌&&◌, ◌||◌, Option, none, some, ◌==◌, if◌then◌else◌, is_some, Str,
  Outcome, ok, ◌>>=◌,
}

pub record Addr : Type 0 where
  pub id : ℕ
  pub family : ℕ
  pub path : Option Str

-- The kernel's calls: each gives the new state and whether it succeeded. A connection has a timeout
-- or none; an accepted descriptor, and the names of the two ends, may be missing. The last is
-- `errno`, and the value that SO_ERROR reads.
pub record Net (K : Type 0) : Type 0 where
  pub bind : K → ℕ → Addr → K × Bool
  pub listen : K → ℕ → ℕ → K × Bool
  pub connect : K → ℕ → Addr → Option ℕ → K × Bool
  pub accept : K → ℕ → K × Option ℕ
  pub set_opt : K → ℕ → ℕ → K × Bool
  pub sock_name : K → ℕ → Option Addr
  pub peer_name : K → ℕ → Option Addr
  pub unlink : K → Str → K
  pub so_error : K → ℕ → Option ℕ
  pub errno : K → ℕ

pub record Socket : Type 0 where
  pub sock : Option ℕ
  pub family : ℕ
  pub kind : ℕ
  pub is_connected : Bool
  pub local : Option Addr
  pub remote : Option Addr

-- SOCK_STREAM, SOCK_DGRAM and AF_UNIX.
abbrev pub tcp : ℕ
tcp = 1

abbrev pub udp : ℕ
udp = 2

abbrev pub af_unix : ℕ
af_unix = 1

-- `Socket::Socket`
abbrev pub new_socket : ℕ → ℕ → Socket
new_socket family kind = record {
  sock = none;
  family = family;
  kind = kind;
  is_connected = false;
  local = none;
  remote = none;
}

abbrev pub is_valid : Socket → Bool
is_valid x = is_some x.sock

abbrev pub fd_of : ℤ → Option ℕ
fd_of (pos n) = some n
fd_of (negsuc n) = none

module _ {K : Type 0} (sys : Sys K) (ctl : Ctl) (net : Net K) where
  -- SO_REUSEADDR and TCP_NODELAY by number, 2 and 1.
  abbrev pub init_sock : World K → ℕ → ℕ → World K
  init_sock w kind fd =
      let k = (net.set_opt w.kernel fd 2).0 in
      record w { kernel = if kind == tcp then (net.set_opt k fd 1).0 else k }

  -- `Socket::newSock`, from what `socket` returned on.
  abbrev pub got_sock : Socket → World K → Option ℕ → World K × Socket
  got_sock x w none = (w, record x { sock = none })
  got_sock x w (some fd) = (init_sock w x.kind fd, record x { sock = some fd })

  unfoldable pub new_sock : World K → Socket → World K × Socket
  unfolding H.socket
  new_sock w x = let (w', r) = H.socket sys w in got_sock x w' (fd_of r)

  -- `if (!isValid()) newSock();`
  abbrev pub ensure_at : World K → Socket → Option ℕ → World K × Socket
  ensure_at w x none = new_sock w x
  ensure_at w x (some fd) = (w, x)

  abbrev pub ensure : World K → Socket → World K × Socket
  ensure w x = ensure_at w x x.sock

  -- `Socket::getLocalAddress` and `getRemoteAddress`: what is known, or what the kernel tells, which
  -- is kept; where it tells nothing, nothing is kept.
  abbrev pub or_told : Option Addr → Option Addr → Option Addr
  or_told (some a) told = some a
  or_told none told = told

  abbrev pub told : (K → ℕ → Option Addr) → World K → Option ℕ → Option Addr
  told name w none = none
  told name w (some fd) = name w.kernel fd

  abbrev pub get_local : World K → Socket → Socket
  get_local w x = record x { local = or_told x.local (told net.sock_name w x.sock) }

  abbrev pub get_remote : World K → Socket → Socket
  get_remote w x = record x { remote = or_told x.remote (told net.peer_name w x.sock) }

  -- `Socket::close`, and the destructor.
  abbrev pub close_at : World K → Socket → Option ℕ → Outcome (World K × Socket × Bool)
  close_at w x none = ok (w, record x { is_connected = false }, not x.is_connected)
  close_at w x (some fd) = do
    (w', r) ← H.close sys ctl w fd
    ok (w', record x { is_connected = false; sock = none }, true)

  unfoldable pub close : World K → Socket → Outcome (World K × Socket × Bool)
  unfolding H.close
  close w x = close_at w x x.sock

  -- `Socket::init` of a descriptor, with the context that the table has of it.
  abbrev pub init_ctx : World K → Socket → ℕ → Option ℕ → World K × Socket × Bool
  init_ctx w x fd none = (w, x, false)
  init_ctx w x fd (some a) =
      let c = w.mgr.ctxs a in
      if c.is_socket && not c.is_closed
      then (let w' = init_sock w x.kind fd in
          let y = record x { sock = some fd; is_connected = true } in
          (w', get_remote w' (get_local w' y), true))
      else (w, x, false)

  unfoldable pub init : World K → Socket → ℕ → World K × Socket × Bool
  init w x fd =
      let (k, m, a) = get_nat sys w.kernel w.mgr fd false in
      init_ctx (record w { kernel = k; mgr = m }) x fd a

  -- `Socket::accept`: `none` is the null pointer. The descriptor is not closed where `init` fails.
  abbrev pub accepted : World K → Socket → Option ℕ → World K × Option Socket
  unfolding init
  accepted w x none = (w, none)
  accepted w x (some fd) =
      let (w', y, good) = init w (new_socket x.family x.kind) fd in
      (w', if good then some y else none)

  abbrev pub accept_at : World K → Socket → Option ℕ → World K × Option Socket
  unfolding init
  accept_at w x none = (w, none)
  accept_at w x (some listening) =
      let (k, r) = net.accept w.kernel listening in accepted (record w { kernel = k }) x r

  unfoldable pub accept : World K → Socket → World K × Option Socket
  unfolding init
  accept w x = accept_at w x x.sock
