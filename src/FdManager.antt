-- ===== src/FdManager.antt =====
-- The table of descriptors, src/fdmanager.cc and include/fdmanager.h.
-- A `FdCtx::ptr` is its address; `m_datas` lists addresses, with `none` for a null pointer. Each
-- critical section of `m_mutex` is one function. A C `int` that is a word of flags is the number
-- below 2 ^ 32 with its bits.
pub mod Table
pub mod Laws
mod Tests
use ztyco.Base.Int.{ℤ, pos, negsuc}
use ztyco.Base.{
  ℕ, zero, suc, ◌+◌, ◌-◌, ◌*◌, ◌/◌, ◌%◌, ◌^◌, Bool, true, false, not, ◌&&◌, ◌||◌, Option, none,
  some, List, ◌++◌, ltb, leb, ◌==◌, if◌then◌else◌, is_some, length, get_elem?, set, replicate,
  update, Outcome, ok, undefined, ◌>>=◌, deref,
}

-- The original system calls on descriptors, over a state of the kernel: `fstat` fails or tells
-- whether the descriptor is a socket; the others return a word.
pub record Sys (K : Type 0) : Type 0 where
  pub fstat : K → ℕ → Option Bool
  pub getfl : K → ℕ → ℕ
  pub setfl : K → ℕ → ℕ → K × ℕ
  pub close : K → ℕ → K × ℕ
  pub socket : K → K × ℤ

-- O_NONBLOCK is 2048: `flags & O_NONBLOCK`, `flags | O_NONBLOCK` and `flags & ~O_NONBLOCK`.
abbrev pub o_nonblock : ℕ
o_nonblock = 2048

abbrev pub has_nonblock : ℕ → Bool
has_nonblock flags = flags / o_nonblock % 2 == 1

abbrev pub with_nonblock : ℕ → ℕ
with_nonblock flags = if has_nonblock flags then flags else flags + o_nonblock

abbrev pub without_nonblock : ℕ → ℕ
without_nonblock flags = if has_nonblock flags then flags - o_nonblock else flags

-- `!flags`
abbrev pub logical_not : ℕ → ℕ
logical_not flags = if flags == 0 then 1 else 0

abbrev pub no_limit : ℕ
no_limit = 2 ^ 64 - 1

pub record FdCtx : Type 0 where
  pub is_init : Bool
  pub is_socket : Bool
  pub sys_nonblock : Bool
  pub user_nonblock : Bool
  pub is_closed : Bool
  pub fd : ℕ
  pub recv_timeout : ℕ
  pub send_timeout : ℕ

-- `S_ISSOCK`, false where `fstat` failed.
abbrev pub is_sock : Option Bool → Bool
is_sock none = false
is_sock (some b) = b

-- `FdCtx::FdCtx` and the `FdCtx::init` that it calls, which may change the descriptor's flags.
unfoldable pub new_ctx : {K : Type 0} → Sys K → K → ℕ → K × FdCtx
new_ctx sys k fd =
    let stat = sys.fstat k fd in
    let is_socket = is_sock stat in
    let flags = sys.getfl k fd in
    let k' =
      if is_socket && has_nonblock (logical_not flags)
      then (sys.setfl k fd (with_nonblock flags)).0
      else k in
    (
      k',
      record {
        is_init = is_some stat;
        is_socket = is_socket;
        sys_nonblock = is_socket;
        user_nonblock = false;
        is_closed = false;
        fd = fd;
        recv_timeout = no_limit;
        send_timeout = no_limit;
      },
    )

-- SO_RCVTIMEO and SO_SNDTIMEO.
pub data Side : Type 0 where
  receiving sending : Side

-- `FdCtx::setTimeout` and `FdCtx::getTimeout`.
abbrev pub set_timeout : FdCtx → Side → ℕ → FdCtx
set_timeout c receiving v = record c { recv_timeout = v }
set_timeout c sending v = record c { send_timeout = v }

abbrev pub get_timeout : FdCtx → Side → ℕ
get_timeout c receiving = c.recv_timeout
get_timeout c sending = c.send_timeout

pub record FdManager : Type 0 where
  pub ctxs : ℕ → FdCtx
  pub fresh : ℕ
  pub datas : List (Option ℕ)

abbrev pub nulls : ℕ → List (Option ℕ)
nulls n = replicate n none

-- `FdManager::FdManager`
abbrev pub new_manager : FdManager
new_manager = record {
  ctxs = λ a. record {
    is_init = false;
    is_socket = false;
    sys_nonblock = false;
    user_nonblock = false;
    is_closed = false;
    fd = a;
    recv_timeout = no_limit;
    send_timeout = no_limit;
  };
  fresh = 0;
  datas = nulls 64;
}

-- `m_datas[fd]`, for a descriptor within the table.
abbrev pub entry : FdManager → ℕ → Option ℕ
entry m fd = elim (get_elem? m.datas fd) [ none ↦ none | some p ↦ p ]

-- The part of `FdManager::get` under the read lock: what it returns, or `none` where it goes on.
unfoldable pub look : FdManager → ℕ → Bool → Option (Option ℕ)
look m fd auto_create =
    if leb (length m.datas) fd
    then (if not auto_create then some none else none)
    else if is_some (entry m fd) || not auto_create
    then some (entry m fd)
    else none

-- `std::vector::resize`, to no fewer elements.
abbrev pub grow : List (Option ℕ) → ℕ → List (Option ℕ)
grow xs n = xs ++ nulls (n - length xs)

-- The part under the write lock, from the context that `new FdCtx(fd)` made.
unfoldable pub make : FdManager → ℕ → FdCtx → FdManager
make m fd c = record m {
  ctxs = update m.ctxs m.fresh c;
  fresh = suc m.fresh;
  datas =
      set (if leb (length m.datas) fd then grow m.datas (fd * 3 / 2) else m.datas) fd
        (some m.fresh);
}

-- `FdManager::get` behind the read lock.
unfoldable pub look_then :
    {K : Type 0} → Sys K → K → FdManager → ℕ → Option (Option ℕ) → K × FdManager × Option ℕ
unfolding make new_ctx
look_then sys k m fd (some r) = (k, m, r)
look_then sys k m fd none = let (k', c) = new_ctx sys k fd in (k', make m fd c, some m.fresh)

-- `FdManager::get` for a descriptor that is not negative.
unfoldable pub get_nat : {K : Type 0} → Sys K → K → FdManager → ℕ → Bool → K × FdManager × Option ℕ
unfolding look look_then
get_nat sys k m fd auto_create = look_then sys k m fd (look m fd auto_create)

-- `FdManager::get`: -1 is no descriptor; any other negative number indexes before the table.
unfoldable pub get :
    {K : Type 0} → Sys K → K → FdManager → ℤ → Bool → Outcome (K × FdManager × Option ℕ)
unfolding get_nat
get sys k m (pos fd) auto_create = ok (get_nat sys k m fd auto_create)
get sys k m (negsuc zero) auto_create = ok (k, m, none)
get sys k m (negsuc (suc n)) auto_create = undefined

-- `FdManager::del`
unfoldable pub del : FdManager → ℕ → FdManager
del m fd = if leb (length m.datas) fd then m else record m { datas = set m.datas fd none }

-- A change of a context through a pointer to it.
abbrev pub change : FdManager → ℕ → FdCtx → FdManager
change m a c = record m { ctxs = update m.ctxs a c }
