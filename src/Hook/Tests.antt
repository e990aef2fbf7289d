-- ===== src/Hook/Tests.antt =====
-- The theorems on the hooked calls at concrete worlds, src/hook.cc.
use ztyco.IoManager.{IoManager, Ctl, none_set, blank}
use ztyco.FdManager.{new_manager, Sys, FdCtx, FdManager, no_limit, get_nat}
use ztyco.Base.Int.{pos}
use ztyco.Base.{ℕ, ◌≡◌, ◌≢◌, refl, Bool, true, false, none, some, [], ◌∷◌, arith}
use ztyco.Hook.{
  io_call, recv, World, done, interrupted, again, Wait, arm, disarm, register, yield, came, direct,
  do_io, io_loop,
}
use ztyco.Hook.Calls.{close}
use ztyco.Hook.Io.{open_timers, io_loop_timers, io_call_lem}

abbrev one_word : Sys ℕ
one_word = record {
  fstat = λ k fd. some true;
  getfl = λ k fd. k;
  setfl = λ k fd v. (v, 0);
  close = λ k fd. (k, 0);
  socket = λ k. (k, pos 1);
}

abbrev quiet_kernel : Ctl
quiet_kernel op fd m = false

abbrev hooked_ctx : Bool → FdCtx
hooked_ctx user = record {
  is_init = true;
  is_socket = true;
  sys_nonblock = true;
  user_nonblock = user;
  is_closed = false;
  fd = 0;
  recv_timeout = 300;
  send_timeout = no_limit;
}

-- Descriptor 0 is a hooked socket, and 1 is none yet.
abbrev two_files : Bool → FdManager
two_files user = record { ctxs = λ a. hooked_ctx user; fresh = 1; datas = some 0 ∷ none ∷ [] }

abbrev empty_io : IoManager
empty_io = record {
  contexts = λ a. record { read = blank; write = blank; fd = a; events = none_set };
  table = 0 ∷ 1 ∷ [];
  fresh = 2;
  pending = 0;
  scheduled = [];
}

abbrev world : Bool → World ℕ
world user = record { enabled = true; kernel = 2; mgr = two_files user; io = some empty_io }

abbrev in_time : Wait
in_time = record { refused = false; expired = false }

abbrev late : Wait
late = record { refused = false; expired = true }

retried :
    io_call one_word (world false) recv 0 (interrupted ∷ again ∷ done 4 ∷ []) (in_time ∷ [])
    ≡ (arm 300 ∷ register ∷ yield ∷ disarm ∷ [], came (done 4))
unfolding io_call do_io get_nat
retried = refl

io_loop_timers_example :
    (false ≡ false → open_timers 2 ((io_loop 300 (again ∷ []) (late ∷ [])).0) ≡ 2)
    × (true ≡ true → 300 ≢ no_limit)
unfolding do_io
io_loop_timers_example = io_loop_timers 300 2 (again ∷ []) (late ∷ [])

io_call_lem_example :
    (true ≡ true
      → (io_call one_word (world false) recv 0 (interrupted ∷ again ∷ done 4 ∷ []) (in_time ∷ [])).1
        ≡ came (done 4))
    × (true ≡ false
        → io_call one_word (world false) recv 0 (interrupted ∷ again ∷ done 4 ∷ []) (in_time ∷ [])
          ≡ direct (interrupted ∷ again ∷ done 4 ∷ []))
io_call_lem_example =
    io_call_lem one_word (world false) empty_io recv 0 (interrupted ∷ again ∷ done 4 ∷ [])
      (in_time ∷ []) (done 4) refl (λ a. refl) refl refl (omega arith) ((refl, refl), tt)

abbrev closed_world : World ℕ
closed_world = record (world false) { mgr = record (two_files false) { datas = none ∷ none ∷ [] } }

abbrev new_world : World ℕ
new_world = record (world false) { mgr = new_manager }
