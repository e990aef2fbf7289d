-- ===== src/FdManager/Tests.antt =====
-- The theorems on the table of descriptors at concrete tables, src/fdmanager.cc.
use ztyco.Base.Int.{pos}
use ztyco.Base.{ℕ, true, some}
use ztyco.FdManager.{Sys, FdCtx, new_ctx}

-- A kernel that keeps one word of flags, where every descriptor is a socket.
abbrev one_word : Sys ℕ
one_word = record {
  fstat = λ k fd. some true;
  getfl = λ k fd. k;
  setfl = λ k fd v. (v, 0);
  close = λ k fd. (k, 0);
  socket = λ k. (k, pos 7);
}

abbrev some_ctx : FdCtx
some_ctx = (new_ctx one_word 0 7).1
