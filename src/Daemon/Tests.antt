-- ===== src/Daemon/Tests.antt =====
-- The daemon at a concrete run, src/daemon.cc.
use ztyco.Base.{◌≡◌, refl, true, some, [], ◌∷◌, arith}
use ztyco.Daemon.{failed, exited, ProcessInfo, start_daemon, start_daemon_lem}

abbrev fresh : ProcessInfo
fresh = record {
  parent_id = 0;
  main_id = 0;
  parent_start_time = 0;
  main_start_time = 0;
  restart_count = 0;
}

-- A crash, a failed fork, a crash, and a child that ends well.
start_daemon_lem_example :
    start_daemon true 5 7 100 1000 fresh (exited 9 ∷ failed ∷ exited 1 ∷ exited 0 ∷ []) ≡ record {
      info = record fresh { parent_id = 100; parent_start_time = 1000; restart_count = 2 };
      sleeps = 5 ∷ 5 ∷ [];
      result = some 0;
    }
start_daemon_lem_example =
    start_daemon_lem 5 7 100 1000 fresh (exited 9 ∷ failed ∷ exited 1 ∷ []) []
      (refl, (tt, (refl, tt))) (omega arith)
