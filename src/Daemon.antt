-- ===== src/Daemon.antt =====
-- The daemon, src/daemon.cc and include/daemon.h. What `fork` and `waitpid` come to is a script, and
-- the pids and times are arguments; the seconds that are slept are a list.
mod Tests
use ztyco.Base.{
  ℕ, zero, suc, ◌+◌, ◌%◌, ◌^◌, ◌<◌, ◌≡◌, refl, ap, ◌∙◌, Bool, true, false, Option, none, some, List,
  [], ◌∷◌, ◌++◌, if◌then◌else◌, ◌==◌, replicate, All, arith,
}

-- What one `fork` comes to: this process is the child, with its pid and time; there is none; or this
-- is the parent, and the child ends with a status.
pub data Fork : Type 0 where
  child : ℕ → ℕ → Fork
  failed : Fork
  exited : ℕ → Fork

-- `ProcessInfo`
pub record ProcessInfo : Type 0 where
  pub parent_id : ℕ
  pub main_id : ℕ
  pub parent_start_time : ℕ
  pub main_start_time : ℕ
  pub restart_count : ℕ

-- What is left of a run: the process's information, the sleeps, and what is returned, if the script
-- does not end before.
pub record Ran : Type 0 where
  pub info : ProcessInfo
  pub sleeps : List ℕ
  pub result : Option ℕ

-- `ProcessInfo` and the sleeps when a child has crashed.
abbrev pub restarted : ProcessInfo → ProcessInfo
restarted info = record info { restart_count = (info.restart_count + 1) % 2 ^ 32 }

abbrev pub slept : ℕ → Ran → Ran
slept interval r = record r { sleeps = interval ∷ r.sleeps }

-- The loop of `real_daemon`; `main` is what the program returns.
unfoldable pub daemon_loop : ℕ → ℕ → ProcessInfo → List Fork → Ran
daemon_loop interval main info [] = record { info = info; sleeps = []; result = none }
daemon_loop interval main info (child pid time ∷ forks) = record {
  info = record info { main_id = pid; main_start_time = time };
  sleeps = [];
  result = some main;
}
daemon_loop interval main info (failed ∷ forks) = daemon_loop interval main info forks
daemon_loop interval main info (exited status ∷ forks) =
    let again = slept interval (daemon_loop interval main (restarted info) forks) in
    if status == 0 then record { info = info; sleeps = []; result = some 0 } else again

-- `start_daemon`
unfoldable pub start_daemon : Bool → ℕ → ℕ → ℕ → ℕ → ProcessInfo → List Fork → Ran
unfolding daemon_loop
start_daemon is_daemon interval main pid time info forks =
    if is_daemon
    then daemon_loop interval main (record info { parent_id = pid; parent_start_time = time }) forks
    else record { info = info; sleeps = []; result = some main }

-- A `fork` after which the parent goes on, and the number of crashes.
abbrev pub GoesOn : Fork → Type 0
GoesOn (child pid time) = ⊥
GoesOn failed = Unit {0}
GoesOn (exited status) = (status == 0) ≡ false

abbrev pub crashes : List Fork → ℕ
crashes [] = 0
crashes (child pid time ∷ forks) = crashes forks
crashes (failed ∷ forks) = crashes forks
crashes (exited status ∷ forks) = suc (crashes forks)

loop_lem :
    (interval main : ℕ) (info : ProcessInfo) (before after : List Fork)
    → All GoesOn before
    → info.restart_count < 2 ^ 32
    → daemon_loop interval main info (before ++ exited 0 ∷ after) ≡ record {
      info = record info { restart_count = (info.restart_count + crashes before) % 2 ^ 32 };
      sleeps = replicate (crashes before) interval;
      result = some 0;
    }
unfolding daemon_loop
loop_lem interval main info [] after h small =
    ap (λ n. record { info = record info { restart_count = n }; sleeps = []; result = some 0 })
      (ground arith)
loop_lem interval main info (child pid time ∷ forks) after h small = elim h.0 [ ]
loop_lem interval main info (failed ∷ forks) after h small =
    loop_lem interval main info forks after h.1 small
loop_lem interval main info (exited status ∷ forks) after h small = rw (h.0) (
    ap (slept interval) (loop_lem interval main (restarted info) forks after h.1 (ground arith))
    ∙ ap
        (λ n. record {
          info = record info { restart_count = n };
          sleeps = interval ∷ replicate (crashes forks) interval;
          result = some 0;
        })
        (ground arith))

-- The parent process of a daemon, over any failed forks and crashed children before a child that ends
-- well: it returns 0, it has slept the interval once for each crash and not for a failed fork, and
-- the crashes are counted, modulo 2^32.
pub start_daemon_lem :
    (interval main pid time : ℕ) (info : ProcessInfo) (before after : List Fork)
    → All GoesOn before
    → info.restart_count < 2 ^ 32
    → start_daemon true interval main pid time info (before ++ exited 0 ∷ after) ≡ record {
      info = record info {
        parent_id = pid;
        parent_start_time = time;
        restart_count = (info.restart_count + crashes before) % 2 ^ 32;
      };
      sleeps = replicate (crashes before) interval;
      result = some 0;
    }
unfolding start_daemon daemon_loop
start_daemon_lem interval main pid time info before after h small =
    loop_lem interval main (record info { parent_id = pid; parent_start_time = time }) before after
      h small
