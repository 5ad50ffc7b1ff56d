-- ===== src/Processes/Tests.antt =====
-- Runs of the table of processes, and the theorems at those inputs.
use awg_portal.Prelude.{ℕ, ◌<◌, true, false, ◌≡◌, refl, arith}
use awg_portal.Processes.{
  Table, Answers, absent, waiting, polling, start_awg_process, stop_awg_process,
  is_awg_process_running, exit, reap,
}
use awg_portal.Processes.Steps.{start, stop, exits, reaps, Reach, here, after, no_processes}
use awg_portal.Processes.Exclusive.{Reach-exclusive, Reach-progress}

abbrev ready : Answers
ready = record { socket = absent; removed = true; started = true }

running : Table
running = (start_awg_process no_processes "wg0" ready).1

stopping : Table
stopping = (stop_awg_process running "wg0").1

-- The first process has ended and is reaped, and a second one runs.
again : Table
again = (start_awg_process (reap (exit running 0) 0 false) "wg0" ready).1

is_running : is_awg_process_running running "wg0" ≡ true
unfolding is_awg_process_running running start_awg_process
is_running = refl

running_Reach : Reach no_processes running
unfolding running
running_Reach = after here (start no_processes "wg0" ready)

stopping_Reach : Reach no_processes stopping
unfolding stopping
stopping_Reach = after running_Reach (stop running "wg0")

again_Reach : Reach no_processes again
unfolding again running start_awg_process exit reap
again_Reach =
    after
      (after (after running_Reach (exits running 0 (omega arith)))
        (reaps (exit running 0) 0 false (omega arith) refl refl))
      (start (reap (exit running 0) 0 false) "wg0" ready)

second_below : 1 < again.count
unfolding again running start_awg_process exit reap
second_below = omega arith

second_alive : (again.entries 1).alive ≡ true
unfolding again running start_awg_process exit reap
second_alive = refl

Reach-exclusive_example : ◌≡◌ {A = ℕ} 1 1
Reach-exclusive_example =
    Reach-exclusive again 1 1 again_Reach second_below second_below second_alive second_alive refl

must_wait : start_awg_process stopping "wg0" ready ≡ (waiting 0, stopping)
unfolding stopping running start_awg_process stop_awg_process
must_wait = refl

Reach-progress_example :
    (u : Table) × Reach stopping u
    × ((u.entries 0).done ≡ true)
    × ((start_awg_process u "wg0" ready).0 ≡ polling u.count)
Reach-progress_example = Reach-progress stopping "wg0" ready 0 stopping_Reach must_wait
