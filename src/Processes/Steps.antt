-- ===== src/Processes/Steps.antt =====
-- The steps of the table of processes of internal/lowlevel/awg.go, in any order and by any callers.
use awg_portal.Prelude.{ℕ, ◌<◌, String, Bool, false, none, ◌≡◌}
use awg_portal.Processes.{
  Table, Answers, start_awg_process, stop_awg_process, exit, reap, new_entry,
}

pub data Step : Table → Table → Type 0 where
  start : (t : Table) (name : String) (os : Answers) → Step t ((start_awg_process t name os).1)
  stop : (t : Table) (name : String) → Step t ((stop_awg_process t name).1)
  exits : (t : Table) (e : ℕ) → e < t.count → Step t (exit t e)
  reaps :
      (t : Table) (e : ℕ) (failed : Bool)
      → e < t.count
      → (t.entries e).alive ≡ false
      → (t.entries e).done ≡ false
      → Step t (reap t e failed)

pub data Reach (t : Table) : Table → Type 0 where
  here : Reach t t
  after : {u v : Table} → Reach t u → Step u v → Reach t v

-- The table when the program starts.
abbrev pub no_processes : Table
no_processes = record { procs = λ name. none; entries = λ e. new_entry ""; count = 0 }
