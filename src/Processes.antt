-- ===== src/Processes.antt =====
-- The table of amneziawg-go processes of internal/lowlevel/awg.go. Each function is cut at its critical
-- sections, which `procsMu` makes atomic: what happens between them is steps of other callers, of the
-- watchdogs and of the processes. A call blocked on `done` is a value of `Attempt` that waits.
pub mod Steps
pub mod Exclusive
mod Tests
use awg_portal.Prelude.{
  ℕ, ◌+◌, String, Bool, true, false, not, Option, none, some, ◌==◌, string_eq, nat_eq,
  if◌then◌else◌,
}
use awg_portal.Errors.{Error, Result, ok, err, plain}

-- `awgProcEntry`: `alive` is the state of the process, `done` says that the channel is closed, and
-- `failed` that `Wait` returned an error.
pub record Entry : Type 0 where
  pub iface : String
  pub alive : Bool
  pub stopping : Bool
  pub done : Bool
  pub failed : Bool

-- `procs`, and the entries by number; `count` is the number of the next one.
pub record Table : Type 0 where
  pub procs : String → Option ℕ
  pub entries : ℕ → Entry
  pub count : ℕ

abbrev pub set_proc : (String → Option ℕ) → String → Option ℕ → String → Option ℕ
set_proc f name v k = if name == k then v else f k

abbrev pub set_entry : (ℕ → Entry) → ℕ → Entry → ℕ → Entry
set_entry f e v k = if e == k then v else f k

-- What the system answers: the socket, whether a stale one could be removed, and whether the command started.
pub data Socket : Type 0 where
  absent listening stale : Socket

pub record Answers : Type 0 where
  pub socket : Socket
  pub removed : Bool
  pub started : Bool

-- What the first critical section of `StartAWGProcess` leads to: it waits for an entry and then starts
-- again, returns, or waits for the socket of a new process.
pub data Attempt : Type 0 where
  waiting polling : ℕ → Attempt
  returned : Result (Unit {0}) → Attempt

abbrev pub new_entry : String → Entry
new_entry name = record {
  iface = name;
  alive = true;
  stopping = false;
  done = false;
  failed = false;
}

unfoldable pub spawn : Table → String → Bool → Attempt × Table
spawn t name started =
    if started
    then (
      polling t.count,
      record t {
        procs = set_proc t.procs name (some t.count);
        entries = set_entry t.entries t.count (new_entry name);
        count = t.count + 1;
      },
    )
    else (returned (err (plain "awg: start failed")), t)

unfoldable pub launch : Table → String → Answers → Attempt × Table
unfolding spawn
launch t name os = elim (os.socket) [
  | absent ↦ spawn t name os.started
  | listening ↦ (returned (ok tt), t)
  | stale ↦
      if os.removed
      then spawn t name os.started
      else (returned (err (plain "awg: remove stale socket")), t)
]

unfoldable pub start_awg_process : Table → String → Answers → Attempt × Table
unfolding launch
start_awg_process t name os = elim (t.procs name) [
  | none ↦ launch t name os
  | some e ↦ if (t.entries e).stopping then (waiting e, t) else (returned (ok tt), t)
]

-- One round of the loop that waits for the socket; `none` goes on. After the deadline the code stops the
-- process of the interface and returns an error.
unfoldable pub poll : Table → ℕ → Bool → Option (Result (Unit {0}))
poll t e ready =
    if (t.entries e).done
    then some (err (plain "awg: exited during startup"))
    else if ready
    then some (ok tt)
    else none

-- The critical section of `StopAWGProcess`, with the entry whose process is signalled and waited for.
unfoldable pub stop_awg_process : Table → String → Option ℕ × Table
stop_awg_process t name = elim (t.procs name) [
  | none ↦ (none, t)
  | some e ↦ (
    some e,
    record t { entries = set_entry t.entries e (record (t.entries e) { stopping = true }) },
  )
]

unfoldable pub is_awg_process_running : Table → String → Bool
is_awg_process_running t name = elim (t.procs name) [
  | none ↦ false
  | some e ↦ not (t.entries e).stopping
]

-- The process ends, by itself or by a signal.
unfoldable pub exit : Table → ℕ → Table
exit t e = record t { entries = set_entry t.entries e (record (t.entries e) { alive = false }) }

abbrev pub untrack : (String → Option ℕ) → String → ℕ → Option ℕ → String → Option ℕ
untrack procs name e none = procs
untrack procs name e (some f) = if f == e then set_proc procs name none else procs

-- The critical section of the watchdog, once `Wait` has returned.
unfoldable pub reap : Table → ℕ → Bool → Table
reap t e failed = record t {
  procs = untrack t.procs (t.entries e).iface e (t.procs (t.entries e).iface);
  entries = set_entry t.entries e (record (t.entries e) { done = true; failed = failed });
}
