-- ===== src/Processes/Exclusive.antt =====
-- No two amneziawg-go processes of one interface, and no endless waiting, in internal/lowlevel/awg.go.
use awg_portal.Prelude.{
  ℕ, ◌<◌, ◌+◌, String, Bool, true, false, Option, none, some, string_eq, nat_eq, eq_iff, ◌≡◌, ◌≢◌,
  ◌⊎◌, inl, inr, refl, ap, sym, subst, arith,
}
use awg_portal.Processes.{
  Table, Entry, Answers, Socket, absent, listening, stale, Attempt, waiting, polling,
  start_awg_process, stop_awg_process, exit, reap, launch, spawn, new_entry, set_proc, set_entry,
  untrack,
}
use awg_portal.Processes.Steps.{Step, start, stop, exits, reaps, Reach, here, after, no_processes}

-- Every entry that is not reaped is the tracked one of its interface, every tracked one is not reaped, and
-- a reaped process has ended.
pub record IsTracked (t : Table) : Type 0 where
  pub tracked :
      (e : ℕ) → e < t.count → (t.entries e).done ≡ false → t.procs ((t.entries e).iface) ≡ some e
  pub below : (name : String) (e : ℕ) → t.procs name ≡ some e → e < t.count
  pub named : (name : String) (e : ℕ) → t.procs name ≡ some e → (t.entries e).iface ≡ name
  pub unreaped : (name : String) (e : ℕ) → t.procs name ≡ some e → (t.entries e).done ≡ false
  pub ended : (e : ℕ) → e < t.count → (t.entries e).done ≡ true → (t.entries e).alive ≡ false

exit-IsTracked : (t : Table) (k : ℕ) → IsTracked t → IsTracked (exit t k)
unfolding exit
exit-IsTracked t k v = record {
  tracked = λ e lt undone. ground (arith, v.tracked e);
  below = v.below;
  named = λ name e at. ground (arith, v.named name e);
  unreaped = λ name e at. ground (arith, v.unreaped name e);
  ended = λ e lt done. ground (arith, v.ended e);
}

-- Marking an entry as stopping
stopping-IsTracked :
    (t : Table) (k : ℕ)
    → IsTracked t
    → IsTracked
        (record t { entries = set_entry t.entries k (record (t.entries k) { stopping = true }) })
stopping-IsTracked t k v = record {
  tracked = λ e lt undone. ground (arith, v.tracked e);
  below = v.below;
  named = λ name e at. ground (arith, v.named name e);
  unreaped = λ name e at. ground (arith, v.unreaped name e);
  ended = λ e lt done. ground (arith, v.ended e);
}

abbrev reaped_entry : Table → ℕ → Bool → Entry
reaped_entry t k failed = record (t.entries k) { done = true; failed = failed }

reap-IsTracked :
    (t : Table) (k : ℕ) (failed : Bool)
    → k < t.count
    → (t.entries k).alive ≡ false
    → (t.entries k).done ≡ false
    → IsTracked t
    → IsTracked (reap t k failed)
unfolding reap
reap-IsTracked t k failed lt dead undone v =
    let mine = v.tracked k lt undone in
    let gone : untrack t.procs (t.entries k).iface k (t.procs (t.entries k).iface)
        ≡ set_proc t.procs (t.entries k).iface none =
      ground (arith, mine) in
    subst
      (λ procs. IsTracked (record {
        procs = procs;
        entries = set_entry t.entries k (reaped_entry t k failed);
        count = t.count;
      }))
      (sym gone)
      (record {
        tracked = λ e lt' undone'.
            ground (arith, v.tracked e lt', mine, eq_iff (t.entries k).iface (t.entries e).iface);
        below = λ j e at. ground (arith, v.below j e, eq_iff (t.entries k).iface j);
        named = λ j e at. ground (arith, v.named j e, eq_iff (t.entries k).iface j);
        unreaped =
            λ j e at. ground (arith, v.unreaped j e, v.named j e, eq_iff (t.entries k).iface j);
        ended = λ e lt' done. ground (arith, v.ended e, dead);
      })

spawn-IsTracked :
    (t : Table) (name : String)
    → t.procs name ≡ none
    → IsTracked t
    → IsTracked (record t {
      procs = set_proc t.procs name (some t.count);
      entries = set_entry t.entries t.count (new_entry name);
      count = t.count + 1;
    })
spawn-IsTracked t name free v = record {
  tracked = λ e lt undone.
      ground (arith, v.tracked e, eq_iff name (t.entries e).iface, eq_iff name name, free);
  below = λ j e at. ground (arith, v.below j e, eq_iff name j);
  named = λ j e at. ground (arith, v.named j e, v.below j e, eq_iff name j);
  unreaped = λ j e at. ground (arith, v.unreaped j e, v.below j e, eq_iff name j);
  ended = λ e lt done. ground (arith, v.ended e);
}

maybe_spawn-IsTracked :
    (t : Table) (name : String) (started : Bool)
    → t.procs name ≡ none
    → IsTracked t
    → IsTracked ((spawn t name started).1)
unfolding spawn
maybe_spawn-IsTracked t name true free v = spawn-IsTracked t name free v
maybe_spawn-IsTracked t name false free v = v

launch-IsTracked :
    (t : Table) (name : String) (socket : Socket) (removed started : Bool)
    → t.procs name ≡ none
    → IsTracked t
    → IsTracked
        ((launch t name (record { socket = socket; removed = removed; started = started })).1)
unfolding launch
launch-IsTracked t name absent removed started free v = maybe_spawn-IsTracked t name started free v
launch-IsTracked t name listening removed started free v = v
launch-IsTracked t name stale true started free v = maybe_spawn-IsTracked t name started free v
launch-IsTracked t name stale false started free v = v

Option-cases : (o : Option ℕ) → (o ≡ none) ⊎ ((e : ℕ) × (o ≡ some e))
Option-cases none = inl refl
Option-cases (some e) = inr (e, refl)

stop-none : (t : Table) (name : String) → t.procs name ≡ none → (stop_awg_process t name).1 ≡ t
unfolding stop_awg_process
stop-none t name free = ground (arith, free)

stop-some :
    (t : Table) (name : String) (e : ℕ)
    → t.procs name ≡ some e
    → (stop_awg_process t name).1
      ≡ record t { entries = set_entry t.entries e (record (t.entries e) { stopping = true }) }
unfolding stop_awg_process
stop-some t name e at = ground (arith, at)

spawn-ne-waiting :
    (t : Table) (name : String) (started : Bool) (e : ℕ) → (spawn t name started).0 ≢ waiting e
unfolding spawn
spawn-ne-waiting t name true e h = cc
spawn-ne-waiting t name false e h = cc

launch-ne-waiting :
    (t : Table) (name : String) (socket : Socket) (removed started : Bool) (e : ℕ)
    → (launch t name (record { socket = socket; removed = removed; started = started })).0
      ≢ waiting e
unfolding launch
launch-ne-waiting t name absent removed started e h = spawn-ne-waiting t name started e h
launch-ne-waiting t name listening removed started e h = cc
launch-ne-waiting t name stale true started e h = spawn-ne-waiting t name started e h
launch-ne-waiting t name stale false started e h = cc

exit-alive : (t : Table) (e : ℕ) → ((exit t e).entries e).alive ≡ false
unfolding exit
exit-alive t e = ground arith

exit-done : (t : Table) (e : ℕ) → (t.entries e).done ≡ false → ((exit t e).entries e).done ≡ false
unfolding exit
exit-done t e h = ground arith

reap-done : (t : Table) (e : ℕ) → ((reap t e true).entries e).done ≡ true
unfolding reap
reap-done t e = ground arith

-- What a call of `StartAWGProcess` does, by what is tracked.
start-cases :
    (t : Table) (name : String) (os : Answers)
    → ((t.procs name ≡ none) × (start_awg_process t name os ≡ launch t name os))
      ⊎ ((e : ℕ) × (t.procs name ≡ some e) × ((start_awg_process t name os).1 ≡ t))
unfolding start_awg_process
start-cases t name os = elim (Option-cases (t.procs name)) [
  | inl free ↦ inl (free, ground (arith, free))
  | inr (e, at) ↦ inr (e, at, ground (arith, at))
]

start-IsTracked :
    (t : Table) (name : String) (os : Answers)
    → IsTracked t
    → IsTracked ((start_awg_process t name os).1)
start-IsTracked t name os v = elim (start-cases t name os) [
  | inl (free, same) ↦
      subst (λ (r : Attempt × Table). IsTracked (r.1)) (sym same)
        (launch-IsTracked t name os.socket os.removed os.started free v)
  | inr (e, at, same) ↦ subst IsTracked (sym same) v
]

stop-IsTracked : (t : Table) (name : String) → IsTracked t → IsTracked ((stop_awg_process t name).1)
stop-IsTracked t name v = elim (Option-cases (t.procs name)) [
  | inl free ↦ subst IsTracked (sym (stop-none t name free)) v
  | inr (e, at) ↦ subst IsTracked (sym (stop-some t name e at)) (stopping-IsTracked t e v)
]

Step-IsTracked : {t u : Table} → Step t u → IsTracked t → IsTracked u
Step-IsTracked (start t name os) v = start-IsTracked t name os v
Step-IsTracked (stop t name) v = stop-IsTracked t name v
Step-IsTracked (exits t e lt) v = exit-IsTracked t e v
Step-IsTracked (reaps t e failed lt dead undone) v = reap-IsTracked t e failed lt dead undone v

Reach-IsTracked : {t : Table} → Reach no_processes t → IsTracked t
Reach-IsTracked here = record {
  tracked = λ e lt undone. absurd (omega arith);
  below = λ name e at. absurd (cc);
  named = λ name e at. absurd (cc);
  unreaped = λ name e at. absurd (cc);
  ended = λ e lt done. absurd (omega arith);
}
Reach-IsTracked (after r s) = Step-IsTracked s (Reach-IsTracked r)

start-waiting :
    (t : Table) (name : String) (os : Answers) (e : ℕ)
    → start_awg_process t name os ≡ (waiting e, t)
    → t.procs name ≡ some e
unfolding start_awg_process
start-waiting t name os e h = elim (Option-cases (t.procs name)) [
  | inl free ↦
      let run : launch t name os ≡ (waiting e, t) = ground (arith, free) in
      absurd (
        launch-ne-waiting t name os.socket os.removed os.started e
          (ap (λ (r : Attempt × Table). r.0) run))
  | inr (f, at) ↦ ground (arith, at)
]

free-start :
    (t : Table) (name : String)
    → t.procs name ≡ none
    → (start_awg_process t name (record { socket = absent; removed = true; started = true })).0
      ≡ polling t.count
unfolding start_awg_process launch spawn
free-start t name free = ground (arith, free)

reap-free :
    (t : Table) (name : String) (e : ℕ)
    → t.procs name ≡ some e
    → (t.entries e).iface ≡ name
    → (reap (exit t e) e true).procs name ≡ none
unfolding reap exit
reap-free t name e at named = ground (arith, eq_iff name name)

-- In every state that the calls, the watchdogs and the ends of processes can lead to from the start of the
-- program, two processes that run for the same interface are one process.
pub Reach-exclusive :
    (t : Table) (e f : ℕ)
    → Reach no_processes t
    → e < t.count
    → f < t.count
    → (t.entries e).alive ≡ true
    → (t.entries f).alive ≡ true
    → (t.entries e).iface ≡ (t.entries f).iface
    → e ≡ f
Reach-exclusive t e f r e_lt f_lt e_alive f_alive same =
    let v = Reach-IsTracked r in
    let e_undone : (t.entries e).done ≡ false = ground (arith, v.ended e) in
    let f_undone : (t.entries f).done ≡ false = ground (arith, v.ended f) in
    cc (v.tracked e e_lt e_undone, v.tracked f f_lt f_undone)

-- From every such state in which `StartAWGProcess` waits for a process that is being stopped, two steps
-- lead to one in which that process is reaped, so that the wait is over, and a further call starts a
-- process if the socket is gone and the command can be started.
pub Reach-progress :
    (t : Table) (name : String) (os : Answers) (e : ℕ)
    → Reach no_processes t
    → start_awg_process t name os ≡ (waiting e, t)
    → (u : Table) × Reach t u
      × ((u.entries e).done ≡ true)
      × ((start_awg_process u name (record { socket = absent; removed = true; started = true })).0
          ≡ polling u.count)
unfolding exit
Reach-progress t name os e r wait =
    let v = Reach-IsTracked r in
    let at = start-waiting t name os e wait in
    let lt = v.below name e at in
    let undone = v.unreaped name e at in
    let named = v.named name e at in
    let t' = exit t e in
    let u = reap t' e true in
    (
      u,
      after (after here (exits t e lt))
          (reaps t' e true lt (exit-alive t e) (exit-done t e undone)),
      reap-done t' e,
      free-start u name (reap-free t name e at named),
    )
