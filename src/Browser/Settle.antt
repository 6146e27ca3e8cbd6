-- ===== src/Browser/Settle.antt =====
-- The timers of the script, when they fire one after the other.
use full_project.Prelude.{
  ℕ, suc, ◌+◌, ◌≤◌, ◌<◌, zero, ◌||◌, ◌==◌, ◌≡◌, refl, ◌∙◌, ap, Bool, true, false, Option, none,
  some, List, [], ◌∷◌, ◌++◌, length, if◌then◌else◌, arith, String, not,
}
use full_project.Js.Text.{codes}
use full_project.Page.{Page}
use full_project.Path.{is_one_page_mode}
use full_project.World.{Dom, M, Run, when}
use full_project.World.Steps.{IsPreorder, Steps, bind-Steps, then-Steps, when-Steps}
use full_project.Browser.{
  Task, send_view, view_seen, card_seen, surface_check, start_checkout, surface_changed,
  remove_check, Timer, Tab, lift, modify, set_timeout, without,
}
use full_project.Checkout.{bind_checkout_intent_tracking, is_checkout_flow_page}
use full_project.Browser.Views.{run_view_seen, run_card_seen}
use full_project.Browser.Parts.{
  two_checks, schedule_checkout_surface_checks, run_start_checkout, unwatch_done,
  run_surface_changed,
}
use full_project.Browser.Script.{timer_fired, task_of, run_task, dispatch, step}

-- How many timers a timer may stand for, with those that it sets up.
abbrev pub weight : Task → ℕ
weight send_view = 1
weight view_seen = 1
weight (card_seen el found) = 1
weight (surface_check reason) = 1
weight start_checkout = 3
weight surface_changed = 1
weight (remove_check button) = 1

abbrev weight_of : Option Task → ℕ
weight_of none = 0
weight_of (some task) = weight task

abbrev pub total : List Timer → ℕ
total [] = 0
total (timer ∷ timers) = weight timer.task + total timers

total-append :
    (ts : List Timer) (timer : Timer) → total (ts ++ (timer ∷ [])) ≡ total ts + weight timer.task
total-append [] timer = omega arith
total-append (t ∷ ts) timer = let h = total-append ts timer in omega arith

total-without : (id : ℕ) (ts : List Timer) → total (without id ts) ≤ total ts
total-without id [] = omega arith
total-without id (t ∷ ts) = ground (arith, total-without id ts)

task_of-total :
    (id : ℕ) (task : Task) (ts : List Timer)
    → task_of id ts ≡ some task
    → total (without id ts) + weight task ≤ total ts
task_of-total id task [] h = cc
task_of-total id task (t ∷ ts) h = split (t.id == id) (task_of-total id task ts) h
  where
    split :
        (b : Bool)
        → (task_of id ts ≡ some task → total (without id ts) + weight task ≤ total ts)
        → (if b then some t.task else task_of id ts) ≡ some task
        → total (if b then without id ts else t ∷ without id ts) + weight task
          ≤ weight t.task + total ts
    split true later e = let same = ap weight_of e in let fewer = total-without id ts in omega arith
    split false later e = let fewer = later e in omega arith

-- The timer at a place of the list, the last where the list is too short.
abbrev id_at : ℕ → Timer → List Timer → ℕ
id_at zero timer ts = timer.id
id_at (suc place) timer [] = timer.id
id_at (suc place) timer (t ∷ ts) = id_at place t ts

abbrev waits : ℕ → List Timer → Bool
waits id [] = false
waits id (t ∷ ts) = (t.id == id) || waits id ts

id_at-waits :
    (place : ℕ) (timer : Timer) (ts : List Timer) → waits (id_at place timer ts) (timer ∷ ts) ≡ true
id_at-waits zero timer ts = ground arith
id_at-waits (suc place) timer [] = ground arith
id_at-waits (suc place) timer (t ∷ ts) = ground (arith, id_at-waits place t ts)

-- A timer that waits has a task.
task_of-waits :
    (id : ℕ) (ts : List Timer) → waits id ts ≡ true → (task : Task) × (task_of id ts ≡ some task)
task_of-waits id [] h = cc
task_of-waits id (t ∷ ts) h = of (t.id == id) (task_of-waits id ts) h
  where
    of :
        (b : Bool)
        → (waits id ts ≡ true → (task : Task) × (task_of id ts ≡ some task))
        → (b || waits id ts) ≡ true
        → (task : Task) × ((if b then some t.task else task_of id ts) ≡ some task)
    of true later e = (t.task, refl)
    of false later e = later e

-- The timers stay as they are.
abbrev Waits : Tab → Tab → Type 0
Waits t u = u.timers ≡ t.timers

Waits-IsPreorder : IsPreorder Waits
Waits-IsPreorder = record { refl_lem = λ t. refl; trans_lem = λ t u v h g. g ∙ h }

lift-Waits : {A : Type 0} (m : M A) → Steps Waits (lift m)
unfolding lift
lift-Waits m = record { steps = λ t. refl }

modify-Waits : (f : Tab → Tab) → ((t : Tab) → (f t).timers ≡ t.timers) → Steps Waits (modify f)
modify-Waits f h = record { steps = h }

module _ (p : Page) where
  when-total :
      (b : Bool) (m : Run Tab (Unit {0})) (t : Tab)
      → total (m t).1.timers ≤ total t.timers + 2
      → total (when b m t).1.timers ≤ total t.timers + 2
  when-total true m t h = h
  when-total false m t h = omega arith

  two_checks-total : (t : Tab) → total (two_checks p t).1.timers ≤ total t.timers + 2
  unfolding set_timeout
  two_checks-total t =
      let load = two "checkout_page_load" 1200 t.next_id in
      let late = two "checkout_delayed_page_load" 4000 (suc t.next_id) in
      let first = total-append t.timers load in
      let second = total-append (t.timers ++ (load ∷ [])) late in omega arith
    where
      two : String → ℕ → ℕ → Timer
      two reason delay id = record { id = id; delay = delay; task = surface_check (codes reason) }

  run_start_checkout-total :
      (t : Tab) → total (run_start_checkout p t).1.timers ≤ total t.timers + 2
  unfolding run_start_checkout lift bind_checkout_intent_tracking schedule_checkout_surface_checks
  run_start_checkout-total t =
      let u = record t { world = record t.world { checkout_intent_bound = true } } in
      when-total (not (is_one_page_mode p.config)) (schedule_checkout_surface_checks p) u
        (when-total (is_checkout_flow_page p u.world.dom) (two_checks p) u (two_checks-total u))

  Waits-total :
      {m : Run Tab (Unit {0})}
      → Steps Waits m
      → (t : Tab) → total (m t).1.timers + 1 ≤ total t.timers + 1
  Waits-total {m} h t = rw (h.steps t) (omega arith)

  surface_changed-Waits : Steps Waits (run_surface_changed p)
  unfolding run_surface_changed
  surface_changed-Waits = record {
    steps = λ t. (then-Steps Waits-IsPreorder (lift-Waits _) unwatch_done-Waits).steps t;
  }
    where
      unwatch_done-Waits : Steps Waits (unwatch_done p)
      unwatch_done-Waits = record {
        steps = λ t. (when-Steps Waits-IsPreorder _ (modify-Waits _ λ t. refl)).steps t;
      }

  run_task-total :
      (task : Task) (t : Tab)
      → total (run_task p task t).1.timers + 1 ≤ total t.timers + weight task
  unfolding run_task run_view_seen run_card_seen
  run_task-total send_view = Waits-total (lift-Waits _)
  run_task-total view_seen =
      Waits-total (then-Steps Waits-IsPreorder (lift-Waits _) (modify-Waits _ λ t. refl))
  run_task-total (card_seen el found) = Waits-total (
      bind-Steps Waits-IsPreorder (lift-Waits _)
        λ new. when-Steps Waits-IsPreorder new (modify-Waits _ λ t. refl))
  run_task-total (surface_check reason) = Waits-total (lift-Waits _)
  run_task-total start_checkout = λ t. let h = run_start_checkout-total t in omega arith
  run_task-total surface_changed = Waits-total surface_changed-Waits
  run_task-total (remove_check button) = Waits-total (lift-Waits _)

  -- Each timer that fires leaves less to do.
  timer_fired-total :
      (id : ℕ) (task : Task) (t : Tab)
      → task_of id t.timers ≡ some task
      → total (dispatch p (timer_fired id) t).1.timers < total t.timers
  unfolding dispatch
  timer_fired-total id task t h =
      let less = task_of-total id task t.timers h in
      let ran = run_task-total task (record t { timers = without id t.timers }) in
      rw h (omega arith)

  -- A firing: the place of the timer among those that wait, the time and the document.
  abbrev fire : ℕ × ℕ × Dom → List Timer → Tab → Tab
  fire m [] t = t
  fire (place, at, dom) (timer ∷ timers) t =
      step p (record { at = at; dom = dom; event = timer_fired (id_at place timer timers) }) t

  -- One timer after the other fires, in any order, and nothing else happens.
  unfoldable pub settle : List (ℕ × ℕ × Dom) → Tab → Tab
  settle [] t = t
  settle (m ∷ ms) t = settle ms (fire m t.timers t)

  fire-total :
      (m : ℕ × ℕ × Dom) (ts : List Timer) (t : Tab) (n : ℕ)
      → t.timers ≡ ts
      → total ts ≤ suc n
      → total (fire m ts t).timers ≤ n
  unfolding step
  fire-total m [] t n e h = rw e (omega arith)
  fire-total (place, at, dom) (timer ∷ ts) t n e h =
      let u = record t { world = record t.world { now = at; dom = dom } } in
      let (task, found) =
        task_of-waits (id_at place timer ts) (timer ∷ ts) (id_at-waits place timer ts) in
      let less = timer_fired-total (id_at place timer ts) task u (rw e found) in
      let same = ap total e in omega arith

  total-none : (ts : List Timer) → total ts ≤ 0 → ts ≡ []
  total-none [] h = refl
  total-none (timer ∷ ts) h = absurd (some_weight timer.task h)
    where
      some_weight : (task : Task) → weight task + total ts ≤ 0 → ⊥
      some_weight send_view h = omega arith
      some_weight view_seen h = omega arith
      some_weight (card_seen el found) h = omega arith
      some_weight (surface_check reason) h = omega arith
      some_weight start_checkout h = omega arith
      some_weight surface_changed h = omega arith
      some_weight (remove_check button) h = omega arith

  -- The timers come to an end: if they fire in any order, at any times and in any documents, and nothing
  -- else happens in between, no timer is left as soon as there have been as many firings as the timers
  -- weigh, three for a start of the checkout's tracking, which may set up two more, and one for any
  -- other.
  pub settle-timers :
      (ms : List (ℕ × ℕ × Dom)) (t : Tab) → total t.timers ≤ length ms → (settle ms t).timers ≡ []
  unfolding settle
  settle-timers [] t h = total-none t.timers h
  settle-timers (m ∷ ms) t h =
      settle-timers ms (fire m t.timers t) (fire-total m t.timers t (length ms) refl h)
