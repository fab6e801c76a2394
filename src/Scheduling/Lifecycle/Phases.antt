-- ===== src/Scheduling/Lifecycle/Phases.antt =====
-- The timeouts of a scheduler over its turns: at every moment its descriptors name all that will fire.
use wolfram_price_feed_infra.Base.{
  ℕ, suc, ◌≡◌, refl, sym, ap, ◌∙◌, ◌⊎◌, inl, inr, Bool, true, false, Option, none, some, List, [],
  ◌∷◌, ◌++◌, All, get_or, ◌==◌, ==_iff, Bool-cases, includes, includes-last, includes-append_left,
  includes-append_right, includes-head, ==_self, Option-cases, ◌≢◌, ◌and_then◌, and_then_keeps,
  and_then_reaches, rethrow_keeps, type_error, returns, throws, Attempt,
}
use mathlib.Core.Bool.{false≢true}
use wolfram_price_feed_infra.Base.Ratio.{Ratio}
use wolfram_price_feed_infra.Base.Ratio
use wolfram_price_feed_infra.Scheduling.Scheduler.{Options, DynamicConfig}
use wolfram_price_feed_infra.Scheduling.Delays.{
  get_operations_batch_delay, get_operations_cluster_delay,
}
use wolfram_price_feed_infra.Scheduling.Lifecycle.{
  Job, batch_job, operations_job, operation_job, Timeout, Task, create, remove, remove_all, listed,
  overwritten, initialize_scheduler, initialize_cluster_delay, initialize_batch, arm_operations,
  run_operations, run_job, fire, destroy_scheduler, configure_task, start, stop,
}

-- The states of a scheduler. The cron task ticks when nothing of its last turn is left to fire; a
-- scheduler is started when its cron task does not run.
pub data Reachable (frames : ℕ) : Task → Type 0 where
  created : (o : Options) → Reachable frames (create o)
  ticked :
      {t : Task}
      → Reachable frames t
      → t.cron_task ≡ some true
      → t.armed ≡ []
      → Reachable frames (initialize_cluster_delay t)
  fired :
      {t : Task} (before after : List Timeout) (x : Timeout)
      → Reachable frames t
      → t.armed ≡ before ++ x ∷ after
      → Reachable frames (fire x t)
  started :
      {t : Task} (c : DynamicConfig)
      → Reachable frames t
      → t.cron_task ≢ some true
      → Reachable frames (start frames c t).0
  stopped : {t : Task} → Reachable frames t → Reachable frames (stop t).0

abbrev IsOperation : Task → Timeout → Type 0
IsOperation t x =
    ((n : ℕ) × (x.job ≡ operation_job n)) × (includes t.operation_timeouts x.id ≡ true)

-- One timeout of the chain, which its descriptor names, or any of the operations'.
abbrev IsPhased : Task → Type 0
IsPhased t =
    ((x : Timeout) × (t.armed ≡ x ∷ [])
      × (((x.job ≡ batch_job) × (t.cluster_timeout ≡ some x.id))
          ⊎ ((x.job ≡ operations_job) × (t.batch_timeout ≡ some x.id))))
    ⊎ All (IsOperation t) t.armed

All-remove {κ} : (P : Timeout → Type κ) (id : ℕ) (l : List Timeout) → All P l → All P (remove id l)
All-remove P id [] h = h
All-remove P id (x ∷ xs) h = elim (Bool-cases (x.id == id)) [
  | inl e ↦ rw e (All-remove P id xs h.1)
  | inr e ↦ rw e (h.0, All-remove P id xs h.1)
]

remove_self : (x : Timeout) → remove x.id (x ∷ []) ≡ []
remove_self x = rw (==_self x.id) refl

-- Removing every descriptor that a list names empties it.
remove_all-empty :
    (ids : List ℕ) (l : List Timeout)
    → All (λ x. includes ids x.id ≡ true) l
    → remove_all ids l ≡ []
remove_all-empty [] [] h = refl
remove_all-empty [] (x ∷ xs) h = absurd (false≢true h.0)
remove_all-empty (id ∷ ids) l h = remove_all-empty ids (remove id l) (rest l h)
  where
    rest :
        (l : List Timeout)
        → All (λ x. includes (id ∷ ids) x.id ≡ true) l
        → All (λ x. includes ids x.id ≡ true) (remove id l)
    rest [] h = h
    rest (x ∷ xs) h = elim (Bool-cases (x.id == id)) [
      | inl e ↦ rw e (rest xs h.1)
      | inr e ↦ rw e (elim (Bool-cases (id == x.id)) [
        | inl e' ↦
            absurd (false≢true (sym e ∙ ap (λ n. x.id == n) ((==_iff id x.id).0 e') ∙ ==_self x.id))
        | inr e' ↦ (sym (rw e' refl) ∙ h.0, rest xs h.1)
      ])
    ]

All-middle {κ} :
    (P : Timeout → Type κ) (before after : List Timeout) (x : Timeout)
    → All P (before ++ x ∷ after)
    → P x
All-middle P [] after x h = h.0
All-middle P (b ∷ bs) after x h = All-middle P bs after x h.1

only_one : (before after : List Timeout) (x y : Timeout) → y ∷ [] ≡ before ++ x ∷ after → y ≡ x
only_one [] after x y h = cc
only_one (b ∷ []) after x y h = absurd cc
only_one (b ∷ c ∷ bs) after x y h = absurd cc

-- The operations' timeouts that a run arms are all named by its descriptors.
arm_operations-All :
    (index : ℕ) (operations : List ℕ) (t : Task)
    → All (IsOperation t) t.armed
    → All
        (IsOperation (arm_operations index operations t))
        (arm_operations index operations t).armed
unfolding arm_operations
arm_operations-All index [] t h = h
arm_operations-All index (operation ∷ rest) t h =
    arm_operations-All (suc index) rest _
      (((operation, refl), includes-last t.operation_timeouts t.next_id), kept t.armed h)
  where
    kept :
        (l : List Timeout)
        → All (IsOperation t) l
        → All
            (λ (x : Timeout).
              ((n : ℕ) × (x.job ≡ operation_job n))
              × (includes (t.operation_timeouts ++ t.next_id ∷ []) x.id ≡ true))
            l
    kept [] h = h
    kept (x ∷ xs) h = (
      (h.0.0, includes-append_left t.operation_timeouts (t.next_id ∷ []) x.id h.0.1),
      kept xs h.1,
    )

run_job-IsPhased :
    (job : Job) (t : Task)
    → t.armed ≡ []
    → ((job ≡ batch_job) ⊎ (job ≡ operations_job))
    → IsPhased (run_job job t)
unfolding run_job initialize_batch run_operations
run_job-IsPhased batch_job t none_left k = inl (
  record { id = t.next_id; job = operations_job; delay = get_operations_batch_delay t.scheduler },
  rw none_left refl,
  inr (refl, refl),
)
run_job-IsPhased operations_job t none_left k = inr (
    arm_operations-All 0 t.scheduler.operations (record t { operation_timeouts = [] })
      (rw none_left tt))
run_job-IsPhased (operation_job n) t none_left (inl e) = absurd cc
run_job-IsPhased (operation_job n) t none_left (inr e) = absurd cc

fire-IsPhased :
    (t : Task) (before after : List Timeout) (x : Timeout)
    → t.armed ≡ before ++ x ∷ after
    → IsPhased t
    → IsPhased (fire x t)
unfolding fire
fire-IsPhased t before after x parts (inl (y, only, named)) =
    let same = only_one before after x y (sym only ∙ parts) in
    run_job-IsPhased x.job (record t { armed = remove x.id t.armed })
      (ap (remove x.id) (only ∙ ap (λ z. z ∷ []) same) ∙ remove_self x)
      (elim named [
        | inl (job, _) ↦ inl (ap (λ (z : Timeout). z.job) (sym same) ∙ job)
        | inr (job, _) ↦ inr (ap (λ (z : Timeout). z.job) (sym same) ∙ job)
      ])
fire-IsPhased t before after x parts (inr all) =
    let ((n, job), _) = All-middle (IsOperation t) before after x (rw parts at all) in
    rw (job, run_job) (inr (All-remove (IsOperation t) x.id t.armed all))

start-IsPhased :
    (frames : ℕ) (c : DynamicConfig) (t : Task) → IsPhased t → IsPhased (start frames c t).0
unfolding start configure_task initialize_scheduler
start-IsPhased frames c t h =
    rethrow_keeps IsPhased
      (configure_task frames c t and_then λ u. (initialize_scheduler u, returns tt))
      (and_then_keeps IsPhased (configure_task frames c t)
        (λ u. (initialize_scheduler u, returns tt)) h (λ u k. k))

-- Every descriptor that the scheduler holds.
abbrev descriptors : Task → List ℕ
descriptors t = listed t.cluster_timeout ++ (listed t.batch_timeout ++ t.operation_timeouts)

destroy_armed : Task → List Timeout
destroy_armed t =
    remove_all t.operation_timeouts
      (remove_all (listed t.batch_timeout) (remove_all (listed t.cluster_timeout) t.armed))

remove_all-append :
    (ids ids' : List ℕ) (l : List Timeout)
    → remove_all (ids ++ ids') l ≡ remove_all ids' (remove_all ids l)
remove_all-append [] ids' l = refl
remove_all-append (id ∷ ids) ids' l = remove_all-append ids ids' (remove id l)

phased-named : (t : Task) → IsPhased t → All (λ x. includes (descriptors t) x.id ≡ true) t.armed
phased-named t (inl (x, only, inl (job, named))) =
    rw (only, named) (includes-head x.id (listed t.batch_timeout ++ t.operation_timeouts), tt)
phased-named t (inl (x, only, inr (job, named))) =
    rw (only, named)
      (
        includes-append_right (listed t.cluster_timeout) (x.id ∷ t.operation_timeouts) x.id
            (includes-head x.id t.operation_timeouts),
        tt,
      )
phased-named t (inr all) = among t.armed all
  where
    among :
        (l : List Timeout)
        → All (IsOperation t) l
        → All (λ x. includes (descriptors t) x.id ≡ true) l
    among [] h = h
    among (x ∷ xs) h = (
      includes-append_right (listed t.cluster_timeout) _ x.id
          (includes-append_right (listed t.batch_timeout) _ x.id h.0.1),
      among xs h.1,
    )

phased-destroyed : (t : Task) → IsPhased t → destroy_armed t ≡ []
unfolding destroy_armed
phased-destroyed t h =
    sym (
      remove_all-append (listed t.cluster_timeout) (listed t.batch_timeout ++ t.operation_timeouts)
        t.armed
      ∙ remove_all-append (listed t.batch_timeout) t.operation_timeouts _)
    ∙ remove_all-empty (descriptors t) t.armed (phased-named t h)

stop-IsPhased : (t : Task) → IsPhased t → IsPhased (stop t).0
unfolding stop destroy_scheduler destroy_armed
stop-IsPhased t h =
    rethrow_keeps IsPhased (destroy_scheduler t) (by_task (Option-cases t.cron_task))
  where
    by_task :
        ((t.cron_task ≡ none) ⊎ ((b : Bool) × (t.cron_task ≡ some b)))
        → IsPhased (destroy_scheduler t).0
    by_task (inl e) = rw (e, destroy_scheduler) h
    by_task (inr (b, e)) = rw (e, destroy_scheduler) (inr (rw (phased-destroyed t h) tt))

Reachable-IsPhased : {frames : ℕ} {t : Task} → Reachable frames t → IsPhased t
unfolding create initialize_cluster_delay
Reachable-IsPhased (created o) = inr tt
Reachable-IsPhased (ticked {t} r running idle) = inl (
  record {
    id = t.next_id;
    job = batch_job;
    delay = get_or (get_operations_cluster_delay t.scheduler) (Ratio.of_ℕ 0);
  },
  rw idle refl,
  inl (refl, refl),
)
Reachable-IsPhased (fired {t} before after x r parts) =
    fire-IsPhased t before after x parts (Reachable-IsPhased r)
Reachable-IsPhased {frames} (started {t} c r stands) =
    start-IsPhased frames c t (Reachable-IsPhased r)
Reachable-IsPhased (stopped {t} r) = stop-IsPhased t (Reachable-IsPhased r)

overwritten_none : (o : Option Bool) (n : ℕ) → o ≢ some true → n ≡ 0 → overwritten o n ≡ 0
overwritten_none (some true) n stands h = absurd (stands refl)
overwritten_none (some false) n stands h = h
overwritten_none none n stands h = h

arm_operations-left_behind :
    (index : ℕ) (operations : List ℕ) (t : Task)
    → (arm_operations index operations t).left_behind ≡ t.left_behind
unfolding arm_operations
arm_operations-left_behind index [] t = refl
arm_operations-left_behind index (operation ∷ rest) t =
    arm_operations-left_behind (suc index) rest _

run_job-left_behind : (job : Job) (t : Task) → (run_job job t).left_behind ≡ t.left_behind
unfolding run_job initialize_batch run_operations
run_job-left_behind batch_job t = refl
run_job-left_behind operations_job t = arm_operations-left_behind 0 t.scheduler.operations _
run_job-left_behind (operation_job n) t = refl

abbrev HoldsItsCron : Task → Type 0
HoldsItsCron t = t.left_behind ≡ 0

start-HoldsItsCron :
    (frames : ℕ) (c : DynamicConfig) (t : Task)
    → t.cron_task ≢ some true
    → HoldsItsCron t
    → HoldsItsCron (start frames c t).0
unfolding start configure_task initialize_scheduler
start-HoldsItsCron frames c t stands h =
    rethrow_keeps HoldsItsCron
      (configure_task frames c t and_then λ u. (initialize_scheduler u, returns tt))
      (and_then_reaches (λ (u : Task). (u.cron_task ≢ some true) × HoldsItsCron u) HoldsItsCron
        (configure_task frames c t) (λ u. (initialize_scheduler u, returns tt)) (stands, h)
        (λ u k. k.1) (λ u k. overwritten_none u.cron_task u.left_behind k.0 k.1))

stop-left_behind : (t : Task) → (stop t).0.left_behind ≡ t.left_behind
unfolding stop destroy_scheduler
stop-left_behind t =
    rethrow_keeps (λ (u : Task). u.left_behind ≡ t.left_behind) (destroy_scheduler t)
      (elim (Option-cases t.cron_task) [
        | inl e ↦ rw (e, destroy_scheduler) refl
        | inr (b, e) ↦ rw (e, destroy_scheduler) refl
      ])

Reachable-HoldsItsCron : {frames : ℕ} {t : Task} → Reachable frames t → HoldsItsCron t
unfolding create initialize_cluster_delay fire
Reachable-HoldsItsCron (created o) = refl
Reachable-HoldsItsCron (ticked r running idle) = Reachable-HoldsItsCron r
Reachable-HoldsItsCron (fired {t} before after x r parts) =
    run_job-left_behind x.job (record t { armed = remove x.id t.armed }) ∙ Reachable-HoldsItsCron r
Reachable-HoldsItsCron {frames} (started {t} c r stands) =
    start-HoldsItsCron frames c t stands (Reachable-HoldsItsCron r)
Reachable-HoldsItsCron (stopped {t} r) = stop-left_behind t ∙ Reachable-HoldsItsCron r

-- Whenever a scheduler with a cron task is stopped, between its start and the operations of a turn, the stop
-- returns, no cron task ticks any more, neither the one it holds nor one before, and no timeout is left that
-- would fire. It is so where a scheduler is started only when its cron task does not run, and where the cron
-- task has ticked only when nothing of its last turn was left to fire.
pub stop_leaves_nothing :
    {frames : ℕ} (t : Task)
    → Reachable frames t
    → t.cron_task ≢ none
    → ((stop t).1 ≡ returns tt)
      × ((stop t).0.cron_task ≡ some false)
      × ((stop t).0.left_behind ≡ 0)
      × ((stop t).0.armed ≡ [])
unfolding stop destroy_scheduler destroy_armed
stop_leaves_nothing t r has = elim (Option-cases t.cron_task) [
  | inl e ↦ absurd (has e)
  | inr (b, e) ↦
      rw (e, destroy_scheduler)
        (refl, refl, Reachable-HoldsItsCron r, phased-destroyed t (Reachable-IsPhased r))
]

pub destroy-unstarted :
    (t : Task) → t.cron_task ≡ none → destroy_scheduler t ≡ (t, throws type_error)
unfolding destroy_scheduler destroy_armed
destroy-unstarted t e =
    ap
      (λ o. elim o as (λ _. Attempt Task) [
        | none ↦ (t, throws type_error)
        | some _ ↦ (
          record t { cron_task = some false; operation_timeouts = []; armed = destroy_armed t },
          returns tt,
        )
      ])
      e
