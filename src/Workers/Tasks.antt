-- ===== src/Workers/Tasks.antt =====
-- How an aggregation task of CandlesDiscreteAggregator.js ends.
use wolfram_price_feed_infra.Base.{
  ℕ, ◌≡◌, refl, subst, sym, ap, ◌∙◌, ◌⊎◌, inl, inr, false, some, List, [], ◌∷◌, ◌++◌, map, filter,
  ◌==◌, ==_iff, Bool-cases, none≢some, some-injective, Completion, Exception, Completion-cases,
  returns, throws, Attempt, ◌and_then◌,
}
use mathlib.Core.List.{append_assoc, append-nil}
use wolfram_price_feed_infra.Workers.Aggregator.{
  completed, processing, error, Task, Exchange, PairResult, Params, ResultRow, JoinRow, Database,
  Calls, find_task, write_task, update_task, initiate_task_status, format_results, named_in,
  join_table_data, set_results_associations, save_task_results, save_results, set_completed,
  set_processing, run_task, run_started, or_error, execute,
}

-- Every exchange with every result, by exchange.
abbrev pub all_pairs : List ResultRow → List Exchange → List JoinRow
all_pairs rows [] = []
all_pairs rows (e ∷ es) =
    map (λ (r : ResultRow). record { discrete_aggregation_result_id = r.id; exchange_id = e.id })
      rows
    ++ all_pairs rows es

join_table_data-pairs :
    (rows : List ResultRow) (es : List Exchange) (acc : List JoinRow)
    → join_table_data rows es acc ≡ acc ++ all_pairs rows es
unfolding join_table_data
join_table_data-pairs rows [] acc = sym (append-nil acc)
join_table_data-pairs rows (e ∷ es) acc =
    join_table_data-pairs rows es _ ∙ append_assoc acc _ (all_pairs rows es)

find_task-id : (id : ℕ) (ts : List Task) (t : Task) → find_task id ts ≡ some t → t.id ≡ id
find_task-id id [] t h = absurd (none≢some h)
find_task-id id (u ∷ us) t h = elim (Bool-cases (u.id == id)) [
  | inl e ↦ ap (λ (v : Task). v.id) (sym (some-injective (rw e at h))) ∙ (==_iff u.id id).0 e
  | inr e ↦ find_task-id id us t (rw e at h)
]

find_task-written :
    (id : ℕ) (ts : List Task) (t u : Task)
    → find_task id ts ≡ some u
    → t.id ≡ id
    → find_task id (write_task t ts) ≡ some t
find_task-written id [] t u h own = absurd (none≢some h)
find_task-written id (v ∷ vs) t u h own = elim (Bool-cases (v.id == t.id)) [
  | inl e ↦ rw (e, (==_iff t.id id).1 own) refl
  | inr e ↦
      let apart : (v.id == id) ≡ false = ap (λ n. v.id == n) (sym own) ∙ e in
      rw (e, apart) (find_task-written id vs t u (rw apart at h) own)
]

-- The rows of a task's results, and the exchanges that its parameters name.
abbrev pub rows_of : Database → Task → Params → List PairResult → List ResultRow
rows_of db task params pairs = format_results db.next_result_id task.id params pairs

abbrev pub named_exchanges : Database → Params → List Exchange
named_exchanges db params = filter (named_in params.exchange_names) db.exchanges

-- The results and the associations are in the database, or the call has thrown and no association is.
abbrev IsSaved : Database → Task → Params → List PairResult → Attempt Database → Type 0
IsSaved db task params pairs a =
    (a.0.tasks ≡ db.tasks)
    × (((a.1 ≡ returns tt)
          × (a.0.results ≡ db.results ++ rows_of db task params pairs)
          × (a.0.joins
              ≡ db.joins ++ all_pairs (rows_of db task params pairs) (named_exchanges db params)))
        ⊎ ((e : Exception) × (a.1 ≡ throws e) × (a.0.joins ≡ db.joins)))

save_task_results-IsSaved :
    (calls : Calls) (task : Task) (params : Params) (pairs : List PairResult) (db : Database)
    → IsSaved db task params pairs (save_task_results calls task params pairs db)
unfolding save_task_results set_results_associations
save_task_results-IsSaved calls task params pairs db =
    elim (Completion-cases calls.create_results) [
      | inr (e, thrown) ↦ rw (thrown, save_task_results) (refl, inr (e, refl, refl))
      | inl (_, created) ↦ elim (Completion-cases calls.find_exchanges) [
        | inr (e, thrown) ↦
            rw (created, save_task_results, thrown, set_results_associations)
              (refl, inr (e, refl, refl))
        | inl (_, found) ↦ elim (Completion-cases calls.create_joins) [
          | inr (e, thrown) ↦
              rw (created, save_task_results, found, thrown, set_results_associations)
                (refl, inr (e, refl, refl))
          | inl (_, joined) ↦
              rw (created, save_task_results, found, joined, set_results_associations)
                (
                  refl,
                  inl (
                    refl,
                    refl,
                    ap (db.joins ++◌) (
                        join_table_data-pairs (rows_of db task params pairs)
                          (named_exchanges db params) []),
                  ),
                )
        ]
      ]
    ]

-- All results of the task and the associations of each with each named exchange are in the database.
abbrev pub HasResults : Params → Task → Database → List PairResult → Database → Type 0
HasResults params t db pairs ended =
    (ended.results ≡ db.results ++ rows_of db t params pairs)
    × (ended.joins ≡ db.joins ++ all_pairs (rows_of db t params pairs) (named_exchanges db params))

-- The use case has returned, and the task is completed with its results.
abbrev pub IsCompleted : Calls → Params → Task → Database → Attempt Database → Type 0
IsCompleted calls params t db a =
    (a.1 ≡ returns tt)
    × (find_task t.id a.0.tasks ≡ some (record t { status = completed }))
    × ((pairs : List PairResult) × (calls.use_case params ≡ returns pairs)
        × HasResults params t db pairs a.0)

-- No association was added, or the results are there and the update to `completed` threw.
abbrev pub IsCaught : Calls → Params → Task → Database → Exception → Database → Type 0
IsCaught calls params t db e ended =
    (ended.joins ≡ db.joins)
    ⊎ ((pairs : List PairResult) × (calls.use_case params ≡ returns pairs)
        × (calls.update_completed ≡ throws e)
        × HasResults params t db pairs ended)

-- The task has the status of an error, with what was thrown.
abbrev pub HasFailed : Calls → Params → Task → Database → Attempt Database → Type 0
HasFailed calls params t db a =
    (a.1 ≡ returns tt)
    × ((e : Exception) × (find_task t.id a.0.tasks
          ≡ some (record t { status = error; error = some e }))
        × IsCaught calls params t db e a.0)

-- An update outside the `try` threw: the first, and nothing has changed, or the last, and the task stays
-- `processing`.
abbrev pub IsRetried : Calls → Params → Task → Database → Attempt Database → Type 0
IsRetried calls params t db a =
    ((e : Exception) × (calls.update_processing ≡ throws e) × (a ≡ (db, throws e)))
    ⊎ ((e e' : Exception) × (calls.update_error ≡ throws e')
        × (a.1 ≡ throws e')
        × (find_task t.id a.0.tasks ≡ some (record t { status = processing }))
        × IsCaught calls params t db e a.0)

abbrev pub IsEnded : Calls → Params → Task → Database → Attempt Database → Type 0
IsEnded calls params t db a =
    IsCompleted calls params t db a
    ⊎ (HasFailed calls params t db a ⊎ IsRetried calls params t db a)

module _ (calls : Calls) (params : Params) (t : Task) (db : Database) where
  abbrev started : Task
  started = record t { status = processing }

  caught-IsEnded :
      (e : Exception) (saved : Database)
      → find_task t.id saved.tasks ≡ some started
      → IsCaught calls params t db e saved
      → IsEnded calls params t db (or_error calls started (saved, throws e))
  caught-IsEnded e saved there caught = elim (Completion-cases calls.update_error) [
    | inl (_, returned) ↦
        subst (λ o. IsEnded calls params t db (after o)) (sym returned)
          (inr (
            inl (
              refl,
              (
                e,
                find_task-written t.id saved.tasks (record t { status = error; error = some e })
                    started there refl,
                caught,
              ),
            )))
    | inr (e', thrown) ↦
        subst (λ o. IsEnded calls params t db (after o)) (sym thrown)
          (inr (inr (inr (e, e', thrown, refl, there, caught))))
  ]
    where
      after : Completion {0} Unit → Attempt Database
      after o = elim o [
        | throws e' ↦ (saved, throws e')
        | returns _ ↦
            (update_task (record started { status = error; error = some e }) saved, returns tt)
      ]

  completed-IsEnded :
      (pairs : List PairResult) (saved : Database)
      → calls.use_case params ≡ returns pairs
      → find_task t.id saved.tasks ≡ some started
      → HasResults params t db pairs saved
      → IsEnded calls params t db (or_error calls started (set_completed calls started saved))
  completed-IsEnded pairs saved used there results =
      elim (Completion-cases calls.update_completed) [
        | inl (_, returned) ↦
            subst (λ o. IsEnded calls params t db (after o)) (sym returned)
              (inl (
                refl,
                find_task-written t.id saved.tasks (record t { status = completed }) started there
                    refl,
                (pairs, used, results),
              ))
        | inr (e, thrown) ↦
            subst (λ o. IsEnded calls params t db (after o)) (sym thrown)
              (caught-IsEnded e saved there (inr (pairs, used, thrown, results)))
      ]
    where
      after : Completion {0} Unit → Attempt Database
      after o = or_error calls started (elim o [
        | throws e ↦ (saved, throws e)
        | returns _ ↦ (update_task (record started { status = completed }) saved, returns tt)
      ])

  saved-IsEnded :
      (pairs : List PairResult) (a : Attempt Database)
      → calls.use_case params ≡ returns pairs
      → find_task t.id db.tasks ≡ some t
      → IsSaved (update_task started db) started params pairs a
      → IsEnded calls params t db (or_error calls started (a and_then set_completed calls started))
  saved-IsEnded pairs (saved, _) used there (same, inl (done, results, joins)) = rw done (
      completed-IsEnded pairs saved used
        (ap (find_task t.id) same ∙ find_task-written t.id db.tasks started t there refl)
        (results, joins))
  saved-IsEnded pairs (saved, _) used there (same, inr (e, thrown, joins)) = rw thrown (
      caught-IsEnded e saved
        (ap (find_task t.id) same ∙ find_task-written t.id db.tasks started t there refl)
        (inl joins))

  run_task-IsEnded :
      find_task t.id db.tasks ≡ some t
      → IsEnded calls params t db
          (or_error calls started (run_task calls started params (update_task started db)))
  unfolding run_task
  run_task-IsEnded there = elim (Completion-cases (calls.use_case params)) [
    | inl (pairs, used) ↦
        subst (λ o. IsEnded calls params t db (after o)) (sym used)
          (saved-IsEnded pairs
            (save_task_results calls started params pairs (update_task started db)) used there
            (save_task_results-IsSaved calls started params pairs (update_task started db)))
    | inr (e, thrown) ↦
        subst (λ o. IsEnded calls params t db (after o)) (sym thrown)
          (caught-IsEnded e (update_task started db)
            (find_task-written t.id db.tasks started t there refl) (inl refl))
  ]
    where
      after : Completion (List PairResult) → Attempt Database
      after o = or_error calls started (
          save_results calls started params (update_task started db) o
          and_then set_completed calls started)

  processing-IsEnded :
      find_task t.id db.tasks ≡ some t
      → IsEnded calls params t db (run_started calls params (set_processing calls db (some t)))
  processing-IsEnded there = elim (Completion-cases calls.update_processing) [
    | inl (_, returned) ↦
        subst (λ o. IsEnded calls params t db (after o)) (sym returned) (run_task-IsEnded there)
    | inr (e, thrown) ↦
        subst (λ o. IsEnded calls params t db (after o)) (sym thrown)
          (inr (inr (inl (e, thrown, refl))))
  ]
    where
      after : Completion {0} Unit → Attempt Database
      after o = run_started calls params (elim o [
        | throws e ↦ (db, throws e)
        | returns _ ↦ (update_task started db, returns started)
      ])

-- A task that is there ends in one of three ways. It is completed, with a row for each pair of the use case's
-- result and an association of each row with each exchange that is named. Or it has the status of an error with
-- what was thrown, and no association was added, unless all of them were and the update to `completed` threw. Or
-- the message throws and is retried, because the update to `processing` threw and nothing has changed, or the
-- update to `error` threw and the task is still `processing`.
pub task_ends :
    (calls : Calls) (params : Params) (t : Task) (db : Database)
    → find_task t.id db.tasks ≡ some t
    → IsEnded calls params t db (execute calls t.id params db)
unfolding execute initiate_task_status
task_ends calls params t db there =
    subst (λ o. IsEnded calls params t db (run_started calls params (set_processing calls db o)))
      (sym there) (processing-IsEnded calls params t db there)
