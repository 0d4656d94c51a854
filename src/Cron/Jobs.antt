-- ===== src/Cron/Jobs.antt =====
-- The jobs of the scheduler (src/cron.rs, `CronScheduler`).
-- What a job runs (a shell command or an agent) is outside: a run is a beginning, `run_begin`, and an
-- end, `run_end`, which is given what the run returned. The file is kept as the map that was saved last.
use openpaw.Prelude.{
  ℕ, ◌+◌, ◌-◌, ◌*◌, ◌%◌, ◌^◌, Bool, true, false, not, ◌&&◌, ◌||◌, Option, none, some, List, [], ◌∷◌,
  ◌++◌, Text, String, string_keyed, ◌=?◌, ◌==◌, leb, ltb, if◌then◌else◌, length, any, retain, drop,
}
use openpaw.Dict
use openpaw.Cron.{Run, ok, err, hang, bind}
use openpaw.Cron.Expression.{Moment, next_run_for_expression}
use openpaw.Cron.Data.{
  DeliveryMode, DeliveryConfig, CronRun, CronJob, OutboundMessage, CronScheduler,
}

-- A positive i64.
abbrev pub is_positive : ℕ → Bool
is_positive bits = ltb 0 bits && ltb bits (2 ^ 63)

abbrev pub contains : String → List String → Bool
contains x xs = any (λ y. y =? x) xs

-- `history` is not written to the file.
abbrev stored : CronJob → CronJob
stored job = record job { history = [] }

unfoldable pub save : CronScheduler → CronScheduler
save s = record s { saved = Dict.map_values stored s.jobs }

unfoldable pub add_job : CronJob → CronScheduler → CronScheduler
add_job job s = record s { jobs = Dict.insert job.id job s.jobs }

unfoldable pub remove_job : String → CronScheduler → CronScheduler × Option CronJob
remove_job id s = (record s { jobs = Dict.remove id s.jobs }, Dict.get id s.jobs)

-- What the loop of `tick` does to one job: the job after it, whether it fires, with the snapshot that
-- the run is given, and whether the job was changed.
pub record Visit : Type 0 where
  pub job : CronJob
  pub fires : Option (Option CronJob)
  pub modified : Bool

abbrev unchanged : CronJob → Visit
unchanged job = record { job = job; fires = none; modified = false }

abbrev pub is_ephemeral : CronJob → Bool
is_ephemeral job = job.delete_after_run || job.one_shot

-- The next run, or the job is paused.
abbrev pub scheduled : Run ℕ → CronJob → Run CronJob
scheduled (ok next) job = ok (record job { next_run_secs = next })
scheduled err job = ok (record job { paused = true })
scheduled hang job = hang

module _ (calendar : Text → ℕ → Moment) where
  abbrev pub reschedule : ℕ → CronJob → Run CronJob
  reschedule now job =
      scheduled (next_run_for_expression calendar job.expression now job.timezone) job

  -- A job without a next run gets one.
  unfoldable pub init_next : ℕ → CronJob → Run CronJob
  init_next now job = if job.next_run_secs == 0 then reschedule now job else ok job

  unfoldable pub fire_due : ℕ → Bool → CronJob → Run Visit
  fire_due now modified job =
      if is_positive job.next_run_secs && leb job.next_run_secs now
      then bind
          (reschedule now (record job { last_run_secs = some now; last_status = some "running" }))
          (λ next. ok (record {
            job = next;
            fires = some (if is_ephemeral job then some job else none);
            modified = true;
          }))
      else ok (record { job = job; fires = none; modified = modified })

  unfoldable pub visit : ℕ → CronJob → Run Visit
  unfolding init_next fire_due
  visit now job =
      if not job.enabled || job.paused
      then ok (unchanged job)
      else bind (init_next now job) (fire_due now (job.next_run_secs == 0))

  abbrev add_fire :
      String
      → Option (Option CronJob)
      → List (String × Option CronJob)
      → List (String × Option CronJob)
  add_fire id none fires = fires
  add_fire id (some snapshot) fires = (id, snapshot) ∷ fires

  -- A job that fires and is ephemeral leaves the map.
  abbrev pub is_deleted : Visit → Bool
  is_deleted v = elim v.fires [ none ↦ false | some snapshot ↦ is_ephemeral v.job ]

  abbrev keep :
      String
      → Visit
      → List (String × CronJob) × List (String × Option CronJob) × Bool
      → List (String × CronJob) × List (String × Option CronJob) × Bool
  keep id v (jobs, fires, modified) = (
    if is_deleted v then jobs else (id, v.job) ∷ jobs,
    add_fire id v.fires fires,
    v.modified || modified,
  )

  -- The loop: the jobs that stay, what fires, and whether something was modified.
  unfoldable pub visit_all :
      ℕ
      → List (String × CronJob)
      → Run (List (String × CronJob) × List (String × Option CronJob) × Bool)
  visit_all now [] = ok ([], [], false)
  visit_all now ((id, job) ∷ jobs) =
      bind (visit now job) (λ v. bind (visit_all now jobs) (λ rest. ok (keep id v rest)))

  -- The second part of the result is what is spawned: the jobs that fire, but for those that run.
  unfoldable pub tick : ℕ → CronScheduler → Run (CronScheduler × List (String × Option CronJob))
  unfolding save
  tick now s = bind (visit_all now s.jobs) (λ (jobs, fires, modified).
      let s' = record s { jobs = jobs } in
      ok (if modified then save s' else s', retain (λ f. not (contains f.0 s.running_jobs)) fires))

abbrev pub or_get : Option CronJob → Option CronJob → Option CronJob
or_get none found = found
or_get (some job) found = some job

-- How a run begins: it is refused, or the job that it runs is marked as running.
pub data Begin : Type 0 where
  not_found already_running : Begin
  started : CronJob → CronScheduler → Begin

abbrev pub begin_with : Option CronJob → String → CronScheduler → Begin
begin_with none id s = not_found
begin_with (some job) id s =
    if contains id s.running_jobs
    then already_running
    else started job (record s { running_jobs = id ∷ s.running_jobs })

unfoldable pub run_begin : String → Option CronJob → CronScheduler → Begin
run_begin id snapshot s = begin_with (or_get snapshot (Dict.get id s.jobs)) id s

abbrev pub status_of : Bool → String
status_of success = if success then "ok" else "error"

abbrev is_empty : String → Bool
is_empty output = output =? ""

abbrev pub sends : DeliveryMode → Bool → Bool
sends DeliveryMode.never success = false
sends DeliveryMode.always success = true
sends DeliveryMode.on_error success = not success
sends DeliveryMode.on_success success = success

abbrev or_default : Option String → String
or_default none = "default"
or_default (some to) = to

abbrev message : DeliveryConfig → String → Option String → List OutboundMessage
message delivery content none = []
message delivery content (some channel) =
    record {
      channel = channel;
      account_id = delivery.account_id;
      chat_id = or_default delivery.to;
      content = content;
    }
    ∷ []

unfoldable pub deliver_result : DeliveryConfig → String → Bool → List OutboundMessage
deliver_result delivery content success =
    if sends delivery.mode success && not (is_empty content)
    then message delivery content delivery.channel
    else []

-- The log of runs keeps 1000: it loses its oldest entry when it is longer.
abbrev pub prune_runs : List CronRun → List CronRun
prune_runs runs = if ltb 1000 (length runs) then drop 1 runs else runs

abbrev note_result : Bool → String → ℕ → CronJob → CronJob
note_result success output finished_at job = record job {
  last_status = some (status_of success);
  last_output = some output;
  last_run_secs = some finished_at;
}

unfoldable pub run_end : String → CronJob → Bool → String → ℕ → ℕ → CronScheduler → CronScheduler
unfolding deliver_result
run_end id job success output started_at finished_at s =
    let run : CronRun = record {
      id = s.next_run_id;
      job_id = id;
      started_at_s = started_at;
      finished_at_s = finished_at;
      status = status_of success;
      output = some output;
      duration_ms = some ((finished_at + (2 ^ 64 - started_at)) * 1000 % 2 ^ 64);
    } in
    record s {
      jobs = Dict.update id (note_result success output finished_at) s.jobs;
      next_run_id = (s.next_run_id + 1) % 2 ^ 64;
      runs = prune_runs (s.runs ++ run ∷ []);
      outbox = s.outbox ++ deliver_result job.delivery output success;
      running_jobs = retain (λ running. not (running =? id)) s.running_jobs;
    }
