-- ===== src/Cron/Overlap.antt =====
-- No two runs of a job at once (src/cron.rs, `run_job_with_snapshot`).
use openpaw.Prelude.{
  ℕ, ◌≡◌, ◌≢◌, Bool, true, false, not, Option, none, some, List, [], ◌∷◌, String, string_keyed,
  ◌=?◌, Text, arith, any, retain,
}
use openpaw.Dict
use openpaw.Cron.{Run, ok}
use openpaw.Cron.Expression.{Moment}
use openpaw.Cron.Data.{CronJob, CronScheduler}
use openpaw.Cron.Jobs.{
  Begin, started, run_begin, run_end, tick, add_job, remove_job, contains, save, begin_with, or_get,
}
use openpaw.Cron.Log.{End}

-- What happens to the scheduler between the beginning and the end of a run.
pub data Op : Type 0 where
  begins : String → Option CronJob → Op
  ends : End → Op
  ticks : ℕ → Op
  adds : CronJob → Op
  removes : String → Op

abbrev begun : Begin → CronScheduler → CronScheduler
begun (started job s') s = s'
begun _ s = s

-- A tick that hangs holds the lock for good; the scheduler stays as it is.
abbrev ticked : Run (CronScheduler × List (String × Option CronJob)) → CronScheduler → CronScheduler
ticked (ok (s', fires)) s = s'
ticked _ s = s

unfoldable pub apply : (Text → ℕ → Moment) → CronScheduler → Op → CronScheduler
apply calendar s (begins id snapshot) = begun (run_begin id snapshot s) s
apply calendar s (ends e) = run_end e.id e.job e.success e.output e.started_at e.finished_at s
apply calendar s (ticks now) = ticked (tick calendar now s) s
apply calendar s (adds job) = add_job job s
apply calendar s (removes id) = (remove_job id s).0

unfoldable pub apply_all : (Text → ℕ → Moment) → CronScheduler → List Op → CronScheduler
apply_all calendar s [] = s
apply_all calendar s (op ∷ ops) = apply_all calendar (apply calendar s op) ops

-- Whether a run of the job ends.
abbrev pub ends_run : String → Op → Bool
ends_run id (ends e) = e.id =? id
ends_run id _ = false

contains-retain :
    (id k : String) (xs : List String)
    → (k =? id) ≡ false
    → contains id xs ≡ true
    → contains id (retain (λ x. not (x =? k)) xs) ≡ true
contains-retain id k [] h i = i
contains-retain id k (x ∷ xs) h i = ground (
  arith,
  contains-retain id k xs h,
  string_keyed.beq_iff x k,
  string_keyed.beq_iff x id,
  string_keyed.beq_iff k id,
)

apply-running :
    (calendar : Text → ℕ → Moment) (s : CronScheduler) (op : Op) (id : String)
    → contains id s.running_jobs ≡ true
    → ends_run id op ≡ false
    → contains id (apply calendar s op).running_jobs ≡ true
unfolding apply
apply-running calendar s (begins k snapshot) id h i = unfold run_begin in ground arith
apply-running calendar s (ends e) id h i =
    unfold run_end in contains-retain id e.id s.running_jobs i h
apply-running calendar s (ticks now) id h i = unfold tick save in ground arith
apply-running calendar s (adds job) id h i = unfold add_job in h
apply-running calendar s (removes k) id h i = unfold remove_job in h

apply_all-running :
    (calendar : Text → ℕ → Moment) (ops : List Op) (s : CronScheduler) (id : String)
    → contains id s.running_jobs ≡ true
    → any (ends_run id) ops ≡ false
    → contains id (apply_all calendar s ops).running_jobs ≡ true
unfolding apply_all
apply_all-running calendar [] s id h i = h
apply_all-running calendar (op ∷ ops) s id h i =
    apply_all-running calendar ops (apply calendar s op) id
      (apply-running calendar s op id h (ground arith)) (ground arith)

run_begin-refused :
    (id : String) (snapshot : Option CronJob) (s : CronScheduler) (job : CronJob)
    (s' : CronScheduler)
    → contains id s.running_jobs ≡ true
    → run_begin id snapshot s ≢ started job s'
unfolding run_begin
run_begin-refused id snapshot s job s' h e = ground (arith, h, e)

begin_with-running :
    (o : Option CronJob) (id : String) (s : CronScheduler) (job : CronJob) (s' : CronScheduler)
    → begin_with o id s ≡ started job s'
    → contains id s'.running_jobs ≡ true
begin_with-running none id s job s' e = ground (arith, e)
begin_with-running (some j) id s job s' e = ground (arith, e, string_keyed.beq_iff id id)

run_begin-running :
    (id : String) (snapshot : Option CronJob) (s : CronScheduler) (job : CronJob)
    (s' : CronScheduler)
    → run_begin id snapshot s ≡ started job s'
    → contains id s'.running_jobs ≡ true
unfolding run_begin
run_begin-running id snapshot s job s' e =
    begin_with-running (or_get snapshot (Dict.get id s.jobs)) id s job s' e

-- After a run of a job has begun, no other run of it begins until one of the job's runs has ended,
-- whatever else begins, ends, ticks, is added or removed: every attempt is refused.
pub no_overlap :
    (calendar : Text → ℕ → Moment) (id : String) (first second : Option CronJob)
    (before begun : CronScheduler) (job : CronJob) (ops : List Op) (job' : CronJob)
    (after : CronScheduler)
    → run_begin id first before ≡ started job begun
    → any (ends_run id) ops ≡ false
    → run_begin id second (apply_all calendar begun ops) ≢ started job' after
no_overlap calendar id first second before begun job ops job' after e i again =
    run_begin-refused id second (apply_all calendar begun ops) job' after
      (apply_all-running calendar ops begun id (run_begin-running id first before job begun e) i)
      again
