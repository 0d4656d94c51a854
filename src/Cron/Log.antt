-- ===== src/Cron/Log.antt =====
-- The log of runs (src/cron.rs, `run_job_with_snapshot`).
use openpaw.Prelude.{
  ℕ, zero, suc, ◌+◌, ◌-◌, ◌*◌, ◌%◌, ◌^◌, ◌≤◌, ◌<◌, ◌≡◌, refl, sym, ◌∙◌, ap, Bool, some, List, [],
  ◌∷◌, ◌++◌, String, string_keyed, arith, length, length-append, drop, min, dec_lt,
}
use openpaw.Cron.Data.{CronRun, CronJob, CronScheduler}
use openpaw.Cron.Jobs.{run_end, prune_runs, status_of}

abbrev pub run_ids : List CronRun → List ℕ
run_ids [] = []
run_ids (r ∷ rs) = r.id ∷ run_ids rs

-- The numbers from `i` on, `n` of them.
abbrev pub upto : ℕ → ℕ → List ℕ
upto i zero = []
upto i (suc n) = i ∷ upto (suc i) n

-- The end of a run: the arguments of `run_end`.
pub record End : Type 0 where
  pub id : String
  pub job : CronJob
  pub success : Bool
  pub output : String
  pub started_at : ℕ
  pub finished_at : ℕ

unfoldable pub end_all : List End → CronScheduler → CronScheduler
end_all [] s = s
end_all (e ∷ es) s = end_all es (run_end e.id e.job e.success e.output e.started_at e.finished_at s)

run_ids-append :
    (rs : List CronRun) (r : CronRun) → run_ids (rs ++ r ∷ []) ≡ run_ids rs ++ r.id ∷ []
run_ids-append [] r = refl
run_ids-append (q ∷ rs) r = ap (λ l. q.id ∷ l) (run_ids-append rs r)

upto-append : (i n : ℕ) → upto i n ++ (i + n) ∷ [] ≡ upto i (suc n)
upto-append i zero = ap (λ k. k ∷ []) (omega arith)
upto-append i (suc n) =
    let far : i + suc n ≡ suc i + n = omega arith in
    rw far (ap (λ l. i ∷ l) (upto-append (suc i) n))

length-run_ids : (rs : List CronRun) → length (run_ids rs) ≡ length rs
length-run_ids [] = refl
length-run_ids (r ∷ rs) = omega (arith, length-run_ids rs)

length-upto : (i n : ℕ) → length (upto i n) ≡ n
length-upto i zero = refl
length-upto i (suc n) = omega (arith, length-upto (suc i) n)

drop_one : (rs : List CronRun) → run_ids (drop 1 rs) ≡ drop 1 (run_ids rs)
drop_one [] = refl
drop_one (r ∷ rs) = refl

-- The log holds the runs numbered below `next_run_id`, the last `n` of them.
abbrev IsLog : ℕ → CronScheduler → Type 0
IsLog n s = (run_ids s.runs ≡ upto (s.next_run_id - n) n) × (n ≤ s.next_run_id)

pruned :
    (rs : List CronRun) (next n : ℕ)
    → length rs ≡ suc n
    → n ≤ 1000
    → n ≤ next
    → run_ids rs ≡ upto (next - n) (suc n)
    → next + 1 < 2 ^ 64
    → run_ids (prune_runs rs) ≡ upto ((next + 1) % 2 ^ 64 - min (suc n) 1000) (min (suc n) 1000)
pruned rs next n size small low ids room = elim (dec_lt n 1000) [
  | yes h ↦
      let k : min (suc n) 1000 ≡ suc n = omega arith in
      let first : (next + 1) % 2 ^ 64 - suc n ≡ next - n = omega arith in
      let whole : prune_runs rs ≡ rs = ground arith in rw (k, first, whole) ids
  | no h ↦
      let k : min (suc n) 1000 ≡ n = omega arith in
      let first : (next + 1) % 2 ^ 64 - n ≡ suc (next - n) = omega arith in
      let short : prune_runs rs ≡ drop 1 rs = ground arith in
      rw (k, first, short) (drop_one rs ∙ ap (drop 1) ids)
]

run_end-IsLog :
    (e : End) (n : ℕ) (s : CronScheduler)
    → s.next_run_id + 1 < 2 ^ 64
    → n ≤ 1000
    → IsLog n s
    → let t = run_end e.id e.job e.success e.output e.started_at e.finished_at s in
      IsLog (min (suc n) 1000) t × (t.next_run_id ≡ suc s.next_run_id)
unfolding run_end
run_end-IsLog e n s room small log =
    let run : CronRun = record {
      id = s.next_run_id;
      job_id = e.id;
      started_at_s = e.started_at;
      finished_at_s = e.finished_at;
      status = status_of e.success;
      output = some e.output;
      duration_ms = some ((e.finished_at + (2 ^ 64 - e.started_at)) * 1000 % 2 ^ 64);
    } in
    let size : length s.runs ≡ n =
      omega (
        arith,
        length-run_ids s.runs,
        ap {B = ℕ} length log.0,
        length-upto (s.next_run_id - n) n,
      ) in
    let top : s.next_run_id - n + n ≡ s.next_run_id = omega (arith, log.1) in
    let longer : run_ids (s.runs ++ run ∷ []) ≡ upto (s.next_run_id - n) (suc n) =
      run_ids-append s.runs run
      ∙ ap (λ l. l ++ s.next_run_id ∷ []) log.0
      ∙ (rw top at (upto-append (s.next_run_id - n) n)) in
    (
      (
        pruned (s.runs ++ run ∷ []) s.next_run_id n
            (omega (arith, size, length-append s.runs (run ∷ []))) small log.1 longer room,
        omega (arith, log.1, room),
      ),
      omega (arith, room),
    )

-- After runs have ended, the log holds the last of them, at most 1000, in order: they are numbered one
-- after the other, up to the number given out last.
pub end_all-log :
    (es : List End) (n : ℕ) (s : CronScheduler)
    → s.next_run_id + length es + 1 < 2 ^ 64
    → n ≤ 1000
    → n ≤ s.next_run_id
    → run_ids s.runs ≡ upto (s.next_run_id - n) n
    → let k = min (n + length es) 1000 in
      run_ids (end_all es s).runs ≡ upto (s.next_run_id + length es - k) k
unfolding end_all
end_all-log [] n s room small low log =
    let k : min (n + 0) 1000 ≡ n = omega arith in
    let first : s.next_run_id + 0 - n ≡ s.next_run_id - n = omega arith in rw (k, first) log
end_all-log (e ∷ es) n s room small low log =
    let t = run_end e.id e.job e.success e.output e.started_at e.finished_at s in
    let ((now, fits), next) = run_end-IsLog e n s (omega (arith, room)) small (log, low) in
    let rest =
      end_all-log es (min (suc n) 1000) t (omega (arith, next, room)) (omega arith) fits now in
    let k : min (min (suc n) 1000 + length es) 1000 ≡ min (n + suc (length es)) 1000 =
      omega arith in
    let last : t.next_run_id + length es ≡ s.next_run_id + suc (length es) = omega (arith, next) in
    rw (sym k, sym last) rest
