-- ===== src/Cron/Data.antt =====
-- The data of the scheduler (src/cron.rs). The file is kept as the map that was saved last.
use openpaw.Prelude.{ℕ, Bool, Option, List, Text, String, string_keyed}

pub data JobType : Type 0 where
  shell agent : JobType

pub data SessionTarget : Type 0 where
  isolated main : SessionTarget

pub data DeliveryMode : Type 0 where
  never always on_error on_success : DeliveryMode

pub record DeliveryConfig : Type 0 where
  pub mode : DeliveryMode
  pub channel : Option String
  pub account_id : Option String
  pub to : Option String
  pub best_effort : Bool

pub record CronRun : Type 0 where
  pub id : ℕ  -- u64
  pub job_id : String
  pub started_at_s : ℕ
  pub finished_at_s : ℕ
  pub status : String
  pub output : Option String
  pub duration_ms : Option ℕ  -- the bits of an i64

pub record CronJob : Type 0 where
  pub id : String
  pub expression : Text
  pub command : String
  pub next_run_secs : ℕ
  pub last_run_secs : Option ℕ
  pub last_status : Option String
  pub paused : Bool
  pub one_shot : Bool
  pub job_type : JobType
  pub session_target : SessionTarget
  pub prompt : Option String
  pub name : Option String
  pub model : Option String
  pub enabled : Bool
  pub delete_after_run : Bool
  pub created_at_s : ℕ
  pub last_output : Option String
  pub delivery : DeliveryConfig
  pub history : List CronRun
  pub timezone : Text

pub record OutboundMessage : Type 0 where
  pub channel : String
  pub account_id : Option String
  pub chat_id : String
  pub content : String

pub record CronScheduler : Type 0 where
  pub jobs : List (String × CronJob)
  pub runs : List CronRun
  pub outbox : List OutboundMessage
  pub next_run_id : ℕ  -- u64
  pub running_jobs : List String
  pub saved : List (String × CronJob)
