-- ===== src/Agent/Tools.antt =====
-- backend/app/agent/tools/call_tools.py: the one path that places a call, and the queueing of one.
use realesatecrm.Base.{ℕ, String, Option, none, some, str_eq, if◌then◌else◌}
use realesatecrm.Db.Rows.{CallJob}
use realesatecrm.Db.Action.{Action, Engine, ◌>>=◌, ◌>>◌, pure}
use realesatecrm.Events.{publish_event}
use realesatecrm.Agent.Orchestrator.{CallJobCreate, create_call_job}
use realesatecrm.Agent.Gateway.{Telephony, Placement, not_placed, prepare_call, start_call}

abbrev pub or_cancelled : Option String → String
or_cancelled none = "CALL_JOB_CANCELLED"
or_cancelled (some code) = code

module _ (eng : Engine) where
  -- `schedule_call`: queues, and dials nothing.
  unfoldable pub schedule_call : ℕ → CallJobCreate → Action CallJob
  unfolding create_call_job publish_event
  schedule_call t d = do
    job ← create_call_job eng t d
    publish_event eng t "call_scheduled" (some d.customer_id) (some d.lead_id)
    pure job

  module _ (phone : Telephony) where
    -- `make_instant_call` of a job that is already queued.
    unfoldable pub dispatch_call : ℕ → ℕ → ℕ → ℕ → Action Placement
    unfolding publish_event prepare_call start_call
    dispatch_call t contact lead job_id = do
      publish_event eng t "call_requested" (some contact) (some lead)
      prepare_call eng t job_id
      start_call eng phone t job_id

    -- `make_instant_call` without a job: one is created first, and a blocked one is not dialled.
    unfoldable pub make_instant_call : ℕ → CallJobCreate → Action Placement
    unfolding create_call_job publish_event dispatch_call
    make_instant_call t d = do
      job ← create_call_job eng t (record d { scheduled_at = none })
      if str_eq job.status "cancelled"
          then publish_event eng t "call_failed" (some d.customer_id) (some d.lead_id)
            >> pure (not_placed (or_cancelled job.last_error_code) job)
          else dispatch_call t d.customer_id d.lead_id job.id
