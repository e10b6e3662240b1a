-- ===== src/Webhooks/Superfone.antt =====
-- backend/app/webhooks/superfone/service.py, and how backend/app/webhooks/superfone/router.py calls it. The
-- duration of a call, its metadata and the payload of a delivery are left out.
use realesatecrm.Base.{
  ℕ, String, Text, Bool, true, false, ◌&&◌, ◌||◌, Option, none, some, List, [], ◌∷◌, ◌==◌, str_eq,
  opt_eq, select, if◌then◌else◌,
}
use realesatecrm.Core.Errors.{ok, raised}
use realesatecrm.Db.Rows.{Db, CallRecord, WebhookEvent}
use realesatecrm.Db.Action.{Action, Stmt, Engine, ◌>>=◌, ◌>>◌, pure, gets, one_or_none, execute}
use realesatecrm.Db.Table.{update_where, coalesce}

-- A delivery is known by its provider, its type and the id that it is about.
pub record Key : Type 0 where
  pub provider : String
  pub event_type : String
  pub about : Option ℕ

abbrev pub is_event : Key → WebhookEvent → Bool
is_event k e =
    str_eq e.provider k.provider && str_eq e.event_type k.event_type && opt_eq e.about k.about

abbrev pub event_row : Key → WebhookEvent
event_row k = record {
  provider = k.provider;
  event_type = k.event_type;
  about = k.about;
  processing_status = "received";
}

-- `ON CONFLICT (provider, external_event_id) DO NOTHING`, and whether a row came back.
abbrev pub insert_first : List WebhookEvent → WebhookEvent → Db → Bool × Db
insert_first [] row db = (true, record db { webhook_events = row ∷ db.webhook_events })
insert_first (e ∷ es) row db = (false, db)

abbrev pub set_processed : Bool → WebhookEvent → WebhookEvent
set_processed error e = record e { processing_status = if error then "failed" else "processed" }

abbrev pub sfvopi_provider : String
sfvopi_provider = "superfone_sfvopi"

abbrev pub crm_provider : String
crm_provider = "superfone_crm"

abbrev pub is_tracked : String → ℕ → CallRecord → Bool
is_tracked provider id c = str_eq c.provider provider && c.provider_call_id == id

unfoldable pub find_by : Option ℕ → Action (Option CallRecord)
find_by none = pure none
find_by (some id) = do
  rows ← gets (λ db. select (is_tracked sfvopi_provider id) db.calls)
  one_or_none rows

abbrev pub or_find : Option CallRecord → Option ℕ → Action (Option CallRecord)
or_find none id = find_by id
or_find (some c) id = pure (some c)

abbrev pub is_crm_call : ℕ → ℕ → CallRecord → Bool
is_crm_call t id c = is_tracked crm_provider id c && c.tenant_id == t

-- `_get_calls_row_by_cdr_uuid`
unfoldable pub get_calls_row_by_cdr_uuid : ℕ → Option ℕ → Action (Option CallRecord)
get_calls_row_by_cdr_uuid t none = pure none
get_calls_row_by_cdr_uuid t (some id) = do
  rows ← gets (λ db. select (is_crm_call t id) db.calls)
  one_or_none rows

-- The ids in a payload, and the time of an answer where it can be read.
pub record CallPayload : Type 0 where
  pub call_uuid : Option ℕ
  pub request_uuid : Option ℕ
  pub answered_at : Option ℕ

pub record CrmPayload : Type 0 where
  pub cdr_uuid : Option ℕ
  pub summary_text : Option Text
  pub recording_url : Option Text

-- `call_uuid or request_uuid`
abbrev pub subject_of : CallPayload → Option ℕ
subject_of p = elim p.call_uuid [ some id ↦ some id | none ↦ p.request_uuid ]

abbrev pub keep_or : Option Text → Option Text → Option Text
keep_or none old = old
keep_or (some s) old = some s

-- `if not is_new: return`
abbrev pub if_new : Action (Unit {0}) → Bool → Action (Unit {0})
if_new process true = process
if_new process false = pure tt

abbrev pub call_key : String → CallPayload → Key
call_key event_type p = record {
  provider = sfvopi_provider;
  event_type = event_type;
  about = subject_of p;
}

-- `try: m; except Exception: handler`
unfoldable pub caught : Action (Unit {0}) → Action (Unit {0}) → Action (Unit {0})
caught m handler db = let (r, db') = m db in elim r [ ok u ↦ (ok u, db') | raised e ↦ handler db' ]

abbrev pub crm_key : String → CrmPayload → Key
crm_key event_type p = record {
  provider = crm_provider;
  event_type = event_type;
  about = p.cdr_uuid;
}

module _ (eng : Engine) where
  unfoldable pub record_event : Key → Action Bool
  record_event k =
      execute eng Stmt.insert_webhook_event
        (λ db. insert_first (select (is_event k) db.webhook_events) (event_row k) db)

  unfoldable pub mark_event_processed : Key → Bool → Action (Unit {0})
  mark_event_processed k error = execute eng Stmt.update_webhook_event (λ db. (
    tt,
    record db {
      webhook_events = update_where (is_event k) (set_processed error) db.webhook_events;
    },
  ))

  -- The UPDATEs of one call.
  unfoldable pub update_call : ℕ → (CallRecord → CallRecord) → Action (Unit {0})
  update_call id f =
      execute eng Stmt.update_tracked_call
        (λ db. (tt, record db { calls = update_where (λ (c : CallRecord). c.id == id) f db.calls }))

  abbrev pub normalize : Option ℕ → Option CallRecord → Action (Unit {0})
  normalize none row = pure tt
  normalize (some u) none = pure tt
  normalize (some u) (some c) =
      if c.provider_call_id == u
      then pure tt
      else update_call c.id (λ r. record r { provider_call_id = u })

  unfoldable pub find_and_normalize_sfvopi_call : Option ℕ → Option ℕ → Action (Option CallRecord)
  find_and_normalize_sfvopi_call call_uuid request_uuid = do
    by_call ← find_by call_uuid
    row ← or_find by_call request_uuid
    normalize call_uuid row
    pure row

  abbrev pub answered : CallPayload → Option CallRecord → Action (Unit {0})
  answered p none = pure tt
  answered p (some c) =
      update_call c.id
        (λ r. record r { status = "answered"; answered_at = some (coalesce p.answered_at eng.now) })

  abbrev pub ringing : Option CallRecord → Action (Unit {0})
  ringing none = pure tt
  ringing (some c) =
      if str_eq c.status "initiated"
      then update_call c.id (λ r. record r { status = "ringing" })
      else pure tt

  abbrev pub hung_up : Option CallRecord → Action (Unit {0})
  hung_up none = pure tt
  hung_up (some c) =
      update_call c.id
        (λ r. record r { status = "completed"; ended_at = some (coalesce r.ended_at eng.now) })

  abbrev pub once : Key → Action (Unit {0}) → Action (Unit {0})
  once k process = record_event k >>= if_new process

  -- What the three handlers of a call share.
  unfoldable pub handle_call :
      Key → CallPayload → (Option CallRecord → Action (Unit {0})) → Action (Unit {0})
  handle_call k p effect = once k (do
    row ← find_and_normalize_sfvopi_call p.call_uuid p.request_uuid
    effect row
    mark_event_processed k false)

  unfoldable pub handle_sfvopi_answer : CallPayload → Action (Unit {0})
  handle_sfvopi_answer p = handle_call (call_key "answer" p) p (answered p)

  unfoldable pub handle_sfvopi_ring : CallPayload → Action (Unit {0})
  handle_sfvopi_ring p = handle_call (call_key "ring" p) p ringing

  unfoldable pub handle_sfvopi_hangup : CallPayload → Action (Unit {0})
  handle_sfvopi_hangup p = handle_call (call_key "hangup" p) p hung_up

  abbrev pub if_known : Option CallRecord → (CallRecord → CallRecord) → Action (Unit {0})
  if_known none f = pure tt
  if_known (some c) f = update_call c.id f

  unfoldable pub upsert_crm_call : ℕ → String → CrmPayload → Action (Unit {0})
  upsert_crm_call t event_type p = do
    existing ← get_calls_row_by_cdr_uuid t p.cdr_uuid
    if_known existing (λ r. record r {
      status = if str_eq event_type "MISSED_CALL" then "no_answer" else "completed";
    })

  unfoldable pub apply_crm_recording : ℕ → CrmPayload → Action (Unit {0})
  apply_crm_recording t p = do
    existing ← get_calls_row_by_cdr_uuid t p.cdr_uuid
    if_known existing (λ r. record r { recording_url = p.recording_url })

  unfoldable pub apply_crm_summary : ℕ → CrmPayload → Action (Unit {0})
  apply_crm_summary t p = do
    existing ← get_calls_row_by_cdr_uuid t p.cdr_uuid
    if_known existing (λ r. record r { call_summary = keep_or p.summary_text r.call_summary })

  unfoldable pub apply_crm_event : ℕ → String → CrmPayload → Action (Unit {0})
  apply_crm_event t event_type p =
      if str_eq event_type "ALL_CALLS" || str_eq event_type "MISSED_CALL"
      then upsert_crm_call t event_type p
      else if str_eq event_type "CDR_RECORDING_AVAILABLE"
      then apply_crm_recording t p
      else if str_eq event_type "CDR_SUMMARY_READY"
      then apply_crm_summary t p
      else pure tt

  unfoldable pub handle_crm_event : ℕ → String → CrmPayload → Action (Unit {0})
  handle_crm_event t event_type p =
      let k = crm_key event_type p in
      once k (
        caught (apply_crm_event t event_type p >> mark_event_processed k false)
          (mark_event_processed k true))

pub data Delivery : Type 0 where
  answer ring hangup : CallPayload → Delivery
  crm : ℕ → String → CrmPayload → Delivery

unfoldable pub handle : Engine → Delivery → Action (Unit {0})
handle eng (answer p) = handle_sfvopi_answer eng p
handle eng (ring p) = handle_sfvopi_ring eng p
handle eng (hangup p) = handle_sfvopi_hangup eng p
handle eng (crm t event_type p) = handle_crm_event eng t event_type p

-- The endpoint: what it leaves, after the commit or the rollback of a delivery that raised.
unfoldable pub receive : Engine → Delivery → Db → Db
receive eng d db = let (r, db') = handle eng d db in elim r [ ok u ↦ db' | raised e ↦ db ]
