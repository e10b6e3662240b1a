-- ===== src/Webhooks/Kept.antt =====
-- What processing a delivery keeps, step by step: backend/app/webhooks/superfone/service.py.
use realesatecrm.Base.{
  ℕ, ◌≡◌, refl, inl, inr, String, Bool, true, false, ◌==◌, if◌then◌else◌, ◌||◌, Option, none, some,
  List, [], ◌∷◌, select, length, ltb, arith, Bool-cases, str_eq, str_eq_iff, opt_eq,
}
use realesatecrm.Core.Errors.{Result, ok, raised}
use realesatecrm.Db.Rows.{Db, CallRecord, WebhookEvent}
use realesatecrm.Db.Action.{Action, Stmt, Engine, ◌>>=◌, ◌>>◌, pure}
use realesatecrm.Db.Table.{update_where}
use realesatecrm.Db.Reads.{Reads, pure-Reads}
use realesatecrm.Contacts.Unique.{
  Preserves, >>=-Preserves, execute-Preserves, pure-Preserves, Reads-Preserves,
}
use realesatecrm.Webhooks.Superfone.{
  Key, is_event, event_row, set_processed, find_by, or_find, get_calls_row_by_cdr_uuid, CallPayload,
  CrmPayload, record_event, mark_event_processed, update_call, normalize,
  find_and_normalize_sfvopi_call, answered, ringing, hung_up, if_new, once, handle_call,
  handle_sfvopi_answer, handle_sfvopi_ring, handle_sfvopi_hangup, if_known, upsert_crm_call,
  apply_crm_recording, apply_crm_summary, apply_crm_event, caught, handle_crm_event, call_key,
  crm_key, Delivery, answer, ring, hangup, crm, handle,
}

-- The key of a delivery.
abbrev pub key_of : Delivery → Key
key_of (answer p) = call_key "answer" p
key_of (ring p) = call_key "ring" p
key_of (hangup p) = call_key "hangup" p
key_of (crm t event_type p) = crm_key event_type p

-- A delivery with this key has been recorded.
abbrev pub Recorded : Key → Db → Type 0
Recorded k db = ltb 0 (length (select (is_event k) db.webhook_events)) ≡ true

opt_eq_refl : (o : Option ℕ) → opt_eq o o ≡ true
opt_eq_refl none = refl
opt_eq_refl (some a) = ground arith

pub own_event : (k : Key) → is_event k (event_row k) ≡ true
own_event k = ground (
  arith,
  (str_eq_iff k.provider k.provider).1 refl,
  (str_eq_iff k.event_type k.event_type).1 refl,
  opt_eq_refl k.about,
)

find_by-Reads : (id : Option ℕ) → Reads (find_by id)
unfolding Reads find_by
find_by-Reads none db = refl
find_by-Reads (some id) db = ground arith

or_find-Reads : (hit : Option CallRecord) (id : Option ℕ) → Reads (or_find hit id)
or_find-Reads none id = find_by-Reads id
or_find-Reads (some c) id = pure-Reads (some c)

get_calls_row_by_cdr_uuid-Reads : (t : ℕ) (id : Option ℕ) → Reads (get_calls_row_by_cdr_uuid t id)
unfolding Reads get_calls_row_by_cdr_uuid
get_calls_row_by_cdr_uuid-Reads t none db = refl
get_calls_row_by_cdr_uuid-Reads t (some id) db = ground arith

module _ (k : Key) where
  marked_rows :
      (j : Key) (error : Bool) (es : List WebhookEvent)
      → length (select (is_event k) (update_where (is_event j) (set_processed error) es))
        ≡ length (select (is_event k) es)
  marked_rows j error [] = refl
  marked_rows j error (e ∷ es) = ground (arith, marked_rows j error es)

  module _ (eng : Engine) where
    mark-Keeps :
        (j : Key) (error : Bool) → Preserves (Recorded k) (mark_event_processed eng j error)
    unfolding mark_event_processed
    mark-Keeps j error =
        execute-Preserves (Recorded k) eng Stmt.update_webhook_event _
          λ db h. ground (arith, marked_rows j error db.webhook_events)

    update_call-Keeps :
        (id : ℕ) (f : CallRecord → CallRecord) → Preserves (Recorded k) (update_call eng id f)
    unfolding update_call
    update_call-Keeps id f = execute-Preserves (Recorded k) eng Stmt.update_tracked_call _ λ db h. h

    record-Keeps : (j : Key) → Preserves (Recorded k) (record_event eng j)
    unfolding record_event
    record-Keeps j =
        execute-Preserves (Recorded k) eng Stmt.insert_webhook_event _ λ db h. ground arith

    normalize-Keeps :
        (u : Option ℕ) (row : Option CallRecord) → Preserves (Recorded k) (normalize eng u row)
    normalize-Keeps none row = pure-Preserves (Recorded k) tt
    normalize-Keeps (some u) none = pure-Preserves (Recorded k) tt
    normalize-Keeps (some u) (some c) = elim (Bool-cases (c.provider_call_id == u)) [
      | inl e ↦ rw e (pure-Preserves (Recorded k) tt)
      | inr e ↦ rw e (update_call-Keeps c.id (λ r. record r { provider_call_id = u }))
    ]

    answered-Keeps :
        (p : CallPayload) (row : Option CallRecord) → Preserves (Recorded k) (answered eng p row)
    answered-Keeps p none = pure-Preserves (Recorded k) tt
    answered-Keeps p (some c) = update_call-Keeps c.id _

    ringing-Keeps : (row : Option CallRecord) → Preserves (Recorded k) (ringing eng row)
    ringing-Keeps none = pure-Preserves (Recorded k) tt
    ringing-Keeps (some c) = elim (Bool-cases (str_eq c.status "initiated")) [
      | inl e ↦ rw e (update_call-Keeps c.id (λ r. record r { status = "ringing" }))
      | inr e ↦ rw e (pure-Preserves (Recorded k) tt)
    ]

    hung_up-Keeps : (row : Option CallRecord) → Preserves (Recorded k) (hung_up eng row)
    hung_up-Keeps none = pure-Preserves (Recorded k) tt
    hung_up-Keeps (some c) = update_call-Keeps c.id _

    if_known-Keeps :
        (row : Option CallRecord) (f : CallRecord → CallRecord)
        → Preserves (Recorded k) (if_known eng row f)
    if_known-Keeps none f = pure-Preserves (Recorded k) tt
    if_known-Keeps (some c) f = update_call-Keeps c.id f

    crm_row-Keeps :
        (t : ℕ) (id : Option ℕ) (f : CallRecord → CallRecord)
        → Preserves (Recorded k) (get_calls_row_by_cdr_uuid t id >>= λ row. if_known eng row f)
    crm_row-Keeps t id f =
        >>=-Preserves (Recorded k) (get_calls_row_by_cdr_uuid t id) _
          (Reads-Preserves (Recorded k) _ (get_calls_row_by_cdr_uuid-Reads t id))
          λ row. if_known-Keeps row f

    upsert_crm_call-Keeps :
        (t : ℕ) (event_type : String) (p : CrmPayload)
        → Preserves (Recorded k) (upsert_crm_call eng t event_type p)
    unfolding upsert_crm_call
    upsert_crm_call-Keeps t event_type p = crm_row-Keeps t p.cdr_uuid _

    apply_crm_recording-Keeps :
        (t : ℕ) (p : CrmPayload) → Preserves (Recorded k) (apply_crm_recording eng t p)
    unfolding apply_crm_recording
    apply_crm_recording-Keeps t p = crm_row-Keeps t p.cdr_uuid _

    apply_crm_summary-Keeps :
        (t : ℕ) (p : CrmPayload) → Preserves (Recorded k) (apply_crm_summary eng t p)
    unfolding apply_crm_summary
    apply_crm_summary-Keeps t p = crm_row-Keeps t p.cdr_uuid _

    if-Keeps :
        (b : Bool) (m n : Action (Unit {0}))
        → Preserves (Recorded k) m
        → Preserves (Recorded k) n
        → Preserves (Recorded k) (if b then m else n)
    if-Keeps true m n h g = h
    if-Keeps false m n h g = g

    apply_crm_event-Keeps :
        (t : ℕ) (event_type : String) (p : CrmPayload)
        → Preserves (Recorded k) (apply_crm_event eng t event_type p)
    unfolding apply_crm_event
    apply_crm_event-Keeps t event_type p =
        let summary =
          if str_eq event_type "CDR_SUMMARY_READY" then apply_crm_summary eng t p else pure tt in
        if-Keeps (str_eq event_type "ALL_CALLS" || str_eq event_type "MISSED_CALL")
          (upsert_crm_call eng t event_type p)
          (if str_eq event_type "CDR_RECORDING_AVAILABLE"
            then apply_crm_recording eng t p
            else summary)
          (upsert_crm_call-Keeps t event_type p)
          (if-Keeps (str_eq event_type "CDR_RECORDING_AVAILABLE") (apply_crm_recording eng t p)
            summary (apply_crm_recording-Keeps t p)
            (if-Keeps (str_eq event_type "CDR_SUMMARY_READY") (apply_crm_summary eng t p) (pure tt)
              (apply_crm_summary-Keeps t p) (pure-Preserves (Recorded k) tt)))

    caught-Keeps :
        (m handler : Action (Unit {0}))
        → Preserves (Recorded k) m
        → Preserves (Recorded k) handler
        → Preserves (Recorded k) (caught m handler)
    unfolding caught Preserves
    caught-Keeps m handler h g db q = go (m db) (h db q)
      where
        go :
            (r : Result (Unit {0}) × Db)
            → Recorded k r.1
            → Recorded k
                (let (x, db') = r in
                  elim x as (λ _. Result (Unit {0}) × Db) [
                    | ok u ↦ (ok u, db')
                    | raised e ↦ handler db'
                  ]).1
        go (ok u, db') kept = kept
        go (raised e, db') kept = g db' kept

    then_mark :
        {A : Type 0} (m : Action A) (j : Key)
        → Preserves (Recorded k) m
        → Preserves (Recorded k) (m >> mark_event_processed eng j false)
    then_mark m j h = >>=-Preserves (Recorded k) m _ h λ _. mark-Keeps j false

    find_call-Keeps :
        (u r : Option ℕ) → Preserves (Recorded k) (find_and_normalize_sfvopi_call eng u r)
    unfolding find_and_normalize_sfvopi_call
    find_call-Keeps u r =
        >>=-Preserves (Recorded k) (find_by u) _ (Reads-Preserves (Recorded k) _ (find_by-Reads u))
          λ hit.
            >>=-Preserves (Recorded k) (or_find hit r) _
              (Reads-Preserves (Recorded k) _ (or_find-Reads hit r))
              λ row.
                >>=-Preserves (Recorded k) (normalize eng u row) _ (normalize-Keeps u row)
                  λ _. pure-Preserves (Recorded k) row

    if_new-Keeps :
        (process : Action (Unit {0})) (b : Bool)
        → Preserves (Recorded k) process
        → Preserves (Recorded k) (if_new process b)
    if_new-Keeps process true h = h
    if_new-Keeps process false h = pure-Preserves (Recorded k) tt

    pub once-Keeps :
        (j : Key) (process : Action (Unit {0}))
        → Preserves (Recorded k) process
        → Preserves (Recorded k) (once eng j process)
    once-Keeps j process h =
        >>=-Preserves (Recorded k) (record_event eng j) _ (record-Keeps j)
          λ b. if_new-Keeps process b h

-- What a new report on a call does.
call_effect :
    Engine → Key → CallPayload → (Option CallRecord → Action (Unit {0})) → Action (Unit {0})
call_effect eng j p effect = do
  row ← find_and_normalize_sfvopi_call eng p.call_uuid p.request_uuid
  effect row
  mark_event_processed eng j false

call_effect-Keeps :
    (k : Key) (eng : Engine) (j : Key) (p : CallPayload)
    (effect : Option CallRecord → Action (Unit {0}))
    → ((row : Option CallRecord) → Preserves (Recorded k) (effect row))
    → Preserves (Recorded k) (call_effect eng j p effect)
unfolding call_effect
call_effect-Keeps k eng j p effect h =
    >>=-Preserves (Recorded k) (find_and_normalize_sfvopi_call eng p.call_uuid p.request_uuid) _
      (find_call-Keeps k eng p.call_uuid p.request_uuid)
      λ row. then_mark k eng (effect row) j (h row)

-- What a delivery does when it is new.
pub process : Engine → Delivery → Action (Unit {0})
process eng d = elim d [
  | answer p ↦ call_effect eng (call_key "answer" p) p (answered eng p)
  | ring p ↦ call_effect eng (call_key "ring" p) p (ringing eng)
  | hangup p ↦ call_effect eng (call_key "hangup" p) p (hung_up eng)
  | crm t event_type p ↦
      caught
        (apply_crm_event eng t event_type p
          >> mark_event_processed eng (crm_key event_type p) false)
        (mark_event_processed eng (crm_key event_type p) true)
]

pub handle-once : (eng : Engine) (d : Delivery) → handle eng d ≡ once eng (key_of d) (process eng d)
unfolding handle handle_sfvopi_answer handle_sfvopi_ring handle_sfvopi_hangup handle_crm_event
    handle_call process call_effect
handle-once eng (answer p) = refl
handle-once eng (ring p) = refl
handle-once eng (hangup p) = refl
handle-once eng (crm t event_type p) = refl

pub process-Keeps : (k : Key) (eng : Engine) (d : Delivery) → Preserves (Recorded k) (process eng d)
unfolding process
process-Keeps k eng (answer p) =
    call_effect-Keeps k eng (call_key "answer" p) p (answered eng p) (answered-Keeps k eng p)
process-Keeps k eng (ring p) =
    call_effect-Keeps k eng (call_key "ring" p) p (ringing eng) (ringing-Keeps k eng)
process-Keeps k eng (hangup p) =
    call_effect-Keeps k eng (call_key "hangup" p) p (hung_up eng) (hung_up-Keeps k eng)
process-Keeps k eng (crm t event_type p) =
    let j = crm_key event_type p in
    let applied = apply_crm_event eng t event_type p in
    caught-Keeps k eng (applied >> mark_event_processed eng j false)
      (mark_event_processed eng j true)
      (then_mark k eng applied j (apply_crm_event-Keeps k eng t event_type p))
      (mark-Keeps k eng j true)
