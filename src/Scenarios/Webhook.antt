-- ===== src/Scenarios/Webhook.antt =====
-- A call that is answered, reported twice.
use realesatecrm.Base.{◌≡◌, refl, ◌⊎◌, none, some, [], ◌∷◌, List, codes}
use realesatecrm.Core.Errors.{Raised, raised}
use realesatecrm.Db.Rows.{Db, CallRecord}
use realesatecrm.Db.Action.{Engine}
use realesatecrm.Webhooks.Superfone.{
  CallPayload, Delivery, answer, receive, handle, handle_sfvopi_answer, handle_call, record_event,
  find_and_normalize_sfvopi_call, find_by, update_call, mark_event_processed,
}
use realesatecrm.Webhooks.Kept.{key_of}
use realesatecrm.Webhooks.Once.{receive_each, receive-takes_effect_once}
use realesatecrm.Scenarios.Town.{calm, town}

abbrev call : CallRecord
call = record {
  id = 70;
  tenant_id = 1;
  lead_id = 40;
  customer_id = 3;
  provider = "superfone_sfvopi";
  provider_call_id = 555;
  phone_from = codes "+911140000000";
  phone_to = codes "+919876543210";
  status = "initiated";
  answered_at = none;
  ended_at = none;
  recording_url = none;
  call_summary = none;
}

abbrev line_open : Db
line_open = record town { calls = call ∷ [] }

abbrev picked_up : CallPayload
picked_up = record { call_uuid = some 777; request_uuid = some 555; answered_at = some 1990 }

abbrev after_answer : Db
after_answer = record town {
  calls = record call { status = "answered"; provider_call_id = 777; answered_at = some 1990 } ∷ [];
  webhook_events =
      record {
        provider = "superfone_sfvopi";
        event_type = "answer";
        about = some 777;
        processing_status = "processed";
      }
      ∷ [];
}

answer_received : receive calm (answer picked_up) line_open ≡ after_answer
unfolding receive handle handle_sfvopi_answer handle_call record_event
    find_and_normalize_sfvopi_call find_by update_call mark_event_processed
answer_received = refl

receive-takes_effect_once_example :
    ((e : Raised) × ((handle calm (answer picked_up) line_open).0 ≡ raised e)
      × (receive calm (answer picked_up) line_open ≡ line_open))
    ⊎ ((ds : List (Engine × Delivery)) (again : Engine) (d' : Delivery)
        → key_of d' ≡ key_of (answer picked_up)
        → receive again d' (receive_each ds (receive calm (answer picked_up) line_open))
          ≡ receive_each ds (receive calm (answer picked_up) line_open))
receive-takes_effect_once_example = receive-takes_effect_once calm (answer picked_up) line_open
