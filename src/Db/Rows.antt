-- ===== src/Db/Rows.antt =====
-- The rows that the repositories read and write, with the columns that the services use, and the
-- state of the database. UUIDs are only compared and dates only stored and ordered, so both are
-- numbers; enum columns arrive in Python as `str`. Columns that only display joined values are
-- left out.
use realesatecrm.Base.{ℕ, String, Text, Option, List, Bool}

-- public.customers
pub record Customer : Type 0 where
  pub id : ℕ
  pub tenant_id : ℕ
  pub full_name : Text
  pub phone : Text
  pub email : Option Text
  pub external_id : Option Text
  pub lead_source_id : Option ℕ
  pub preferred_language : Text
  pub whatsapp_opted_in : Bool
  pub do_not_call : Bool
  pub created_at : ℕ
  pub deleted_at : Option ℕ

-- public.properties
pub record Property : Type 0 where
  pub id : ℕ
  pub tenant_id : ℕ
  pub project_id : ℕ
  pub status : String
  pub updated_at : ℕ
  pub deleted_at : Option ℕ

-- public.leads
pub record Lead : Type 0 where
  pub id : ℕ
  pub tenant_id : ℕ
  pub customer_id : ℕ
  pub status : String
  pub lead_score : ℕ
  pub converted_at : Option ℕ
  pub created_at : ℕ
  pub updated_at : ℕ
  pub deleted_at : Option ℕ

-- public.property_bookings
pub record Booking : Type 0 where
  pub id : ℕ
  pub tenant_id : ℕ
  pub property_id : ℕ
  pub customer_id : ℕ
  pub lead_id : Option ℕ
  pub booking_date : ℕ
  pub booking_amount : ℕ
  pub booking_status : String
  pub notes : Option Text
  pub created_by : Option ℕ
  pub updated_at : ℕ

-- public.property_sales
pub record Sale : Type 0 where
  pub id : ℕ
  pub tenant_id : ℕ
  pub booking_id : Option ℕ
  pub property_id : ℕ
  pub customer_id : ℕ
  pub sale_date : ℕ
  pub sale_amount : ℕ
  pub discount_amount : ℕ
  pub tax_amount : ℕ
  pub sale_status : String
  pub created_by : Option ℕ
  pub updated_at : ℕ

-- public.property_sale_payments
pub record Payment : Type 0 where
  pub id : ℕ
  pub tenant_id : ℕ
  pub sale_id : ℕ
  pub payment_date : ℕ
  pub amount : ℕ
  pub payment_mode : String
  pub payment_status : String
  pub reference_number : Option Text
  pub notes : Option Text
  pub created_by : Option ℕ
  pub updated_at : ℕ

-- public.property_ownerships
pub record Ownership : Type 0 where
  pub id : ℕ
  pub tenant_id : ℕ
  pub property_id : ℕ
  pub customer_id : ℕ
  pub sale_id : Option ℕ
  pub purchase_purpose : Option String
  pub previous_ownership_id : Option ℕ
  pub ownership_start_date : ℕ
  pub ownership_end_date : Option ℕ
  pub ownership_status : String
  pub created_by : Option ℕ
  pub verified_by : Option ℕ
  pub updated_at : ℕ

-- public.property_ownership_co_owners; a share is in hundredths of a percent.
pub record CoOwner : Type 0 where
  pub id : ℕ
  pub tenant_id : ℕ
  pub ownership_id : ℕ
  pub customer_id : ℕ
  pub role : Option Text
  pub share_percentage : Option ℕ

-- public.property_resale_listings
pub record Listing : Type 0 where
  pub id : ℕ
  pub tenant_id : ℕ
  pub ownership_id : ℕ
  pub asking_price : Option ℕ
  pub listing_status : String
  pub notes : Option Text
  pub created_by : Option ℕ
  pub updated_at : ℕ

-- public.lead_contact_preferences
pub record ContactPreference : Type 0 where
  pub customer_id : ℕ
  pub do_not_call : Bool

-- public.call_jobs
pub record CallJob : Type 0 where
  pub id : ℕ
  pub tenant_id : ℕ
  pub lead_id : ℕ
  pub customer_id : ℕ
  pub job_type : String
  pub priority : ℕ
  pub status : String
  pub scheduled_at : ℕ
  pub attempt_count : ℕ
  pub max_attempts : ℕ
  pub next_attempt_at : Option ℕ
  pub call_id : Option ℕ
  pub last_error_code : Option String
  pub updated_at : ℕ

-- public.call_attempts
pub record CallAttempt : Type 0 where
  pub id : ℕ
  pub tenant_id : ℕ
  pub lead_id : ℕ
  pub customer_id : ℕ
  pub call_job_id : ℕ
  pub attempt_number : ℕ
  pub status : String
  pub outcome : Option String
  pub duration_seconds : Option ℕ
  pub provider_call_id : Option ℕ
  pub failure_code : Option String

-- public.calls
pub record CallRecord : Type 0 where
  pub id : ℕ
  pub tenant_id : ℕ
  pub lead_id : ℕ
  pub customer_id : ℕ
  pub provider : String
  pub provider_call_id : ℕ
  pub phone_from : Text
  pub phone_to : Text
  pub status : String
  pub answered_at : Option ℕ
  pub ended_at : Option ℕ
  pub recording_url : Option Text
  pub call_summary : Option Text

-- public.agent_call_contexts
pub record CallContext : Type 0 where
  pub id : ℕ
  pub tenant_id : ℕ
  pub call_job_id : ℕ
  pub lead_id : ℕ
  pub customer_id : ℕ

-- public.lead_follow_ups
pub record FollowUp : Type 0 where
  pub id : ℕ
  pub tenant_id : ℕ
  pub lead_id : ℕ
  pub scheduled_at : ℕ
  pub reason : Option Text
  pub status : String
  pub cancel_reason : Option Text

-- public.events
pub record Event : Type 0 where
  pub id : ℕ
  pub tenant_id : ℕ
  pub event_type : String
  pub contact_id : Option ℕ
  pub lead_id : Option ℕ

-- public.roles; a role without a tenant is the platform's.
pub record RoleRow : Type 0 where
  pub id : ℕ
  pub tenant_id : Option ℕ
  pub name : Text
  pub display_name : Text
  pub description : Option Text
  pub is_system_role : Bool
  pub is_active : Bool
  pub updated_at : ℕ

-- public.permissions
pub record PermissionRow : Type 0 where
  pub id : ℕ
  pub code : String

-- public.role_permissions
pub record RolePermission : Type 0 where
  pub role_id : ℕ
  pub permission_id : ℕ

-- public.user_roles
pub record RoleAssignment : Type 0 where
  pub user_id : ℕ
  pub role_id : ℕ
  pub is_active : Bool

-- public.tenants
pub record Tenant : Type 0 where
  pub id : ℕ
  pub slug : Text
  pub is_active : Bool
  pub deleted_at : Option ℕ

-- public.lead_sources; a source without a tenant is the platform's.
pub record LeadSource : Type 0 where
  pub id : ℕ
  pub tenant_id : Option ℕ
  pub code : Text
  pub is_active : Bool

-- public.lead_property_interests
pub record PropertyInterest : Type 0 where
  pub tenant_id : ℕ
  pub lead_id : ℕ
  pub project_id : ℕ
  pub property_id : ℕ

-- public.webhook_events; the text `external_event_id` is the id that the delivery is about, or none,
-- and the type of the event.
pub record WebhookEvent : Type 0 where
  pub provider : String
  pub event_type : String
  pub about : Option ℕ
  pub processing_status : String

-- The tables. Their rows have no order: a query that wants one sorts.
pub record Db : Type 0 where
  pub customers : List Customer
  pub properties : List Property
  pub leads : List Lead
  pub bookings : List Booking
  pub sales : List Sale
  pub payments : List Payment
  pub ownerships : List Ownership
  pub co_owners : List CoOwner
  pub listings : List Listing
  pub preferences : List ContactPreference
  pub call_jobs : List CallJob
  pub call_attempts : List CallAttempt
  pub calls : List CallRecord
  pub call_contexts : List CallContext
  pub follow_ups : List FollowUp
  pub events : List Event
  pub roles : List RoleRow
  pub permissions : List PermissionRow
  pub role_permissions : List RolePermission
  pub user_roles : List RoleAssignment
  pub tenants : List Tenant
  pub lead_sources : List LeadSource
  pub interests : List PropertyInterest
  pub webhook_events : List WebhookEvent
