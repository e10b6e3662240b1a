-- ===== src/Bookings/Lifecycle.antt =====
-- The life of a booking under backend/app/bookings/service.py and backend/app/sales/service.py:
-- 'active' to 'cancelled' by an update, and to 'converted' by a sale alone.
use realesatecrm.Base.{
  ℕ, ◌≡◌, refl, ◌⊎◌, inl, inr, String, str_eq, str_eq_iff, Option-cases, Bool-cases, ◌&&◌, Option,
  none, some, List, [], ◌∷◌, arith, select,
}
use realesatecrm.Db.Rows.{Db, Booking}
use realesatecrm.Db.Action.{Engine, Stmt}
use realesatecrm.Db.Table.{update_where}
use realesatecrm.Bookings.Repository.{BookingUpdate, is_visible_booking, set_notes_and_status}
use realesatecrm.Bookings.Service.{update_booking}

-- What an update may ask of a row.
abbrev pub MayBecome : Option String → Booking → Type 0
MayBecome none b = Unit {0}
MayBecome (some status) b = (status ≡ "cancelled") × (b.booking_status ≡ "active")

module _ (eng : Engine) (scope : Option ℕ) (id : ℕ) (d : BookingUpdate) (db : Db) where
  abbrev pub updated : Db
  updated = record db {
    bookings =
        update_where (is_visible_booking scope id)
          (set_notes_and_status eng d.booking_status d.notes) db.bookings;
  }

  -- What an update has done once its row is found.
  abbrev Outcome : Booking → Type 0
  Outcome b =
      ((update_booking eng scope id d db).1 ≡ db)
      ⊎ (MayBecome d.booking_status b × ((update_booking eng scope id d db).1 ≡ updated))

  found-Outcome :
      (b : Booking) → select (is_visible_booking scope id) db.bookings ≡ b ∷ [] → Outcome b
  unfolding update_booking
  found-Outcome b e = elim (Option-cases (eng.fault Stmt.update_booking db)) [
    | inr (x, fault) ↦ inl (ground arith)
    | inl runs ↦ elim (Option-cases d.booking_status) [
      | inr (status, es) ↦
          elim (Bool-cases (str_eq status "cancelled" && str_eq b.booking_status "active")) [
            | inl may ↦ inr (
              rw es (
                  ground
                    (arith, str_eq_iff status "cancelled", str_eq_iff b.booking_status "active")),
              ground arith,
            )
            | inr may_not ↦ inl (ground arith)
          ]
      | inl en ↦ elim (Option-cases d.notes) [
        | inl nothing ↦ inl (ground arith)
        | inr (n, some_notes) ↦ inr (rw en tt, ground arith)
      ]
    ]
  ]

  -- An update changes nothing, or it writes the one row that it found, after its guards.
  pub update_booking-cases :
      ((update_booking eng scope id d db).1 ≡ db)
      ⊎ ((b : Booking) × (select (is_visible_booking scope id) db.bookings ≡ b ∷ [])
          × MayBecome d.booking_status b
          × ((update_booking eng scope id d db).1 ≡ updated))
  unfolding update_booking
  update_booking-cases = go (select (is_visible_booking scope id) db.bookings) refl
    where
      go :
          (rows : List Booking)
          → select (is_visible_booking scope id) db.bookings ≡ rows
          → ((update_booking eng scope id d db).1 ≡ db)
            ⊎ ((b : Booking) × (select (is_visible_booking scope id) db.bookings ≡ b ∷ [])
                × MayBecome d.booking_status b
                × ((update_booking eng scope id d db).1 ≡ updated))
      go [] e = inl (ground arith)
      go (b ∷ []) e = elim (found-Outcome b e) [
        | inl same ↦ inl same
        | inr (may, done) ↦ inr (b, e, may, done)
      ]
      go (b ∷ c ∷ r) e = inl (ground arith)
