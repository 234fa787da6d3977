-- ===== src/Samples.antt =====
-- A small database and wired ports, for the runs.
use find_language_tutor.Prelude.{ℕ, ◌+◌, ◌*◌, true, false, none, some, List, [], ◌∷◌}
use find_language_tutor.Clock.{hour, day}
use find_language_tutor.Slots.{Money, Span}
use find_language_tutor.Store.{
  Booking, BookingStatus, none_missed, nobody, TeacherContext, Payment, PaymentStatus, LedgerRow,
  LedgerState, Hold, pm_ok, World,
}
use find_language_tutor.Payments.FakeProvider.{fake_provider}
use find_language_tutor.Payments.Service.{gateway}
use find_language_tutor.Bookings.Ports.{Ports}

-- Day 20 of the calendar is a Sunday.
abbrev pub sunday : ℕ
sunday = 20 * day

abbrev pub span : ℕ → ℕ → ℕ → Span
span d a b = record { weekday = d; start_minute = a; end_minute = b }

abbrev pub som : ℕ → Money
som n = record { amount_minor = n; currency = "UZS" }

abbrev pub teacher_row : TeacherContext
teacher_row = record {
  id = 5;
  slug = "dilnoza";
  currency = "UZS";
  price_per_hour_minor = 4000;
  trial_price_minor = some 500;
  owner_id = 20;
  meeting_url = "";
  approved = true;
  spans = span 0 540 660 ∷ [];
}

-- Sunday, 9:00 to 10:00.
abbrev pub lesson : BookingStatus → Booking
lesson st = record {
  id = 1;
  teacher_id = 5;
  student_id = 10;
  teacher_owner_id = 20;
  status = st;
  start_at = sunday + 9 * hour;
  end_at = sunday + 10 * hour;
  duration_minutes = 60;
  is_trial = false;
  price = som 4000;
  created_at = 0;
  cancelled_at = none;
  cancellation_reason = "";
  cancelled_by = nobody;
  meeting_url_override = "";
  teacher_meeting_url = "";
  no_show_party = none_missed;
}

abbrev pub intent : ℕ → PaymentStatus → Payment
intent ref st = record {
  id = 7;
  booking_id = 1;
  provider_ref = ref;
  status = st;
  amount = som 4000;
  last_error = "";
  authorized_at = none;
  captured_at = none;
  refunded_at = none;
}

abbrev pub earning : ℕ → ℕ → LedgerState → ℕ → LedgerRow
earning id amount st at = record {
  id = id;
  teacher_id = 5;
  booking_id = id;
  amount = som amount;
  state = st;
  available_at = at;
  paid_at = none;
  payout_batch_id = 0;
}

-- The lesson and its intent, at a time, with the provider's counter and its holds.
abbrev pub world_of : ℕ → BookingStatus → Payment → ℕ → List Hold → List LedgerRow → World
world_of now st p seq holds ledger = record {
  now = now;
  clearing_days = 7;
  next_id = 100;
  teachers = teacher_row ∷ [];
  bookings = lesson st ∷ [];
  payments = p ∷ [];
  events = [];
  ledger = ledger;
  batches = [];
  seq = seq;
  holds = holds;
  tried = [];
  calls = [];
}

abbrev pub first_hold : Hold
first_hold = record { ref = 1; token = pm_ok; payment_id = 7 }

abbrev pub all_ports : Ports
all_ports = record {
  payments = some (gateway fake_provider);
  has_reminders = true;
  has_notifier = true;
  trim_space = λ s. s;
  valid_meeting_url = λ _. true;
}
