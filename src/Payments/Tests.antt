-- ===== src/Payments/Tests.antt =====
-- The theorems on webhook calls at a small database.
use find_language_tutor.Prelude.{ℕ, ◌≡◌, refl, false, List, [], ◌∷◌}
use find_language_tutor.Store.{
  World, Event, EventId, of_ref, event_authorized, event_captured, pending_payment,
  requires_payment, LedgerState, held, reversed,
}
use find_language_tutor.Effect.{ok}
use find_language_tutor.Samples.{sunday, intent, world_of}
use find_language_tutor.Payments.Events.{handle_webhook}
use find_language_tutor.Prelude.{◌+◌, ◌%◌}
use find_language_tutor.Prelude.Words.{int64_mod}
use find_language_tutor.Payments.Earnings.{EarningLine, summarize}
use find_language_tutor.Payments.Summary.{sum_of, waits, is_cleared, was_paid, summarize-totals}
use find_language_tutor.Payments.Replay.{
  Outcome, deliver, handle_webhook-Outcome, handle_webhook_replay,
}

abbrev booked : World
booked = world_of sunday pending_payment (intent 0 requires_payment) 0 [] []

abbrev paid_event : Event
paid_event = record {
  id = record { ref = of_ref 3; type = event_authorized };
  type = event_authorized;
  payment_id = 7;
  provider_ref = 3;
  message = "";
}

abbrev taken_event : Event
taken_event = record {
  id = record { ref = of_ref 3; type = event_captured };
  type = event_captured;
  payment_id = 7;
  provider_ref = 3;
  message = "";
}

handle_webhook-Outcome_example : Outcome paid_event booked (handle_webhook paid_event booked)
handle_webhook-Outcome_example = handle_webhook-Outcome paid_event booked

abbrev after_paid : World
after_paid = (handle_webhook paid_event booked).1

handle_webhook_replay_example :
    handle_webhook paid_event (deliver (taken_event ∷ []) after_paid)
    ≡ (ok false, deliver (taken_event ∷ []) after_paid)
unfolding handle_webhook find_language_tutor.Store.find
handle_webhook_replay_example =
    handle_webhook_replay paid_event (taken_event ∷ []) booked after_paid refl

abbrev line : ℕ → LedgerState → ℕ → EarningLine
line amount st at = record {
  booking_id = 1;
  amount_minor = amount;
  currency = "UZS";
  state = st;
  available_at = at;
}

-- A cleared line, one that is not, and one that was reversed.
abbrev lines : List EarningLine
lines = line 4000 held 50 ∷ line 900 held 500 ∷ line 70 reversed 50 ∷ []

summarize-totals_example :
    ((summarize lines 100 "").held_minor ≡ sum_of (waits 100) lines % int64_mod)
    × ((summarize lines 100 "").available_minor ≡ sum_of (is_cleared 100) lines % int64_mod)
    × ((summarize lines 100 "").paid_minor ≡ sum_of was_paid lines % int64_mod)
    × ((summarize lines 100 "").total_earned_minor
        ≡ (sum_of (waits 100) lines + sum_of (is_cleared 100) lines + sum_of was_paid lines)
          % int64_mod)
summarize-totals_example = summarize-totals lines 100 ""

summary_run : (summarize lines 100 "").total_earned_minor ≡ 4900
unfolding summarize
summary_run = refl
