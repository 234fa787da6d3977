-- ===== src/Disputes/Tests.antt =====
-- Runs of the disputes.
use find_language_tutor.Prelude.{◌≡◌, refl, true, some, [], ◌∷◌, arith}
use find_language_tutor.Store.{confirmed, authorized, find}
use find_language_tutor.Samples.{sunday, intent, world_of, first_hold, all_ports}
use find_language_tutor.Bookings.Lifecycle.{admin_refund}
use find_language_tutor.Disputes.{
  resolved, Dispute, Desk, Service, no, dispute_exists, dispute_id, outcome_of, raise_dispute,
  resolve,
}
use find_language_tutor.Disputes.Laws.{open_count, OneOpen, raise_dispute-OneOpen, resolve_once}

abbrev wired : Service
wired = record {
  refunder = some (admin_refund all_ports);
  trim_space = λ s. s;
  rune_count = λ _. 5;
}

abbrev quiet : Desk
quiet = record {
  disputes = [];
  world = world_of sunday confirmed (intent 1 authorized) 1 (first_hold ∷ []) [];
}

abbrev raised : Desk
raised = (raise_dispute wired 10 1 "late" quiet).1

quiet-OneOpen : OneOpen quiet.disputes
unfolding open_count
quiet-OneOpen k = omega arith

raise_dispute-OneOpen_example : OneOpen raised.disputes
raise_dispute-OneOpen_example = raise_dispute-OneOpen wired 10 1 "late" quiet quiet-OneOpen

second_refused : (raise_dispute wired 20 1 "rude" raised).0 ≡ no dispute_exists
unfolding raise_dispute
second_refused = refl

abbrev closed : Desk
closed = (resolve wired 3 100 "resolved" "refunded" true raised).1

abbrev answer : Dispute
answer = record {
  id = 100;
  booking_id = 1;
  status = resolved;
  reason = "late";
  resolution = "refunded";
  raised_by = 10;
  resolved_by = some 3;
  created_at = sunday;
  resolved_at = some sunday;
}

resolve_once_example :
    (find dispute_id 100 closed.disputes ≡ some answer)
    × (outcome_of "resolved" ≡ some resolved)
    × ((resolve wired 4 100 "rejected" "again" true closed).1 ≡ closed)
unfolding raise_dispute resolve admin_refund
resolve_once_example =
    resolve_once wired 3 4 100 "resolved" "rejected" "refunded" "again" true true raised closed
      answer refl
