-- ===== src/Disputes/Laws.antt =====
-- What the rules of disputes keep: one open dispute at most for a booking, and one resolution.
use Prim.Native.String.{String}
use find_language_tutor.Prelude.{
  ℕ, ◌+◌, ◌≤◌, ◌≡◌, refl, Bool, false, none, some, List, [], ◌∷◌, ◌++◌, arith, if◌then◌else◌,
}
use find_language_tutor.Store.{find, modify, find-modify}
use find_language_tutor.Disputes.{
  Status, resolved, rejected, Dispute, Desk, Service, yes, dispute_id, is_open, is_open_for,
  open_for_booking, new_dispute, create_dispute, raise_dispute, close_open, resolve_row, outcome_of,
  resolve,
}

-- How many disputes of the booking are open.
unfoldable pub open_count : ℕ → List Dispute → ℕ
open_count k [] = 0
open_count k (d ∷ ds) = (if is_open_for k d then 1 else 0) + open_count k ds

open_count-none : (k : ℕ) (ds : List Dispute) → open_for_booking k ds ≡ none → open_count k ds ≡ 0
unfolding open_count open_for_booking
open_count-none k [] h = refl
open_count-none k (d ∷ ds) h = ground (arith, open_count-none k ds)

open_count-snoc :
    (k : ℕ) (ds : List Dispute) (d : Dispute)
    → open_count k (ds ++ d ∷ []) ≡ open_count k ds + (if is_open_for k d then 1 else 0)
unfolding open_count
open_count-snoc k [] d = omega arith
open_count-snoc k (x ∷ ds) d = omega (arith, open_count-snoc k ds d)

-- Every booking has one open dispute at most.
abbrev pub OneOpen : List Dispute → Type 0
OneOpen ds = (k : ℕ) → open_count k ds ≤ 1

-- Where every booking has one open dispute at most, this holds after a request to raise one,
-- whatever it answers.
pub raise_dispute-OneOpen :
    (svc : Service) (caller booking_id : ℕ) (text : String) (s : Desk)
    → OneOpen s.disputes
    → OneOpen (raise_dispute svc caller booking_id text s).1.disputes
unfolding raise_dispute create_dispute
raise_dispute-OneOpen svc caller booking_id text s h k = ground (
  arith,
  h k,
  open_count-none k s.disputes,
  open_count-snoc k s.disputes (new_dispute booking_id caller (svc.trim_space text) s.world),
)

open_count-close :
    (k id : ℕ) (st : Status) (resolution : String) (admin now : ℕ) (ds : List Dispute)
    → is_open st ≡ false
    → open_count k (modify dispute_id id (close_open st resolution admin now) ds) ≤ open_count k ds
unfolding open_count modify
open_count-close k id st resolution admin now [] h = omega arith
open_count-close k id st resolution admin now (d ∷ ds) h =
    ground (arith, open_count-close k id st resolution admin now ds h)

-- Where every booking has one open dispute at most, this holds after a request to resolve one,
-- whatever it answers.
pub resolve-OneOpen :
    (svc : Service) (admin id : ℕ) (outcome text : String) (refund : Bool) (s : Desk)
    → OneOpen s.disputes
    → OneOpen (resolve svc admin id outcome text refund s).1.disputes
unfolding resolve resolve_row
resolve-OneOpen svc admin id outcome text refund s h k = ground (
  arith,
  h k,
  open_count-close k id resolved (svc.trim_space text) admin s.world.now s.disputes refl,
  open_count-close k id rejected (svc.trim_space text) admin s.world.now s.disputes refl,
)

-- Where resolving a dispute is answered with `d`, `d` is the row that is stored under its id, it
-- is closed with the outcome that was asked for, and resolving it again, by whom and however,
-- changes nothing: no second refund is made.
pub resolve_once :
    (svc : Service) (admin admin' id : ℕ) (outcome outcome' text text' : String)
    (refund refund' : Bool) (s s' : Desk) (d : Dispute)
    → resolve svc admin id outcome text refund s ≡ (yes d, s')
    → (find dispute_id id s'.disputes ≡ some d)
      × (outcome_of (svc.trim_space outcome) ≡ some d.status)
      × ((resolve svc admin' id outcome' text' refund' s').1 ≡ s')
unfolding resolve resolve_row
resolve_once svc admin admin' id outcome outcome' text text' refund refund' s s' d h = ground (
  arith,
  find-modify dispute_id id id (close_open resolved (svc.trim_space text) admin s.world.now)
      s.disputes,
  find-modify dispute_id id id (close_open rejected (svc.trim_space text) admin s.world.now)
      s.disputes,
)
