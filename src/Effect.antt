-- ===== src/Effect.antt =====
-- A call of a service: it reads and changes the world, and returns a result or an error. What was
-- written before an error stays written; only a transaction is undone as a whole.
pub mod Keeps
use Prim.Native.String.{String}
use find_language_tutor.Prelude.{
  Bool, true, false, Option, none, some, ◌≡◌, refl, ap, ◌⊎◌, inl, inr,
}
use find_language_tutor.Store.{World}

-- The errors of the modelled modules, and of the provider.
pub data Error : Type 0 where
  -- bookings
  teacher_not_found booking_not_found forbidden cannot_book_self slot_unavailable slot_taken : Error
  invalid_transition lesson_not_started too_early not_student not_teacher_owner : Error
  payment_required already_paid capture_failed invalid_request : Error
  payment_failed : String → Error
  -- payments
  payment_not_found paid_already not_payable provider_capture_failed bad_event : Error
  declined : String → Error
  -- the provider
  unknown_ref transient : Error
  provider_declined : String → Error
  -- payouts
  batch_not_found nothing_to_pay : Error
  -- any other database error
  database_error : Error

-- A result or an error.
pub data Fallible (E A : Type 0) : Type 0 where
  ok : A → Fallible E A
  err : E → Fallible E A

pub Fallible-cases :
    {E A : Type 0} (r : Fallible E A) → ((a : A) × (r ≡ ok a)) ⊎ ((e : E) × (r ≡ err e))
Fallible-cases (ok a) = inl (a, refl)
Fallible-cases (err e) = inr (e, refl)

-- A call on a state: it changes the state, and returns a result or an error.
abbrev pub Call : Type 0 → Type 0 → Type 0 → Type 0
Call S E A = S → Fallible E A × S

-- The calls on the tables of the marketplace.
abbrev pub Result : Type 0 → Type 0
Result A = Fallible Error A

abbrev pub Action : Type 0 → Type 0
Action A = Call World Error A

module _ {S E A : Type 0} where
  abbrev pub pure : A → Call S E A
  pure a s = (ok a, s)

  abbrev pub raise : E → Call S E A
  raise e s = (err e, s)

  abbrev pub gets : (S → A) → Call S E A
  gets f s = (ok (f s), s)

  abbrev pub or_raise : Option A → E → Call S E A
  or_raise none e = raise e
  or_raise (some a) e = pure a

infixl 5 ◌>>=◌ ◌>>◌
abbrev pub ◌>>=◌ : {S E A B : Type 0} → Call S E A → (A → Call S E B) → Call S E B
◌>>=◌ m f s = let (r, s') = m s in elim r [ ok a ↦ f a s' | err e ↦ (err e, s') ]

abbrev pub ◌>>◌ : {S E A B : Type 0} → Call S E A → Call S E B → Call S E B
m >> k = m >>= λ _. k

abbrev pub change : {S E : Type 0} → (S → S) → Call S E (Unit {0})
change f s = (ok tt, f s)

-- An early return with an error.
abbrev pub raise_if : {S E : Type 0} → Bool → E → Call S E (Unit {0})
raise_if true e s = (err e, s)
raise_if false e s = (ok tt, s)

-- Two calls in a row, where the first is known to succeed.
pub bind-eq :
    {S E A B : Type 0} (m : Call S E A) (f : A → Call S E B) (s t : S) (a : A)
    → m s ≡ (ok a, t)
    → (m >>= f) s ≡ f a t
bind-eq m f s t a e = ap (λ r. elim r.0 [ ok b ↦ f b r.1 | err x ↦ (err x, r.1) ]) e

-- A call whose error is logged and dropped.
abbrev pub ignore_error : {S E A : Type 0} → Call S E A → Call S E (Unit {0})
ignore_error m s = (ok tt, (m s).1)
