-- ===== src/Payments/Summary.antt =====
-- The totals of the earnings summary against the sums of its lines.
use Prim.Native.String.{String}
use find_language_tutor.Prelude.{
  ℕ, ◌+◌, ◌%◌, ◌<◌, ◌≡◌, refl, Bool, true, false, ◌&&◌, List, [], ◌∷◌, arith, ltb, leb,
  if◌then◌else◌,
}
use find_language_tutor.Prelude.Words.{int64_mod}
use find_language_tutor.Store.{LedgerState, held, available, paid, reversed}
use find_language_tutor.Payments.Earnings.{
  EarningLine, Earnings, effective_state, add_amount, adopt_currency, summarize_from, summarize,
  rewrite_lines,
}

abbrev is_held : LedgerState → Bool
is_held held = true
is_held _ = false

abbrev is_available : LedgerState → Bool
is_available available = true
is_available _ = false

abbrev is_paid : LedgerState → Bool
is_paid paid = true
is_paid _ = false

-- The sum of the amounts of the lines whose state at `now` passes the test.
unfoldable state_sum : (LedgerState → Bool) → ℕ → List EarningLine → ℕ
state_sum p now [] = 0
state_sum p now (l ∷ ls) =
    (if p (effective_state l.state l.available_at now) then l.amount_minor else 0)
    + state_sum p now ls

-- The totals are those of `e` with the sums of the lines added, as int64s.
record Adds (now : ℕ) (ls : List EarningLine) (e e' : Earnings) : Type 0 where
  pub held_sum : e'.held_minor ≡ (e.held_minor + state_sum is_held now ls) % int64_mod
  pub available_sum :
      e'.available_minor ≡ (e.available_minor + state_sum is_available now ls) % int64_mod
  pub paid_sum : e'.paid_minor ≡ (e.paid_minor + state_sum is_paid now ls) % int64_mod
  pub earned :
      e'.total_earned_minor
      ≡ (e.total_earned_minor
          + state_sum is_held now ls
          + state_sum is_available now ls
          + state_sum is_paid now ls)
        % int64_mod

-- One round of the loop.
record Added (s : LedgerState) (amount : ℕ) (e e' : Earnings) : Type 0 where
  pub held_sum : e'.held_minor ≡ (e.held_minor + (if is_held s then amount else 0)) % int64_mod
  pub available_sum :
      e'.available_minor ≡ (e.available_minor + (if is_available s then amount else 0)) % int64_mod
  pub paid_sum : e'.paid_minor ≡ (e.paid_minor + (if is_paid s then amount else 0)) % int64_mod
  pub earned :
      e'.total_earned_minor
      ≡ (e.total_earned_minor
          + (if is_held s then amount else 0)
          + (if is_available s then amount else 0)
          + (if is_paid s then amount else 0))
        % int64_mod
  pub held_small : e'.held_minor < int64_mod
  pub available_small : e'.available_minor < int64_mod
  pub paid_small : e'.paid_minor < int64_mod
  pub earned_small : e'.total_earned_minor < int64_mod

add_amount_lem :
    (s : LedgerState) (amount : ℕ) (l : EarningLine) (e : Earnings)
    → e.held_minor < int64_mod
    → e.available_minor < int64_mod
    → e.paid_minor < int64_mod
    → e.total_earned_minor < int64_mod
    → Added s amount e (add_amount s amount (adopt_currency l e))
unfolding add_amount
add_amount_lem s amount l e h a p t = record {
  held_sum = ground arith;
  available_sum = ground arith;
  paid_sum = ground arith;
  earned = ground arith;
  held_small = ground arith;
  available_small = ground arith;
  paid_small = ground arith;
  earned_small = ground arith;
}

summarize_from-Adds :
    (now : ℕ) (ls : List EarningLine) (e : Earnings)
    → e.held_minor < int64_mod
    → e.available_minor < int64_mod
    → e.paid_minor < int64_mod
    → e.total_earned_minor < int64_mod
    → Adds now ls e (summarize_from now ls e)
unfolding summarize_from state_sum
summarize_from-Adds now [] e h a p t = record {
  held_sum = omega arith;
  available_sum = omega arith;
  paid_sum = omega arith;
  earned = omega arith;
}
summarize_from-Adds now (l ∷ ls) e h a p t =
    let e' : Earnings =
      add_amount (effective_state l.state l.available_at now) l.amount_minor (adopt_currency l e) in
    let step =
      add_amount_lem (effective_state l.state l.available_at now) l.amount_minor l e h a p t in
    let rest =
      summarize_from-Adds now ls e' step.held_small step.available_small step.paid_small
        step.earned_small in
    record {
      held_sum = omega (arith, rest.held_sum, step.held_sum);
      available_sum = omega (arith, rest.available_sum, step.available_sum);
      paid_sum = omega (arith, rest.paid_sum, step.paid_sum);
      earned = omega (arith, rest.earned, step.earned);
    }

-- The money of a lesson that was taught and neither paid out nor taken back.
abbrev pub is_owed : LedgerState → Bool
is_owed held = true
is_owed available = true
is_owed paid = false
is_owed reversed = false

-- Owed, and still in the clearing window; owed, and out of it; paid out.
abbrev pub waits : ℕ → EarningLine → Bool
waits now l = is_owed l.state && ltb now l.available_at

abbrev pub is_cleared : ℕ → EarningLine → Bool
is_cleared now l = is_owed l.state && leb l.available_at now

abbrev pub was_paid : EarningLine → Bool
was_paid l = is_paid l.state

-- The sum of the amounts of the lines that pass the test.
unfoldable pub sum_of : (EarningLine → Bool) → List EarningLine → ℕ
sum_of p [] = 0
sum_of p (l ∷ ls) = (if p l then l.amount_minor else 0) + sum_of p ls

held-waits :
    (s : LedgerState) (at now : ℕ) → is_held (effective_state s at now) ≡ (is_owed s && ltb now at)
unfolding effective_state
held-waits held at now = ground arith
held-waits available at now = ground arith
held-waits paid at now = refl
held-waits reversed at now = refl

available-cleared :
    (s : LedgerState) (at now : ℕ)
    → is_available (effective_state s at now) ≡ (is_owed s && leb at now)
unfolding effective_state
available-cleared held at now = ground arith
available-cleared available at now = ground arith
available-cleared paid at now = refl
available-cleared reversed at now = refl

paid-paid : (s : LedgerState) (at now : ℕ) → is_paid (effective_state s at now) ≡ is_paid s
unfolding effective_state
paid-paid held at now = ground arith
paid-paid available at now = ground arith
paid-paid paid at now = refl
paid-paid reversed at now = refl

state_sum-sum_of :
    (q : LedgerState → Bool) (p : EarningLine → Bool) (now : ℕ) (ls : List EarningLine)
    → ((l : EarningLine) → q (effective_state l.state l.available_at now) ≡ p l)
    → state_sum q now ls ≡ sum_of p ls
unfolding state_sum sum_of
state_sum-sum_of q p now [] same = refl
state_sum-sum_of q p now (l ∷ ls) same = rw (same l, state_sum-sum_of q p now ls same)

totals_by_state :
    (lines : List EarningLine) (now : ℕ) (fallback : String)
    → let e = summarize lines now fallback in
      (e.held_minor ≡ state_sum is_held now lines % int64_mod)
      × (e.available_minor ≡ state_sum is_available now lines % int64_mod)
      × (e.paid_minor ≡ state_sum is_paid now lines % int64_mod)
      × (e.total_earned_minor
          ≡ (state_sum is_held now lines
              + state_sum is_available now lines
              + state_sum is_paid now lines)
            % int64_mod)
unfolding summarize
totals_by_state lines now fallback =
    let start : Earnings = record {
      total_earned_minor = 0;
      held_minor = 0;
      available_minor = 0;
      paid_minor = 0;
      currency = fallback;
      lines = rewrite_lines now lines;
    } in
    let done =
      summarize_from-Adds now lines start (omega arith) (omega arith) (omega arith) (omega arith) in
    (
      omega (arith, done.held_sum),
      omega (arith, done.available_sum),
      omega (arith, done.paid_sum),
      omega (arith, done.earned),
    )

-- The held total of the summary is the sum of the lines that are neither paid nor reversed and whose
-- clearing window ends after now; the available total the sum of those whose window has ended; the
-- paid total that of the paid lines; a reversed line counts nowhere; and the total earned is the
-- three sums together (all as int64s).
pub summarize-totals :
    (lines : List EarningLine) (now : ℕ) (fallback : String)
    → let e = summarize lines now fallback in
      (e.held_minor ≡ sum_of (waits now) lines % int64_mod)
      × (e.available_minor ≡ sum_of (is_cleared now) lines % int64_mod)
      × (e.paid_minor ≡ sum_of was_paid lines % int64_mod)
      × (e.total_earned_minor
          ≡ (sum_of (waits now) lines + sum_of (is_cleared now) lines + sum_of was_paid lines)
            % int64_mod)
summarize-totals lines now fallback =
    let t = totals_by_state lines now fallback in
    let h =
      state_sum-sum_of is_held (waits now) now lines (λ l. held-waits l.state l.available_at now) in
    let a =
      state_sum-sum_of is_available (is_cleared now) now lines
        (λ l. available-cleared l.state l.available_at now) in
    let p =
      state_sum-sum_of is_paid was_paid now lines (λ l. paid-paid l.state l.available_at now) in
    (
      omega (arith, t.0, h),
      omega (arith, t.1, a),
      omega (arith, t.2, p),
      omega (arith, t.3, h, a, p),
    )
