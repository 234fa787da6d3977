-- ===== src/Payments/Earnings.antt =====
-- The teacher's earnings summary (payments.go): the state of a ledger row against the clearing
-- window, and the totals.
use Prim.Native.String.{String}
use find_language_tutor.Prelude.{ℕ, List, [], ◌∷◌, ltb, if◌then◌else◌}
use text.Mathlib.Text.{◌==◌ as str_eq}
use find_language_tutor.Prelude.Words.{add64}
use find_language_tutor.Store.{LedgerState, held, available, paid, reversed}

pub record EarningLine : Type 0 where
  pub booking_id : ℕ
  pub amount_minor : ℕ
  pub currency : String
  pub state : LedgerState
  pub available_at : ℕ

pub record Earnings : Type 0 where
  pub total_earned_minor : ℕ
  pub held_minor : ℕ
  pub available_minor : ℕ
  pub paid_minor : ℕ
  pub currency : String
  pub lines : List EarningLine

unfoldable pub effective_state : LedgerState → ℕ → ℕ → LedgerState
effective_state paid available_at now = paid
effective_state reversed available_at now = reversed
effective_state _ available_at now = if ltb now available_at then held else available

-- The switch of the loop: what a line adds to the totals.
unfoldable pub add_amount : LedgerState → ℕ → Earnings → Earnings
unfolding add64
add_amount held a e = record e {
  held_minor = add64 e.held_minor a;
  total_earned_minor = add64 e.total_earned_minor a;
}
add_amount available a e = record e {
  available_minor = add64 e.available_minor a;
  total_earned_minor = add64 e.total_earned_minor a;
}
add_amount paid a e = record e {
  paid_minor = add64 e.paid_minor a;
  total_earned_minor = add64 e.total_earned_minor a;
}
add_amount reversed a e = e

unfoldable pub set_state : ℕ → EarningLine → EarningLine
unfolding effective_state
set_state now l = record l { state = effective_state l.state l.available_at now }

-- The first line's currency, where there is no fallback.
abbrev pub adopt_currency : EarningLine → Earnings → Earnings
adopt_currency l e = if str_eq e.currency "" then record e { currency = l.currency } else e

unfoldable pub summarize_from : ℕ → List EarningLine → Earnings → Earnings
unfolding add_amount set_state
summarize_from now [] e = e
summarize_from now (l ∷ ls) e =
    let l' = set_state now l in
    summarize_from now ls (add_amount l'.state l.amount_minor (adopt_currency l e))

-- The loop writes the effective states into the lines, which are returned.
unfoldable pub rewrite_lines : ℕ → List EarningLine → List EarningLine
unfolding set_state
rewrite_lines now [] = []
rewrite_lines now (l ∷ ls) = set_state now l ∷ rewrite_lines now ls

unfoldable pub summarize : List EarningLine → ℕ → String → Earnings
unfolding summarize_from rewrite_lines
summarize lines now fallback_currency = summarize_from now lines (record {
  total_earned_minor = 0;
  held_minor = 0;
  available_minor = 0;
  paid_minor = 0;
  currency = fallback_currency;
  lines = rewrite_lines now lines;
})
