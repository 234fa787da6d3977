-- ===== src/Payments/FakeProvider.antt =====
-- fake_provider.go: the in-process provider. Its mutex makes each access to the maps atomic; the
-- event goes to the service's Emit before the call returns.
use Prim.Native.String.{String}
use find_language_tutor.Prelude.{ℕ, suc, Bool, true, false, ◌&&◌, not, ◌∷◌}
use find_language_tutor.Slots.{contains}
use find_language_tutor.Store.{
  Hold, MethodToken, pm_decline, pm_capture_fail, event_authorized, event_captured, event_refunded,
  event_failed, of_ref, of_decline, find,
}
use find_language_tutor.Effect.{
  unknown_ref, transient, provider_declined, Action, pure, raise, gets, ◌>>=◌, ◌>>◌, change,
  raise_if, or_raise,
}
use find_language_tutor.Payments.Events.{emit}

-- The port payments.Provider: a hold for a payment, which returns its reference; a capture and a
-- refund of a reference.
pub record Provider : Type 0 where
  pub authorize : ℕ → MethodToken → Action ℕ
  pub capture : ℕ → Action (Unit {0})
  pub refund : ℕ → Action (Unit {0})

abbrev pub ref_of : Hold → ℕ
ref_of h = h.ref

abbrev pub decline_reason : String
decline_reason = "the card was declined"

unfoldable pub place_hold : ℕ → MethodToken → Action ℕ
unfolding emit
place_hold payment_id token = do
  change (λ w. record w {
    seq = suc w.seq;
    holds = record { ref = suc w.seq; token = token; payment_id = payment_id } ∷ w.holds;
  })
  ref ← gets (λ w. w.seq)
  emit (record {
    id = record { ref = of_ref ref; type = event_authorized };
    type = event_authorized;
    payment_id = payment_id;
    provider_ref = ref;
    message = "";
  })
  pure ref

unfoldable pub fake_decline : ℕ → Action ℕ
unfolding emit
fake_decline payment_id = do
  emit (record {
    id = record { ref = of_decline payment_id; type = event_failed };
    type = event_failed;
    payment_id = payment_id;
    provider_ref = 0;
    message = decline_reason;
  })
  raise (provider_declined decline_reason)

unfoldable pub fake_authorize : ℕ → MethodToken → Action ℕ
unfolding place_hold fake_decline
fake_authorize payment_id pm_decline = fake_decline payment_id
fake_authorize payment_id token = place_hold payment_id token

abbrev pub fails_first : MethodToken → Bool
fails_first pm_capture_fail = true
fails_first _ = false

unfoldable pub fake_capture : ℕ → Action (Unit {0})
unfolding emit contains
fake_capture ref = do
  first_try ← gets (λ w. not (contains ref w.tried))
  known ← gets (λ w. find ref_of ref w.holds)
  change (λ w. record w { tried = ref ∷ w.tried })
  hold ← or_raise known unknown_ref
  raise_if (fails_first hold.token && first_try) transient
  emit (record {
    id = record { ref = of_ref ref; type = event_captured };
    type = event_captured;
    payment_id = hold.payment_id;
    provider_ref = ref;
    message = "";
  })

unfoldable pub fake_refund : ℕ → Action (Unit {0})
unfolding emit
fake_refund ref = do
  hold ← or_raise (← gets (λ w. find ref_of ref w.holds)) unknown_ref
  emit (record {
    id = record { ref = of_ref ref; type = event_refunded };
    type = event_refunded;
    payment_id = hold.payment_id;
    provider_ref = ref;
    message = "";
  })

abbrev pub fake_provider : Provider
fake_provider = record { authorize = fake_authorize; capture = fake_capture; refund = fake_refund }
