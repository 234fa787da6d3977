-- ===== src/Effect/Keeps.antt =====
-- What an action keeps, put together from what its parts keep.
use find_language_tutor.Prelude.{Bool, true, false, Option, none, some, ◌≡◌, refl, sym, subst}
use find_language_tutor.Effect.{Fallible, ok, err, Call, or_raise, ◌>>=◌, raise_if}

-- The property holds after the action, whatever it answers, if it holds before.
abbrev pub Keeps : {S E A : Type 0} → (S → Type 0) → Call S E A → Type 0
Keeps {S} P m = (s : S) → P s → P (m s).1

module _ {S E : Type 0} (P : S → Type 0) where
  -- The second half of `>>=`.
  abbrev after : {A B : Type 0} → (A → Call S E B) → Fallible E A → Call S E B
  after f r w = elim r [ ok a ↦ f a w | err e ↦ (err e, w) ]

  result-Keeps :
      {A B : Type 0} (f : A → Call S E B) (r : Fallible E A) (w : S)
      → ((a : A) → Keeps P (f a))
      → P w
      → P (after f r w).1
  result-Keeps f (ok a) w k h = k a w h
  result-Keeps f (err e) w k h = h

  pub bind-Keeps :
      {A B : Type 0} (m : Call S E A) (f : A → Call S E B)
      → Keeps P m
      → ((a : A) → Keeps P (f a))
      → Keeps P (m >>= f)
  bind-Keeps m f km kf w h = result-Keeps f (m w).0 (m w).1 kf (km w h)

  pub raise_if-Keeps : (b : Bool) (e : E) → Keeps P (raise_if b e)
  raise_if-Keeps true e w h = h
  raise_if-Keeps false e w h = h

  pub or_raise-Keeps : {A : Type 0} (o : Option A) (e : E) → Keeps P (or_raise o e)
  or_raise-Keeps none e w h = h
  or_raise-Keeps (some a) e w h = h

  after-result :
      {A B : Type 0} (f : A → Call S E B) (r : Fallible E A) (w : S)
      → P w
      → ((a : A) → r ≡ ok a → P (f a w).1)
      → P (after f r w).1
  after-result f (ok a) w h k = k a refl
  after-result f (err e) w h k = h

  -- What holds after two calls in a row, at one state: the second may rely on the first's answer.
  pub bind-after :
      {A B : Type 0} (m : Call S E A) (f : A → Call S E B) (s : S)
      → P (m s).1
      → ((a : A) → (m s).0 ≡ ok a → P (f a (m s).1).1)
      → P ((m >>= f) s).1
  bind-after m f s h k = after-result f (m s).0 (m s).1 h k

  -- The same, where the first call only reads.
  pub bind-reads :
      {A B : Type 0} (m : Call S E A) (f : A → Call S E B) (s : S)
      → (m s).1 ≡ s
      → P s
      → ((a : A) → (m s).0 ≡ ok a → P (f a s).1)
      → P ((m >>= f) s).1
  bind-reads m f s same h k = bind-after m f s (rw same h) (λ a e. rw same (k a e))

  pub bind-state :
      {A B : Type 0} (m : Call S E A) (f : A → Call S E B) (s : S)
      → P (m s).1
      → ((a : A) (t : S) → (f a t).1 ≡ t)
      → P ((m >>= f) s).1
  bind-state m f s h same = bind-after m f s h (λ a e. rw (same a (m s).1) h)

  pub then-Keeps :
      {A B : Type 0} (m : Call S E A) (k : Call S E B)
      → Keeps P m
      → Keeps P k
      → Keeps P (m >>= λ a. k)
  then-Keeps m k km kk = bind-Keeps m (λ a. k) km (λ a. kk)

  -- The same, where the first call is known to succeed.
  pub bind-ok :
      {A B : Type 0} (m : Call S E A) (f : A → Call S E B) (s t : S) (a : A)
      → m s ≡ (ok a, t)
      → P (f a t).1
      → P ((m >>= f) s).1
  bind-ok m f s t a e h = subst (λ r. P (after f r.0 r.1).1) (sym e) h

  pub guard-after :
      {B : Type 0} (b : Bool) (e : E) (k : Call S E B) (s : S)
      → P s
      → (b ≡ false → P (k s).1)
      → P ((raise_if b e >>= λ a. k) s).1
  guard-after true e k s h g = h
  guard-after false e k s h g = g refl
