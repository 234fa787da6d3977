-- ===== src/Prelude/Decimal.antt =====
-- Numbers in decimal, as fmt's %d prints them.
use Prim.Native.Nat.{ℕ, zero, suc, ◌+◌, ◌-◌, ◌*◌, ◌/◌, ◌%◌, ◌<◌}
use Prim.Native.Char.{Char, code}
use Prim.Native.String.{String}
use mathlib.Core.Path.{◌≡◌, refl, sym, ap, ◌∙◌}
use mathlib.Core.Logic.{inl, inr}
use native.Mathlib.Omega.{arith}
use find_language_tutor.Prelude.Tests.{ltb, if◌then◌else◌, Bool-cases}

-- The digit of a number below ten.
unfoldable pub digit : ℕ → Char
digit zero = "0"
digit (suc zero) = "1"
digit (suc (suc zero)) = "2"
digit (suc (suc (suc zero))) = "3"
digit (suc (suc (suc (suc zero)))) = "4"
digit (suc (suc (suc (suc (suc zero))))) = "5"
digit (suc (suc (suc (suc (suc (suc zero)))))) = "6"
digit (suc (suc (suc (suc (suc (suc (suc zero))))))) = "7"
digit (suc (suc (suc (suc (suc (suc (suc (suc zero)))))))) = "8"
digit (suc (suc (suc (suc (suc (suc (suc (suc (suc _))))))))) = "9"

-- The digits of `n` in front of a text; there is fuel for every digit where it is more than `n`.
unfoldable pub digits_onto : ℕ → ℕ → String → String
unfolding digit
digits_onto zero n s = s
digits_onto (suc fuel) n s =
    let rest = digits_onto fuel (n / 10) (String.◌∷◌ (digit (n % 10)) s) in
    if ltb n 10 then String.◌∷◌ (digit n) s else rest

unfoldable pub decimal : ℕ → String
unfolding digits_onto
decimal n = digits_onto (suc n) n ""

-- The number that a text of digits spells behind `n`.
abbrev spelt : ℕ → String → ℕ
spelt n String.[] = n
spelt n (String.◌∷◌ c s) = spelt (n * 10 + code c - 48) s

code-digit : (d : ℕ) → d < 10 → code (digit d) ≡ 48 + d
unfolding digit
code-digit zero h = refl
code-digit (suc zero) h = refl
code-digit (suc (suc zero)) h = refl
code-digit (suc (suc (suc zero))) h = refl
code-digit (suc (suc (suc (suc zero)))) h = refl
code-digit (suc (suc (suc (suc (suc zero))))) h = refl
code-digit (suc (suc (suc (suc (suc (suc zero)))))) h = refl
code-digit (suc (suc (suc (suc (suc (suc (suc zero))))))) h = refl
code-digit (suc (suc (suc (suc (suc (suc (suc (suc zero)))))))) h = refl
code-digit (suc (suc (suc (suc (suc (suc (suc (suc (suc zero))))))))) h = refl
code-digit (suc (suc (suc (suc (suc (suc (suc (suc (suc (suc n)))))))))) h = absurd (omega arith)

spelt-digits_onto :
    (fuel n : ℕ) (s : String) → n < fuel → spelt 0 (digits_onto fuel n s) ≡ spelt n s
unfolding digits_onto
spelt-digits_onto zero n s h = absurd (omega arith)
spelt-digits_onto (suc fuel) n s h = elim (Bool-cases (ltb n 10)) [
  | inl small ↦
      rw small (ap (λ (k : ℕ). spelt k s) (omega (arith, code-digit n (ground (arith, small)))))
  | inr big ↦ rw big (
      spelt-digits_onto fuel (n / 10) (String.◌∷◌ (digit (n % 10)) s) (ground (arith, big, h))
      ∙ ap (λ (k : ℕ). spelt k s) (omega (arith, code-digit (n % 10) (omega arith))))
]

pub decimal_injective : (m n : ℕ) → decimal m ≡ decimal n → m ≡ n
unfolding decimal
decimal_injective m n e =
    sym (spelt-digits_onto (suc m) m "" (omega arith))
    ∙ ap (λ (s : String). spelt 0 s) e
    ∙ spelt-digits_onto (suc n) n "" (omega arith)
