-- ===== src/Base/Options.antt =====
-- Runs that may fault, as options.
use mathlib.Core.Path.{◌≡◌, ap, ◌∙◌}
use mathlib.Core.Option.{Option, none, some}

infixl 5 ◌>>=◌
abbrev pub ◌>>=◌ {ℓ} : {A B : Type ℓ} → Option A → (A → Option B) → Option B
none >>= k = none
some a >>= k = k a

-- A run whose first part is known to return.
pub bind-some {ℓ} :
    {A B : Type ℓ} {m : Option A} {a : A} {r : Option B} (k : A → Option B)
    → m ≡ some a
    → k a ≡ r
    → (m >>= k) ≡ r
bind-some k e f = ap (λ x. x >>= k) e ∙ f
