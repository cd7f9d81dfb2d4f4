-- ===== src/Base/Loop.antt =====
-- Counted loops whose body may fail, chains of such steps, and how a claim passes through them.
use Prim.Native.Nat.{ℕ, zero, suc, ◌+◌, ◌≤◌, ◌<◌}
use mathlib.Core.Path.{◌≡◌, refl}
use mathlib.Core.Option.{Option, none, some}
use native.Mathlib.Omega.{arith}

infixl 5 ◌>>=◌
abbrev pub ◌>>=◌ {ℓ κ} : {A : Type ℓ} {B : Type κ} → Option A → (A → Option B) → Option B
none >>= f = none
some a >>= f = f a

-- `for (k = i; k < i + left; k++) body`.
unfoldable pub for {ℓ} : {S : Type ℓ} (left i : ℕ) → (ℕ → S → Option S) → S → Option S
for zero i body s = some s
for (suc left) i body s = body i s >>= for left (i + 1) body

-- The code returns, and its result satisfies `P`.
pub data Returns {ℓ κ} {A : Type ℓ} (P : A → Type κ) : Option A → Type (ℓ ⊔ κ) where
  returns : (a : A) → P a → Returns P (some a)

module _ {ℓ κ} {A : Type ℓ} {P : A → Type κ} where
  pub Returns-then {ℓ' κ'} :
      {B : Type ℓ'} {Q : B → Type κ'} {o : Option A} (f : A → Option B)
      → Returns P o
      → ((a : A) → P a → Returns Q (f a))
      → Returns Q (o >>= f)
  Returns-then f (returns a p) next = next a p

  pub Returns-weaken {κ'} :
      {Q : A → Type κ'} {o : Option A} → ((a : A) → P a → Q a) → Returns P o → Returns Q o
  Returns-weaken weaker (returns a p) = returns a (weaker a p)

  pub Returns-value : {o : Option A} → Returns P o → (a : A) × (o ≡ some a) × P a
  Returns-value (returns a p) = (a, refl, p)

-- A body that takes the claim from each index to the next takes it through the loop.
pub for-Returns {ℓ κ} :
    {S : Type ℓ} (P : ℕ → S → Type κ) (body : ℕ → S → Option S) (left i stop : ℕ)
    → i + left ≡ stop
    → ((k : ℕ) (s : S) → i ≤ k → k < stop → P k s → Returns (P (k + 1)) (body k s))
    → (s : S) → P i s
    → Returns (P stop) (for left i body s)
unfolding for
for-Returns P body zero i stop total step s p =
    let end : i ≡ stop = omega arith in rw (← end) (returns s p)
for-Returns P body (suc left) i stop total step s p =
    Returns-then (for left (i + 1) body) (step i s (omega arith) (omega arith) p) (λ t q.
      for-Returns P body left (i + 1) stop (omega arith) (λ k u low. step k u (omega arith)) t q)
