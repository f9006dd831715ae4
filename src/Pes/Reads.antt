-- ===== src/Pes/Reads.antt =====
-- Reads that may fail in a row, what they yield.
use mathlib.Core.Path.{subst}
use mathlib.Core.Option.{some-injective}
use irl_srt_server.Prelude.{
  sym, ℕ, zero, suc, ◌<◌, ◌≡◌, refl, Bool, true, false, Option, none, some, List, [], ◌∷◌, arith,
  if◌then◌else◌, length, get_elem?,
}

infixl 5 ◌>>=◌
abbrev pub ◌>>=◌ : {A B : Type 0} → Option A → (A → Option B) → Option B
none >>= f = none
some a >>= f = f a

-- The result is there, and it has the property.
abbrev pub Yields : {A : Type 0} → (A → Type 0) → Option A → Type 0
Yields {A} P m = (a : A) × (m ≡ some a) × P a

pub read-Yields : (p : List ℕ) (k : ℕ) → k < length p → Yields (λ b. b ≡ b) (get_elem? p k)
read-Yields [] k h = absurd (omega arith)
read-Yields (b ∷ p) zero h = (b, refl, refl)
read-Yields (b ∷ p) (suc k) h = read-Yields p k (omega arith)

pub bind-Yields :
    {A B : Type 0} {Q : A → Type 0} {P : B → Type 0} (m : Option A) (f : A → Option B)
    → Yields Q m
    → ((a : A) → Q a → Yields P (f a))
    → Yields P (m >>= f)
bind-Yields none f (a, e, q) g = absurd cc
bind-Yields {Q = Q} (some b) f (a, e, q) g = g b (subst Q (sym (some-injective b a e)) q)

pub if-Yields :
    {A : Type 0} {P : A → Type 0} (b : Bool) (x y : Option A)
    → (b ≡ true → Yields P x)
    → (b ≡ false → Yields P y)
    → Yields P (if b then x else y)
if-Yields true x y t f = t refl
if-Yields false x y t f = f refl
