-- ===== src/Wire/Holds.antt =====
-- Rules for what holds of a read: it makes no access outside of a segment, and its result, with the
-- limit behind it, is as stated, unless it ends in an exception.
use capnp_import.Common.{ℕ, ◌≡◌, Bool, true, false, if◌then◌else◌, refl}
use capnp_import.Wire.{Reads, Outcome, value, error, Error, then_do, require}

pub data Holds {ℓ κ} {A : Type ℓ} (P : A → ℕ → Type κ) : Outcome A → Type (ℓ ⊔ κ) where
  result : {a : A} {limit : ℕ} → P a limit → Holds P (value a limit)
  exception : {e : Error} → Holds P (error e)

-- A read that holds `P`, and then one that holds `Q` wherever `P` does.
pub Holds-then_do {ℓ κ μ ν} :
    {A : Type ℓ} {B : Type μ} (P : A → ℕ → Type κ) (Q : B → ℕ → Type ν) {o : Outcome A}
    {f : A → Reads B}
    → Holds P o
    → ((a : A) (limit : ℕ) → P a limit → Holds Q (f a limit))
    → Holds Q (then_do o f)
Holds-then_do P Q (result p) k = k _ _ p
Holds-then_do P Q exception k = exception

pub Holds-weaken {ℓ κ ν} :
    {A : Type ℓ} (P : A → ℕ → Type κ) (Q : A → ℕ → Type ν) {o : Outcome A}
    → Holds P o
    → ((a : A) (limit : ℕ) → P a limit → Q a limit)
    → Holds Q o
Holds-weaken P Q (result p) k = result (k _ _ p)
Holds-weaken P Q exception k = exception

-- Behind a `KJ_REQUIRE` the test holds.
pub Holds-require {ℓ κ} :
    {B : Type ℓ} (Q : B → ℕ → Type κ) (b : Bool) (e : Error) (m : Reads B) (limit : ℕ)
    → (b ≡ true → Holds Q (m limit))
    → Holds Q (then_do (require b e limit) (λ _. m))
Holds-require Q true e m limit k = k refl
Holds-require Q false e m limit k = exception

pub Holds-if {ℓ κ} :
    {B : Type ℓ} (Q : B → ℕ → Type κ) (b : Bool) (m n : Reads B) (limit : ℕ)
    → (b ≡ true → Holds Q (m limit))
    → (b ≡ false → Holds Q (n limit))
    → Holds Q ((if b then m else n) limit)
Holds-if Q true m n limit k l = k refl
Holds-if Q false m n limit k l = l refl
