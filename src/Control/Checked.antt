-- ===== src/Control/Checked.antt =====
-- `Error` and `require` of control_protocol.hpp: a value, or the error that is thrown with its
-- HTTP status.
use macrohelp.Base.{ℤ, pos, String, ◌≡◌, ◌⊎◌, inl, inr, refl}

pub data Checked {ℓ} (A : Type ℓ) : Type ℓ where
  done : A → Checked A
  thrown : ℤ → String → Checked A

pub Checked-cases {ℓ} :
    {A : Type ℓ} (c : Checked A)
    → ((x : A) × (c ≡ done x)) ⊎ ((status : ℤ) × (message : String) × (c ≡ thrown status message))
Checked-cases (done x) = inl (x, refl)
Checked-cases (thrown status message) = inr (status, message, refl)

abbrev pub then_with {ℓ κ} : {A : Type ℓ} {B : Type κ} → Checked A → (A → Checked B) → Checked B
then_with (done x) f = f x
then_with (thrown status message) f = thrown status message

-- The status that `require` throws by default.
abbrev pub refuse {ℓ} : {A : Type ℓ} → String → Checked A
refuse message = thrown (pos 400) message

-- What holds of a value where there is one.
abbrev pub WhenDone {ℓ} : {A : Type ℓ} → (A → Type 0) → Checked A → Type 0
WhenDone P (done x) = P x
WhenDone P (thrown status message) = Unit
