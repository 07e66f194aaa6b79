-- ===== src/Common/Results.antt =====
-- Calls that may throw. A C++ exception leaves the state as it was at the throw.
use mathlib.Core.Path.{◌≡◌, refl}
use mathlib.Core.Logic.{◌⊎◌, inl, inr}

-- The `runtime_error`s that the modelled code throws, by what they say.
pub data Error : Type 0 where
  map_full : Error
  not_from_map : Error
  too_few_shares : Error
  no_orders : Error
  send_failed : Error
  connect_failed : Error

pub data Result {ℓ} (A : Type ℓ) : Type ℓ where
  done : A → Result A
  threw : Error → A → Result A

-- The state that a call leaves, returned or thrown from.
abbrev pub state {ℓ} : {A : Type ℓ} → Result A → A
state (done a) = a
state (threw e a) = a

pub Result-cases {ℓ} :
    {A : Type ℓ} (r : Result A)
    → ((a : A) × (r ≡ done a)) ⊎ ((e : Error) × (a : A) × (r ≡ threw e a))
Result-cases (done a) = inl (a, refl)
Result-cases (threw e a) = inr (e, a, refl)
