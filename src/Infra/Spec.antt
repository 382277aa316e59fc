-- ===== src/Infra/Spec.antt =====
-- What the fragments of internal/module/infra/template/fragments render: a map that is written once for each
-- key is a dictionary in the order of its writes.
use release_engine.Prelude.{
  String, Bool, true, not, ◌&&◌, Option, none, some, List, [], ◌∷◌, ◌==◌, if◌then◌else◌, Dict,
}
use release_engine.Prelude.Int.{ℤ}
use release_engine.Infra.Params.{ProvisionParams}

pub data Scalar (F : Type 0) : Type 0 where
  text : (value : String) → Scalar F
  number : (value : ℤ) → Scalar F
  real : (value : F) → Scalar F
  flag : (value : Bool) → Scalar F

-- A value of a capability's specification.
pub data SpecValue (F : Type 0) : Type 0 where
  plain : (value : Scalar F) → SpecValue F
  object : (fields : Dict (Scalar F)) → SpecValue F
  objects : (items : List (Dict (Scalar F))) → SpecValue F

abbrev pub Spec : Type 0 → Type 0
Spec F = Dict (SpecValue F)

-- The entries that an `if` writes.
abbrev pub written {ℓ} : {A : Type ℓ} → Bool → List A → List A
written b entries = if b then entries else []

-- The first of the conditions that holds gives the error.
unfoldable pub first_message : List (Bool × String) → Option String
first_message [] = none
first_message ((bad, message) ∷ rest) =
    let later = first_message rest in if bad then some message else later

module _ {F : Type 0} where
  abbrev pub entry : String → Scalar F → String × SpecValue F
  entry key value = (key, plain value)

  -- `params.DRRequired && params.SecondaryRegion != ""`
  abbrev pub has_recovery : ProvisionParams F → Bool
  has_recovery p = p.dr_required && not (p.secondary_region == "")

  abbrev pub replication : ProvisionParams F → Spec F
  replication p = written (has_recovery p) (
      (
        "replication",
        object (("enabled", flag true) ∷ ("destinationRegion", text p.secondary_region) ∷ []),
      )
      ∷ [])
