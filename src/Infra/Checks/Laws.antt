-- ===== src/Infra/Checks/Laws.antt =====
-- What the checks of a request establish.
use release_engine.Prelude.{
  inr, inl, Bool-cases, All, eq_iff, String, ◌≡◌, ◌≢◌, ◌↔◌, ◌⊎◌, refl, Bool, true, false, not, ◌&&◌,
  List, [], ◌∷◌, ◌++◌, ◌==◌, arith,
}
use release_engine.Infra.Params.{ProvisionParams}
use release_engine.Infra.Checks.{
  required_fields, validate_provision, missing_fields, broken_rules, ParamError,
}

append_none : (xs ys : List ParamError) → (xs ++ ys ≡ []) ↔ ((xs ≡ []) × (ys ≡ []))
append_none [] ys = (λ h. (refl, h), λ (h, k). k)
append_none (x ∷ xs) ys = (λ h. cc, λ (h, k). cc)

missing_fields_lem :
    (fields : List (String × String))
    → missing_fields fields ≡ []
    → All (λ field. field.1 ≢ "") fields
unfolding missing_fields
missing_fields_lem [] h = tt
missing_fields_lem ((name, value) ∷ fields) h = elim (Bool-cases (value == "")) [
  | inl e ↦ absurd (let stuck = rw (e, missing_fields) at h in cc)
  | inr e ↦
      (ground (arith, e, eq_iff value ""), missing_fields_lem fields (rw (e, missing_fields) at h))
]

named_lem :
    (fields : List (String × String))
    → All (λ field. field.1 ≢ "") fields
    → missing_fields fields ≡ []
unfolding missing_fields
named_lem [] h = refl
named_lem ((name, value) ∷ fields) (here, there) =
    ground (arith, here, eq_iff value "", named_lem fields there)

module _ {F : Type 0} (is_date : String → Bool) where
  -- A request names what it must, and keeps the rules on recovery and on its end.
  pub record IsComplete (p : ProvisionParams F) : Type 0 where
    pub named : All (λ field. field.1 ≢ "") (required_fields p)
    pub recovery : (p.dr_required ≡ false) ⊎ (p.secondary_region ≢ "")
    pub critical :
        (p.availability ≢ "critical") ⊎ ((p.dr_required ≡ true) × (p.backup_required ≡ true))
    pub restricted : (p.data_classification ≢ "restricted") ⊎ (p.backup_required ≡ true)
    pub ends : (p.ttl ≡ "") ⊎ (is_date p.ttl ≡ true)

  broken_rules_lem :
      (p : ProvisionParams F)
      → broken_rules is_date p ≡ []
      → ((p.dr_required && p.secondary_region == "") ≡ false)
        × ((p.availability == "critical" && not p.dr_required) ≡ false)
        × ((p.availability == "critical" && not p.backup_required) ≡ false)
        × ((p.data_classification == "restricted" && not p.backup_required) ≡ false)
        × ((not (p.ttl == "") && not (is_date p.ttl)) ≡ false)
  unfolding broken_rules
  broken_rules_lem p h = ground (arith, h)

  ruled_of : (p : ProvisionParams F) → IsComplete p → broken_rules is_date p ≡ []
  unfolding broken_rules
  ruled_of p h = ground (
    arith,
    h.recovery,
    h.critical,
    h.restricted,
    h.ends,
    eq_iff p.secondary_region "",
    eq_iff p.availability "critical",
    eq_iff p.data_classification "restricted",
    eq_iff p.ttl "",
  )

  -- A request passes the global validation exactly if it names all that it must, a disaster
  -- recovery has a second region, a critical one has recovery and backup, restricted data has
  -- backup, and the end, if there is one, is a date.
  pub validate_provision_iff :
      (p : ProvisionParams F) → (validate_provision is_date p ≡ []) ↔ IsComplete p
  unfolding validate_provision
  validate_provision_iff p = (
    λ e.
        let (named, ruled) =
          (append_none (missing_fields (required_fields p)) (broken_rules is_date p)).0 e in
        let (r0, r1, r2, r3, r4) = broken_rules_lem p ruled in
        record {
          named = missing_fields_lem (required_fields p) named;
          recovery = ground (arith, r0, eq_iff p.secondary_region "");
          critical = ground (arith, r1, r2, eq_iff p.availability "critical");
          restricted = ground (arith, r3, eq_iff p.data_classification "restricted");
          ends = ground (arith, r4, eq_iff p.ttl "");
        },
    λ h.
        (append_none (missing_fields (required_fields p)) (broken_rules is_date p)).1
          (named_lem (required_fields p) h.named, ruled_of p h),
  )
