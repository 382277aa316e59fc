-- ===== src/Connectors/Setup/Laws.antt =====
-- The default policy family next to the typed resolver of policy connectors.
use text.Mathlib.TextLemmas.{cons-append}
use mathlib.Core.Path.{subst}
use release_engine.Prelude.{
  ap, eq_iff, Bool-cases, ◌==◌, Bool, sym, ◌∙◌, String, ◌<>◌, ◌≡◌, refl, inl, inr, false, true,
  Option-cases, ok, lookup,
}
use release_engine.Connectors.Types.{Connector}
use release_engine.Connectors.Registry.{
  Registry, find, found, other_key, strip_prefix, resolve_policy,
}
use release_engine.Connectors.Registry.Laws.{IsKeyed, found_key}
use release_engine.Connectors.Family.{has_member}
use release_engine.Connectors.Setup.{policy_family}
use mathlib.Core.Path.{subst}

-- The text begins with an o.
abbrev begins_o : String → Bool
begins_o String.[] = false
begins_o (String.◌∷◌ c s) = String.◌∷◌ c String.[] == "o"

begins_o-other : (tech : String) → begins_o ("other-" <> tech) ≡ true
begins_o-other tech = let e = cons-append "o" "ther-" tech in ap begins_o e

apart : (s tech : String) → begins_o s ≡ false → (s == "other-" <> tech) ≡ false
apart s tech h = elim (Bool-cases (s == "other-" <> tech)) [
  | inr e ↦ e
  | inl e ↦
      let same = (eq_iff s ("other-" <> tech)).0 e in
      absurd (let clash = sym (ap begins_o same ∙ begins_o-other tech) ∙ h in cc)
]

other_member : (tech : String) → has_member ("other-" <> tech) policy_family ≡ false
unfolding has_member
other_member tech =
    rw
      (
        apart "policy-embedded" tech refl,
        apart "policy-pmock" tech refl,
        apart "policy-opa" tech refl,
      )
      refl

other_key-other :
    (prefix name : String) → (tech : String) × (other_key prefix name ≡ "other-" <> tech)
unfolding other_key
other_key-other prefix name = elim (Option-cases (strip_prefix prefix name)) [
  | inl e ↦ (name, rw (e, other_key) refl)
  | inr (tech, e) ↦ (tech, rw (e, other_key) refl)
]

module _ {I O : Type 0} where
  -- Where connectors are filed under their keys, ResolvePolicy never returns a member of the
  -- default policy family: not for "embedded" or "policy-embedded", nor for any other name.
  pub resolve_policy_foreign :
      (name : String) (r : Registry I O) (c : Connector I O)
      → IsKeyed r
      → resolve_policy name r ≡ ok c
      → has_member c.key policy_family ≡ false
  unfolding resolve_policy find
  resolve_policy_foreign name r c keyed done =
      let (tech, e) = other_key-other "policy-" name in
      elim (Option-cases (lookup (other_key "policy-" name) r.connectors)) [
        | inl none_found ↦ let stuck = rw (none_found, found) at done in absurd cc
        | inr (d, hit) ↦
            let same = rw (hit, found) at done in
            let one : d ≡ c = cc in
            let key : c.key ≡ "other-" <> tech = found_key _ r c keyed (rw (hit, one)) ∙ e in
            subst (λ k. has_member k policy_family ≡ false) (sym key) (other_member tech)
      ]
