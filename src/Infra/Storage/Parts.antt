-- ===== src/Infra/Storage/Parts.antt =====
-- A property of every part that the fragments add is one of all the parts that `Render` makes.
use mathlib.Core.Path.{subst}
use release_engine.Prelude.{
  String, ◌≡◌, inl, inr, true, none, List, [], ◌∷◌, Bool-cases, Option-cases, Dict, insert, All,
  AllEntries, AllEntries-insert, ok, Result-cases,
}
use release_engine.Infra.Params.{ProvisionParams}
use release_engine.Infra.Spec.{Spec}
use release_engine.Infra.Engine.{Fragment, render_fragments, merge_parts}

module _ {F : Type 0} where
  -- The parts that a fragment may add keep a property of the parts.
  abbrev pub Keeps : (String → Spec F → Type 0) → ProvisionParams F → Fragment F (Spec F) → Type 0
  Keeps P p f =
      (part : Dict (Spec F))
      → f.validate p ≡ none
      → f.applicable p ≡ true
      → f.render p ≡ ok part
      → AllEntries P part

  merge-AllEntries :
      (P : String → Spec F → Type 0) (parts part : Dict (Spec F))
      → AllEntries P parts
      → AllEntries P part
      → AllEntries P (merge_parts parts part)
  unfolding merge_parts
  merge-AllEntries P parts [] h k = h
  merge-AllEntries P parts ((key, spec) ∷ part) h (here, there) =
      merge-AllEntries P (insert key spec parts) part (AllEntries-insert P key spec parts h here)
        there

  pub fragments-AllEntries :
      (P : String → Spec F → Type 0) (p : ProvisionParams F) (fs : List (Fragment F (Spec F)))
      (parts parts' : Dict (Spec F))
      → All (Keeps P p) fs
      → AllEntries P parts
      → render_fragments p fs parts ≡ ok parts'
      → AllEntries P parts'
  unfolding render_fragments
  fragments-AllEntries P p [] parts parts' keep h done =
      let same : parts ≡ parts' = cc in subst (λ m. AllEntries P m) same h
  fragments-AllEntries P p (f ∷ fs) parts parts' (here, there) h done =
      elim (Bool-cases (f.applicable p)) [
        | inr off ↦
            fragments-AllEntries P p fs parts parts' there h (rw (off, render_fragments) at done)
        | inl on ↦ elim (Option-cases (f.validate p)) [
          | inr (message, bad) ↦ absurd (let stuck = rw (on, bad, render_fragments) at done in cc)
          | inl fine ↦ elim (Result-cases (f.render p)) [
            | inr (message, bad) ↦
                absurd (let stuck = rw (on, fine, bad, render_fragments) at done in cc)
            | inl (part, made) ↦
                fragments-AllEntries P p fs (merge_parts parts part) parts' there
                  (merge-AllEntries P parts part h (here part fine on made))
                  (rw (on, fine, made, render_fragments) at done)
          ]
        ]
      ]
