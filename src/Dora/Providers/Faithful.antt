-- ===== src/Dora/Providers/Faithful.antt =====
-- What is asked of a normalizer.
use release_engine.Prelude.{
  map, if◌then◌else◌, Bool, ℕ, String, ◌≡◌, ap, Bool, true, false, if◌then◌else◌, List, Dict,
  lookup, Result, ok, err, All, trim_space, none, some,
}
use release_engine.Dora.Events.{is_deployment, DoraEvent, Normalizer, is_event_type}
use release_engine.Dora.Providers.Commits.{header}

-- The event is the tenant's and the service's, from the source, and of a known type that is not a
-- deployment's.
pub record IsFrom (source tenant_id service_ref : String) (e : DoraEvent) : Type 0 where
  pub tenant : e.tenant_id ≡ tenant_id
  pub service : e.service_ref ≡ service_ref
  pub from : e.event_source ≡ source
  pub kind : is_event_type e.event_type ≡ true
  pub other : is_deployment e.event_type ≡ false

-- Where there are events, they satisfy `P`.
abbrev pub AllOk {ℓ} : (DoraEvent → Type ℓ) → Result String (List DoraEvent) → Type ℓ
AllOk P (ok es) = All P es
AllOk P (err e) = Unit

-- Two maps that answer alike.
abbrev pub Alike {ℓ} : {V : Type ℓ} → Dict V → Dict V → Type ℓ
Alike h k = (name : String) → lookup name h ≡ lookup name k

-- What tells whether two events are one: the tenant, the source and the source's identifier.
abbrev pub Key : Type 0
Key = String × String × String

abbrev pub key_of : DoraEvent → Key
key_of e = (e.tenant_id, e.event_source, e.source_event_id)

abbrev pub keys_of : Result String (List DoraEvent) → Result String (List Key)
keys_of (ok es) = ok (map key_of es)
keys_of (err e) = err e

-- A normalizer whose events are from its provider for the caller, which only looks headers up, and
-- for whose keys and errors the time does not matter.
pub record IsFaithful {Body : Type 0} (n : Normalizer Body) : Type 0 where
  pub from :
      (clock : ℕ → ℕ) (tenant_id service_ref : String) (headers : Dict String) (body : Body)
      → AllOk
          (IsFrom n.provider tenant_id service_ref)
          (n.normalize clock tenant_id service_ref headers body)
  pub reads :
      (clock : ℕ → ℕ) (tenant_id service_ref : String) (h k : Dict String) (body : Body)
      → Alike h k
      → n.normalize clock tenant_id service_ref h body
        ≡ n.normalize clock tenant_id service_ref k body
  pub stable :
      (c d : ℕ → ℕ) (tenant_id service_ref : String) (headers : Dict String) (body : Body)
      → keys_of (n.normalize c tenant_id service_ref headers body)
        ≡ keys_of (n.normalize d tenant_id service_ref headers body)

pub header-Alike : (name : String) (h k : Dict String) → Alike h k → header name h ≡ header name k
header-Alike name h k same = ap (λ o. elim o [ none ↦ "" | some v ↦ trim_space v ]) (same name)

pub AllOk-if {ℓ} :
    (P : DoraEvent → Type ℓ) (b : Bool) (x y : Result String (List DoraEvent))
    → AllOk P x
    → AllOk P y
    → AllOk P (if b then x else y)
AllOk-if P true x y hx hy = hx
AllOk-if P false x y hx hy = hy

pub keys_of-if :
    (b : Bool) (x y x' y' : Result String (List DoraEvent))
    → keys_of x ≡ keys_of x'
    → keys_of y ≡ keys_of y'
    → keys_of (if b then x else y) ≡ keys_of (if b then x' else y')
keys_of-if true x y x' y' hx hy = hx
keys_of-if false x y x' y' hx hy = hy
