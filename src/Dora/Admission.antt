-- ===== src/Dora/Admission.antt =====
-- `authorize` (internal/transport/http/dora_handler.go) over the table `dora_group_brand_map`.
pub mod Laws
use release_engine.Prelude.{
  ℕ, String, ◌-◌, ◌*◌, Bool, true, false, not, ◌&&◌, ◌||◌, Option, none, some, List, [], ◌∷◌, ◌++◌,
  ◌==◌, if◌then◌else◌, trim_space, ltb, leb,
}
use release_engine.Access.Auth.{AuthClaims}
use release_engine.Approval.Policy.{contains}

pub record BrandRow : Type 0 where
  pub group_id : String
  pub brand_id : String
  pub tenant_id : String
  pub classification_version : String
  pub last_synced_at : ℕ

abbrev pub in_group : String → String → BrandRow → Bool
in_group tenant_id group_id r = r.tenant_id == tenant_id && r.group_id == group_id

-- The greater of two instants, of which the first may be missing.
abbrev pub later : Option ℕ → ℕ → ℕ
later none t = t
later (some u) t = if leb t u then u else t

-- SELECT MAX(last_synced_at); the NULL of no rows cannot be scanned.
unfoldable pub last_synced : String → String → List BrandRow → Option ℕ
last_synced tenant_id group_id [] = none
last_synced tenant_id group_id (r ∷ rs) =
    let rest = last_synced tenant_id group_id rs in
    if in_group tenant_id group_id r then some (later rest r.last_synced_at) else rest

-- What `authorize` finds: the claims that the middleware left, the query's values, the pool, whether a
-- connection and the query succeed, the rows, and the clock.
pub record DoraCaller : Type 0 where
  pub claims : Option AuthClaims
  pub brand_id : String
  pub group_id : String
  pub pool : Bool
  pub acquires : Bool
  pub query_fails : Bool
  pub brands : List BrandRow
  pub now : ℕ

-- The status and the code of an answer.
abbrev pub Denial : Type 0
Denial = ℕ × String

-- `groupMapTTL`: 15 minutes.
abbrev pub group_map_ttl : ℕ
group_map_ttl = 900_000_000_000

abbrev pub forbidden : Option Denial
forbidden = some (403, "FORBIDDEN")

abbrev pub stale : Option Denial
stale = some (503, "group_map_stale")

-- `now.Sub(lastSyncedAt) > groupMapTTL`
unfoldable pub check_synced : String → String → DoraCaller → Option Denial
check_synced tenant_id group_id c =
    if not c.pool || not c.acquires || c.query_fails
    then stale
    else elim (last_synced tenant_id group_id c.brands) [
      | none ↦ stale
      | some at ↦ if ltb group_map_ttl (c.now - at) then stale else none
    ]

-- The answer that `authorize` writes; `none` where it writes none.
unfoldable pub authorize : DoraCaller → String → Option Denial
unfolding check_synced
authorize c tenant_id = elim c.claims [
  | none ↦ forbidden
  | some claims ↦
      let brand = trim_space c.brand_id in
      let group = trim_space c.group_id in
      if not (claims.tenant_id == "") && not (claims.tenant_id == tenant_id)
      then forbidden
      else if (brand == "" && group == "") || (not (brand == "") && not (group == ""))
      then forbidden
      else if not (brand == "")
      then if contains claims.brand_ids brand then none else forbidden
      else if contains claims.group_ids group
      then check_synced tenant_id group c
      else forbidden
]

-- Whether a handler stops at `authorize`: `c.JSON`, whose error it returns, fails only where the answer
-- cannot be written.
abbrev pub stops : (write_fails : Bool) → Option Denial → Bool
stops write_fails none = false
stops write_fails (some denial) = write_fails
