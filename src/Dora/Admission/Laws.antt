-- ===== src/Dora/Admission/Laws.antt =====
-- Whom `authorize` admits.
use mathlib.Core.Path.{subst}
use mathlib.Core.List.{Memᴰ}
use release_engine.Prelude.{
  eq_refl, any_of_mem, any-find, ℕ, String, ◌+◌, ◌-◌, ◌≤◌, true, false, ◌≡◌, ◌≢◌, ◌↔◌, ◌⊎◌, refl,
  none, some, List, [], ◌∷◌, Bool-cases, Option-cases, inl, inr, arith, eq_iff, trim_space, ltb,
  leb, ◌==◌, not, ◌&&◌, ◌||◌,
}
use release_engine.Access.Auth.{AuthClaims}
use release_engine.Approval.Policy.{contains}
use release_engine.Dora.Admission.{
  authorize, check_synced, DoraCaller, in_group, group_map_ttl, last_synced, BrandRow,
}

-- A row of the group that is not older than the limit.
abbrev pub IsRecent : ℕ → String → String → BrandRow → Type 0
IsRecent now tenant_id group_id r =
    (r.tenant_id ≡ tenant_id) × (r.group_id ≡ group_id) × (now ≤ r.last_synced_at + group_map_ttl)

in_group-true :
    (t g : String) (r : BrandRow) → in_group t g r ≡ true → (r.tenant_id ≡ t) × (r.group_id ≡ g)
in_group-true t g r h = ground (arith, eq_iff r.tenant_id t, eq_iff r.group_id g)

true-in_group :
    (t g : String) (r : BrandRow) → r.tenant_id ≡ t → r.group_id ≡ g → in_group t g r ≡ true
true-in_group t g r a b = rw ((eq_iff r.tenant_id t).1 a, (eq_iff r.group_id g).1 b) refl

-- The latest synchronisation is not older than the limit just where some row's is not.
last_synced-IsRecent :
    (now : ℕ) (t g : String) (rows : List BrandRow)
    → (at : ℕ) → last_synced t g rows ≡ some at
    → now ≤ at + group_map_ttl
    → (r : BrandRow) × Memᴰ r rows × IsRecent now t g r
unfolding last_synced
last_synced-IsRecent now t g [] at e h = absurd cc
last_synced-IsRecent now t g (r ∷ rs) at e h = elim (Bool-cases (in_group t g r)) [
  | inr other ↦
      let (x, m, p) = last_synced-IsRecent now t g rs at (rw (other, last_synced) at e) h in
      (x, Memᴰ.tail m, p)
  | inl mine ↦ elim (Option-cases (last_synced t g rs)) [
    | inl alone ↦
        let same = rw (mine, alone, last_synced) at e in
        let one : r.last_synced_at ≡ at = cc in
        let (a, b) = in_group-true t g r mine in (r, Memᴰ.head refl, (a, b, rw one h))
    | inr (u, rest) ↦
        let (a, b) = in_group-true t g r mine in
        elim (Bool-cases (leb r.last_synced_at u)) [
          | inl older ↦
              let same = rw (mine, rest, older, last_synced) at e in
              let one : u ≡ at = cc in
              let (x, m, p) = last_synced-IsRecent now t g rs u rest (rw one h) in
              (x, Memᴰ.tail m, p)
          | inr newer ↦
              let same = rw (mine, rest, newer, last_synced) at e in
              let one : r.last_synced_at ≡ at = cc in (r, Memᴰ.head refl, (a, b, rw one h))
        ]
  ]
]

IsRecent-last_synced :
    (now : ℕ) (t g : String) (rows : List BrandRow) (r : BrandRow)
    → Memᴰ r rows
    → IsRecent now t g r
    → (at : ℕ) × (last_synced t g rows ≡ some at) × (now ≤ at + group_map_ttl)
unfolding last_synced
IsRecent-last_synced now t g [] r m p = elim m [ ]
IsRecent-last_synced now t g (x ∷ rs) r (Memᴰ.head e) p =
    let (a, b, near) = subst (IsRecent now t g) e p in
    let mine = true-in_group t g x a b in
    elim (Option-cases (last_synced t g rs)) [
      | inl alone ↦ (x.last_synced_at, rw (mine, alone, last_synced) refl, near)
      | inr (u, rest) ↦ elim (Bool-cases (leb x.last_synced_at u)) [
        | inl older ↦ (u, rw (mine, rest, older, last_synced) refl, ground arith)
        | inr newer ↦ (x.last_synced_at, rw (mine, rest, newer, last_synced) refl, near)
      ]
    ]
IsRecent-last_synced now t g (x ∷ rs) r (Memᴰ.tail m) p =
    let (u, rest, near) = IsRecent-last_synced now t g rs r m p in
    elim (Bool-cases (in_group t g x)) [
      | inr other ↦ (u, rw (other, rest, last_synced) refl, near)
      | inl mine ↦ elim (Bool-cases (leb x.last_synced_at u)) [
        | inl older ↦ (u, rw (mine, rest, older, last_synced) refl, near)
        | inr newer ↦ (x.last_synced_at, rw (mine, rest, newer, last_synced) refl, ground arith)
      ]
    ]

pub contains_iff : (xs : List String) (x : String) → (contains xs x ≡ true) ↔ Memᴰ x xs
unfolding contains
contains_iff xs x = (found, there)
  where
    found : contains xs x ≡ true → Memᴰ x xs
    found h =
        let (y, m, e) = any-find (λ v. v == x) xs h in subst (λ v. Memᴰ v xs) ((eq_iff y x).0 e) m

    there : Memᴰ x xs → contains xs x ≡ true
    there m = any_of_mem (λ v. v == x) xs m (eq_refl x)

-- The database shows a row of the caller's group that is recent.
abbrev pub IsSynced : DoraCaller → String → String → Type 0
IsSynced c tenant_id group_id =
    (c.pool ≡ true)
    × (c.acquires ≡ true)
    × (c.query_fails ≡ false)
    × ((r : BrandRow) × Memᴰ r c.brands × IsRecent c.now tenant_id group_id r)

-- The claims name no tenant or this one, and the caller asks for one brand of the claims or for one
-- synchronised group of them.
abbrev pub IsAdmitted : DoraCaller → AuthClaims → String → Type 0
IsAdmitted c claims tenant_id =
    ((claims.tenant_id ≡ "") ⊎ (claims.tenant_id ≡ tenant_id))
    × (((trim_space c.brand_id ≢ "")
          × (trim_space c.group_id ≡ "")
          × Memᴰ (trim_space c.brand_id) claims.brand_ids)
        ⊎ ((trim_space c.brand_id ≡ "")
            × (trim_space c.group_id ≢ "")
            × Memᴰ (trim_space c.group_id) claims.group_ids
            × IsSynced c tenant_id (trim_space c.group_id)))

check_synced_iff : (t g : String) (c : DoraCaller) → (check_synced t g c ≡ none) ↔ IsSynced c t g
unfolding check_synced
check_synced_iff t g c = (found, there)
  where
    found : check_synced t g c ≡ none → IsSynced c t g
    found h = elim (Bool-cases (not c.pool || not c.acquires || c.query_fails)) [
      | inl down ↦ let stuck = rw (down, check_synced) at h in absurd cc
      | inr up ↦ elim (Option-cases (last_synced t g c.brands)) [
        | inl missing ↦ let stuck = rw (up, missing, check_synced) at h in absurd cc
        | inr (at, e) ↦ elim (Bool-cases (ltb group_map_ttl (c.now - at))) [
          | inl old ↦ let stuck = rw (up, e, old, check_synced) at h in absurd cc
          | inr near ↦ (
            ground arith,
            ground arith,
            ground arith,
            last_synced-IsRecent c.now t g c.brands at e (ground arith),
          )
        ]
      ]
    ]

    there : IsSynced c t g → check_synced t g c ≡ none
    there (p, a, q, (r, m, near)) =
        let (at, e, recent) = IsRecent-last_synced c.now t g c.brands r m near in
        let fresh : ltb group_map_ttl (c.now - at) ≡ false = ground arith in
        rw (p, a, q, e, fresh, check_synced) refl

ne_test : (s t : String) → s ≢ t → (s == t) ≡ false
ne_test s t h = elim (Bool-cases (s == t)) [
  | inl same ↦ absurd (h ((eq_iff s t).0 same))
  | inr other ↦ other
]

test_ne : (s t : String) → (s == t) ≡ false → s ≢ t
test_ne s t h same = let hit = (eq_iff s t).1 same in absurd cc

-- Of a caller with claims, `authorize` writes no answer just where these name no tenant or the one
-- asked for, and the caller asks for one brand of the claims, or for one group of the claims of which
-- the database shows a row synchronised within the last 15 minutes.
pub authorize_iff :
    (c : DoraCaller) (claims : AuthClaims) (tenant_id : String)
    → c.claims ≡ some claims
    → (authorize c tenant_id ≡ none) ↔ IsAdmitted c claims tenant_id
unfolding authorize
authorize_iff c claims tenant_id known = (found, there)
  where
    found : authorize c tenant_id ≡ none → IsAdmitted c claims tenant_id
    found h =
        let brand = trim_space c.brand_id in
        let group = trim_space c.group_id in
        elim (Bool-cases (not (claims.tenant_id == "") && not (claims.tenant_id == tenant_id))) [
          | inl foreign ↦ let stuck = rw (known, foreign, authorize) at h in absurd cc
          | inr own ↦
              let tenant = own_tenant own in
              elim (Bool-cases (brand == "")) [
                | inl no_brand ↦ elim (Bool-cases (group == "")) [
                  | inl none_given ↦
                      let stuck = rw (known, own, no_brand, none_given, authorize) at h in absurd cc
                  | inr by_group ↦ elim (Bool-cases (contains claims.group_ids group)) [
                    | inr foreign ↦
                        let stuck = rw (known, own, no_brand, by_group, foreign, authorize) at h in
                        absurd cc
                    | inl mine ↦ (
                      tenant,
                      inr (
                        (eq_iff brand "").0 no_brand,
                        test_ne group "" by_group,
                        (contains_iff claims.group_ids group).0 mine,
                        (check_synced_iff tenant_id group c).0
                            (rw (known, own, no_brand, by_group, mine, authorize) at h),
                      ),
                    )
                  ]
                ]
                | inr by_brand ↦ elim (Bool-cases (group == "")) [
                  | inr both_given ↦
                      let stuck = rw (known, own, by_brand, both_given, authorize) at h in absurd cc
                  | inl no_group ↦ elim (Bool-cases (contains claims.brand_ids brand)) [
                    | inr foreign ↦
                        let stuck = rw (known, own, by_brand, no_group, foreign, authorize) at h in
                        absurd cc
                    | inl mine ↦ (
                      tenant,
                      inl (
                        test_ne brand "" by_brand,
                        (eq_iff group "").0 no_group,
                        (contains_iff claims.brand_ids brand).0 mine,
                      ),
                    )
                  ]
                ]
              ]
        ]
      where
        own_tenant :
            (not (claims.tenant_id == "") && not (claims.tenant_id == tenant_id)) ≡ false
            → (claims.tenant_id ≡ "") ⊎ (claims.tenant_id ≡ tenant_id)
        own_tenant own = elim (Bool-cases (claims.tenant_id == "")) [
          | inl blank ↦ inl ((eq_iff claims.tenant_id "").0 blank)
          | inr named ↦ inr ((eq_iff claims.tenant_id tenant_id).0 (ground arith))
        ]

    own_test :
        (claims.tenant_id ≡ "") ⊎ (claims.tenant_id ≡ tenant_id)
        → (not (claims.tenant_id == "") && not (claims.tenant_id == tenant_id)) ≡ false
    own_test (inl blank) = rw ((eq_iff claims.tenant_id "").1 blank) refl
    own_test (inr same) = rw ((eq_iff claims.tenant_id tenant_id).1 same) (ground arith)

    there : IsAdmitted c claims tenant_id → authorize c tenant_id ≡ none
    there (tenant, inl (b, g, m)) =
        rw
          (
            known,
            own_test tenant,
            ne_test (trim_space c.brand_id) "" b,
            (eq_iff (trim_space c.group_id) "").1 g,
            (contains_iff claims.brand_ids (trim_space c.brand_id)).1 m,
            authorize,
          )
          refl
    there (tenant, inr (b, g, m, s)) =
        rw
          (
            known,
            own_test tenant,
            (eq_iff (trim_space c.brand_id) "").1 b,
            ne_test (trim_space c.group_id) "" g,
            (contains_iff claims.group_ids (trim_space c.group_id)).1 m,
            authorize,
          )
          ((check_synced_iff tenant_id (trim_space c.group_id) c).1 s)
