-- ===== src/Jobs/Claim/Order.antt =====
-- The order of claims is total and transitive, and so decides which rows are among the first ten.
use release_engine.Prelude.{
  ℕ, ◌≤◌, ◌<◌, ◌≡◌, refl, ◌⊎◌, Bool, true, false, arith, ltb, leb, if◌then◌else◌, IsTotal,
  IsTransitive,
}
use release_engine.Jobs.Table.{Job}
use release_engine.Jobs.Claim.{rank, nulls_first, claims_before}

-- Three numbers in the order of the dictionary.
lex : (a b c x y z : ℕ) → Bool
lex a b c x y z =
    if ltb a x
    then true
    else if ltb x a
    then false
    else if ltb b y
    then true
    else if ltb y b
    then false
    else leb c z

abbrev Lex : (a b c x y z : ℕ) → Type 0
Lex a b c x y z = (a < x) ⊎ ((a ≡ x) × ((b < y) ⊎ ((b ≡ y) × (c ≤ z))))

lex→Lex : (a b c x y z : ℕ) → lex a b c x y z ≡ true → Lex a b c x y z
unfolding lex
lex→Lex a b c x y z h = ground arith

Lex→lex : (a b c x y z : ℕ) → Lex a b c x y z → lex a b c x y z ≡ true
unfolding lex
Lex→lex a b c x y z h = ground arith

Lex-trans : (a b c x y z u v w : ℕ) → Lex a b c x y z → Lex x y z u v w → Lex a b c u v w
Lex-trans a b c x y z u v w h k = ground arith

abbrev ordered : Job → Job → Bool
ordered j k =
    lex (rank j) (nulls_first j.next_run_at) (nulls_first j.lease_expires_at) (rank k)
      (nulls_first k.next_run_at) (nulls_first k.lease_expires_at)

claims_before_lem : (j k : Job) → claims_before j k ≡ ordered j k
unfolding claims_before lex
claims_before_lem j k = refl

pub claims_before-IsTotal : IsTotal claims_before
unfolding claims_before
claims_before-IsTotal a b = ground arith

Job-Lex : Job → Job → Type 0
Job-Lex j k =
    Lex (rank j) (nulls_first j.next_run_at) (nulls_first j.lease_expires_at) (rank k)
      (nulls_first k.next_run_at) (nulls_first k.lease_expires_at)

to_Lex : (j k : Job) → claims_before j k ≡ true → Job-Lex j k
unfolding Job-Lex
to_Lex j k h = lex→Lex _ _ _ _ _ _ (rw claims_before_lem at h)

of_Lex : (j k : Job) → Job-Lex j k → claims_before j k ≡ true
unfolding Job-Lex
of_Lex j k h = rw claims_before_lem (Lex→lex _ _ _ _ _ _ h)

pub claims_before-IsTransitive : IsTransitive claims_before
unfolding Job-Lex
claims_before-IsTransitive a b c h k =
    of_Lex a c (Lex-trans _ _ _ _ _ _ _ _ _ (to_Lex a b h) (to_Lex b c k))
