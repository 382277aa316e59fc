-- ===== src/Connectors/Registry/Laws.antt =====
-- The registry over any sequence of calls.
use release_engine.Prelude.{
  lookup-insert, String, ◌≡◌, refl, true, some, List, [], ◌∷◌, eq_iff, arith, AllEntries,
  AllEntries-insert, AllEntries-lookup, is_some,
}
use release_engine.Connectors.Types.{Connector}
use release_engine.Connectors.Registry.{Registry, register, replace, close, find}

pub data Call (I O : Type 0) : Type 0 where
  registers replaces : Connector I O → Call I O
  closes : Call I O

module _ {I O : Type 0} where
  unfoldable pub step : Registry I O → Call I O → Registry I O
  step r (registers c) = (register c r).0
  step r (replaces c) = (replace c r).0
  step r closes = (close r).0

  unfoldable pub run : Registry I O → List (Call I O) → Registry I O
  run r [] = r
  run r (c ∷ cs) = run (step r c) cs

  -- Each connector is filed under its key.
  abbrev pub IsKeyed : Registry I O → Type 0
  IsKeyed r = AllEntries (λ k c. c.key ≡ k) r.connectors

  step-IsKeyed : (r : Registry I O) (c : Call I O) → IsKeyed r → IsKeyed (step r c)
  unfolding step register replace close
  step-IsKeyed r (registers c) h =
      let set =
        AllEntries-insert (λ k (c : Connector I O). c.key ≡ k) c.key c r.connectors h refl in
      ground (arith, h, set)
  step-IsKeyed r (replaces c) h =
      let set =
        AllEntries-insert (λ k (c : Connector I O). c.key ≡ k) c.key c r.connectors h refl in
      ground (arith, h, set)
  step-IsKeyed r closes h = ground (arith, h)

  step_keeps :
      (k : String) (r : Registry I O) (d : Call I O)
      → is_some (find k r) ≡ true
      → is_some (find k (step r d)) ≡ true
  unfolding step register replace close find
  step_keeps k r (registers d) h =
      ground (arith, h, lookup-insert d.key k d r.connectors, eq_iff d.key k)
  step_keeps k r (replaces d) h =
      ground (arith, h, lookup-insert d.key k d r.connectors, eq_iff d.key k)
  step_keeps k r closes h = ground (arith, h)

  step_closed : (r : Registry I O) (d : Call I O) → r.closed ≡ true → step r d ≡ r
  unfolding step register replace close
  step_closed r (registers d) h = ground (arith, h)
  step_closed r (replaces d) h = ground (arith, h)
  step_closed r closes h = ground (arith, h)

  -- In a registry whose connectors are filed under their keys, after any registrations,
  -- replacements and closings, every connector is filed under its key, and each key that had a
  -- connector has one.
  pub run-IsKeyed :
      (r : Registry I O) (cs : List (Call I O))
      → IsKeyed r
      → IsKeyed (run r cs)
        × ((k : String) → is_some (find k r) ≡ true → is_some (find k (run r cs)) ≡ true)
  unfolding run
  run-IsKeyed r [] h = (h, λ k found. found)
  run-IsKeyed r (c ∷ cs) h =
      let (keyed, kept) = run-IsKeyed (step r c) cs (step-IsKeyed r c h) in
      (keyed, λ k found. kept k (step_keeps k r c found))

  -- A closed registry never changes again.
  pub run_closed : (r : Registry I O) (cs : List (Call I O)) → r.closed ≡ true → run r cs ≡ r
  unfolding run
  run_closed r [] h = refl
  run_closed r (c ∷ cs) h = let same = step_closed r c h in rw same (run_closed r cs h)

  pub found_key :
      (key : String) (r : Registry I O) (c : Connector I O)
      → IsKeyed r
      → find key r ≡ some c
      → c.key ≡ key
  unfolding find
  found_key key r c h e =
      AllEntries-lookup (λ k (c : Connector I O). c.key ≡ k) key c r.connectors h e
