-- ===== src/Dora/Headers/Laws.antt =====
-- Headers survive the dead letter.
use mathlib.Core.Path.{subst}
use release_engine.Prelude.{
  String, ◌≡◌, refl, false, none, some, Option, List, [], ◌∷◌, Dict, lookup, insert, lookup-insert,
  Distinct, ok, eq_iff, eq_refl, arith, Bool-cases, inl, inr, ◌==◌, ◌≢◌,
}
use release_engine.Dora.Events.{FoldLibrary, provider_key}
use release_engine.Dora.Providers.Faithful.{Alike}
use release_engine.Dora.Headers.{
  header_maps, parse_stored_headers, header_loop, flatten, HeaderLibrary,
}

-- `json.Unmarshal` reads back the map that `json.Marshal` wrote, in an order of its own.
pub record IsCodec (lib : HeaderLibrary) : Type 0 where
  pub filled : (m : Dict (List String)) → lib.is_blank (lib.encode m) ≡ false
  pub object : (m : Dict (List String)) → lib.not_object (lib.encode m) ≡ none
  pub reads :
      (m : Dict (List String))
      → (read : Dict (List String)) × (lib.decode_multi (lib.encode m) ≡ some read)
        × Distinct read
        × Alike read m

-- The first of a header's values, where there is one.
first_of : Option (List String) → Option String → Option String
first_of none other = other
first_of (some []) other = other
first_of (some (v ∷ vs)) other = some v

-- An entry of the rest of a map without repeated keys is one of the whole.
lookup_tail {ℓ} :
    {V : Type ℓ} (k j : String) (u v : V) (rest : Dict V)
    → lookup k rest ≡ none
    → lookup j rest ≡ some v
    → lookup j ((k, u) ∷ rest) ≡ some v
unfolding lookup
lookup_tail k j u v rest new at = ground (arith, eq_iff k j)

module _ (folds : FoldLibrary) where
  -- A name as `headerMaps` writes it: lower case, without white space around it.
  abbrev pub IsPlain : String → Type 0
  IsPlain name = provider_key folds name ≡ name

  -- Every header has a value, and its name in lower case is plain. `net/http` reads no others.
  abbrev pub AllPlain : Dict (List String) → Type 0
  AllPlain [] = Unit
  AllPlain ((k, vs) ∷ rest) = (vs ≢ []) × IsPlain (folds.to_lower k) × AllPlain rest

  lookup-flatten :
      (m : Dict (List String)) (out : Dict String) (name : String)
      → Distinct m
      → ((k : String) (vs : List String) → lookup k m ≡ some vs → IsPlain k)
      → lookup name (flatten folds m out) ≡ first_of (lookup name m) (lookup name out)
  unfolding flatten first_of lookup
  lookup-flatten [] out name d plain = refl
  lookup-flatten ((k, []) ∷ rest) out name (new, d) plain =
      let later =
        lookup-flatten rest out name d
          (λ j vs at. plain j vs (lookup_tail k j [] vs rest new at)) in
      elim (Bool-cases (k == name)) [
        | inl same ↦
            let gone : lookup name rest ≡ none = rw (← (eq_iff k name).0 same) new in
            rw (same, later, gone) refl
        | inr other ↦ rw other later
      ]
  lookup-flatten ((k, v ∷ vs) ∷ rest) out name (new, d) plain =
      let at_k = plain k (v ∷ vs) (rw eq_refl refl) in
      let later =
        lookup-flatten rest (insert (provider_key folds k) v out) name d
          (λ j ws at. plain j ws (lookup_tail k j (v ∷ vs) ws rest new at)) in
      elim (Bool-cases (k == name)) [
        | inl same ↦
            let gone : lookup name rest ≡ none = rw (← (eq_iff k name).0 same) new in
            rw (same, later, gone, at_k, lookup-insert) (rw same refl)
        | inr other ↦ rw (other, later, at_k, lookup-insert, other) refl
      ]

  -- The two maps of `headerMaps` so far: they agree, and their names are plain.
  record IsAgreed (multi : Dict (List String)) (flat : Dict String) : Type 0 where
    firsts : (name : String) → lookup name flat ≡ first_of (lookup name multi) none
    plain : (name : String) (vs : List String) → lookup name multi ≡ some vs → IsPlain name

  insert-IsAgreed :
      (key v : String) (vs : List String) (multi : Dict (List String)) (flat : Dict String)
      → IsPlain key
      → IsAgreed multi flat
      → IsAgreed (insert key (v ∷ vs) multi) (insert key v flat)
  unfolding first_of
  insert-IsAgreed key v vs multi flat p a = record {
    firsts = λ name. elim (Bool-cases (key == name)) [
      | inl same ↦
          rw (lookup-insert key name v flat, lookup-insert key name (v ∷ vs) multi, same) refl
      | inr other ↦
          rw (lookup-insert key name v flat, lookup-insert key name (v ∷ vs) multi, other)
            (a.firsts name)
    ];
    plain = λ name ws at. elim (Bool-cases (key == name)) [
      | inl same ↦ subst IsPlain ((eq_iff key name).0 same) p
      | inr other ↦ a.plain name ws (rw (lookup-insert, other) at at)
    ];
  }

  header_loop-IsAgreed :
      (request multi : Dict (List String)) (flat : Dict String)
      → AllPlain request
      → IsAgreed multi flat
      → IsAgreed (header_loop folds request multi flat).0 (header_loop folds request multi flat).1
  unfolding header_loop
  header_loop-IsAgreed [] multi flat h a = a
  header_loop-IsAgreed ((k, []) ∷ rest) multi flat (some_value, p, h) a = absurd (some_value refl)
  header_loop-IsAgreed ((k, v ∷ vs) ∷ rest) multi flat (some_value, p, h) a =
      let key = folds.to_lower k in
      header_loop-IsAgreed rest (insert key (v ∷ vs) multi) (insert key v flat) h
        (insert-IsAgreed key v vs multi flat p a)

  -- Of a request whose headers have plain names and values, the headers that are read back from a
  -- dead letter answer every lookup as the map that the normalizer was given.
  pub parse_stored_headers-header_maps :
      (lib : HeaderLibrary) (request : Dict (List String))
      → IsCodec lib
      → AllPlain request
      → (read : Dict String) × (parse_stored_headers folds lib
            (lib.encode (header_maps folds request).0)
          ≡ ok read)
        × Alike read (header_maps folds request).1
  unfolding parse_stored_headers header_maps first_of lookup
  parse_stored_headers-header_maps lib request codec h =
      let multi = (header_loop folds request [] []).0 in
      let agreed =
        header_loop-IsAgreed request [] [] h
          (record { firsts = λ name. refl; plain = λ name vs at. absurd cc }) in
      let (m, decoded, distinct, alike) = codec.reads multi in
      (
        flatten folds m [],
        rw (codec.filled multi, codec.object multi, decoded) refl,
        λ name.
            rw
              (
                lookup-flatten m [] name distinct
                    (λ k vs at. agreed.plain k vs (rw (alike k) at at)),
                agreed.firsts name,
                alike name,
              )
              refl,
      )
