-- ===== src/Dora/Headers.antt =====
-- `headerMaps` and `parseStoredHeaderMap` (internal/transport/http/dora_handler.go): the headers of a
-- webhook, as the normalizers see them and as a dead letter keeps them.
pub mod Laws
use release_engine.Prelude.{
  String, Bool, Option, none, some, List, [], ◌∷◌, if◌then◌else◌, Dict, insert, Result, ok, err,
}
use release_engine.Dora.Events.{FoldLibrary, provider_key}

-- A column `headers jsonb`: `len(headersJSON) == 0`, `json.Marshal` of the headers with the cast to
-- jsonb, and `json.Unmarshal` into the three types of map, of which the first gives the text of an error.
pub record HeaderLibrary : Type 1 where
  pub Stored : Type 0
  pub is_blank : Stored → Bool
  pub encode : Dict (List String) → Stored
  pub not_object : Stored → Option String
  pub decode_multi : Stored → Option (Dict (List String))
  pub decode_flat : Stored → Option (Dict String)

module _ (folds : FoldLibrary) where
  -- The loop over the request's headers.
  header_loop :
      Dict (List String) → Dict (List String) → Dict String → Dict (List String) × Dict String
  header_loop [] multi flat = (multi, flat)
  header_loop ((k, []) ∷ rest) multi flat =
      header_loop rest (insert (folds.to_lower k) [] multi) flat
  header_loop ((k, v ∷ vs) ∷ rest) multi flat =
      header_loop rest (insert (folds.to_lower k) (v ∷ vs) multi) (insert (folds.to_lower k) v flat)

  unfoldable pub header_maps : Dict (List String) → Dict (List String) × Dict String
  unfolding header_loop
  header_maps request = header_loop request [] []

  -- The loop that keeps the first value of each header.
  flatten : Dict (List String) → Dict String → Dict String
  flatten [] out = out
  flatten ((k, []) ∷ rest) out = flatten rest out
  flatten ((k, v ∷ vs) ∷ rest) out = flatten rest (insert (provider_key folds k) v out)

  relabel : Dict String → Dict String → Dict String
  relabel [] out = out
  relabel ((k, v) ∷ rest) out = relabel rest (insert (provider_key folds k) v out)

  unfoldable pub parse_stored_headers :
      (lib : HeaderLibrary) → HeaderLibrary.Stored lib → Result String (Dict String)
  unfolding flatten relabel
  parse_stored_headers lib stored =
      if lib.is_blank stored then ok [] else elim (lib.not_object stored) [
        | some e ↦ err e
        | none ↦ elim (lib.decode_multi stored) [
          | some multi ↦ ok (flatten multi [])
          | none ↦ elim (lib.decode_flat stored) [
            | some flat ↦ ok (relabel flat [])
            | none ↦ err "unsupported stored header format"
          ]
        ]
      ]
