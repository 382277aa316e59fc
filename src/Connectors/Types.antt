-- ===== src/Connectors/Types.antt =====
-- internal/connector/types.go and base.go. A connector is code of its own: it is what its methods
-- answer, `Input` and `Output` standing for their `map[string]interface{}`.
use release_engine.Prelude.{
  String, ◌<>◌, Bool, false, ◌||◌, not, Option, List, [], ◌∷◌, ◌==◌, any, Dict, if◌then◌else◌,
  Result, ok, err,
}

pub data ConnectorType : Type 0 where
  git cloud cd infra devops policy webhook other : ConnectorType

-- The strings of the constants, all of which `ValidConnectorTypes` holds.
abbrev pub type_name : ConnectorType → String
type_name git = "git"
type_name cloud = "cloud"
type_name cd = "cd"
type_name infra = "infra"
type_name devops = "devops"
type_name policy = "policy"
type_name webhook = "webhook"
type_name other = "other"

abbrev pub valid_connector_types : List String
valid_connector_types =
    "git" ∷ "cloud" ∷ "cd" ∷ "infra" ∷ "devops" ∷ "policy" ∷ "other" ∷ "webhook" ∷ []

pub record ConnectorError : Type 0 where
  pub code : String
  pub message : String

pub record ConnectorResult (Output : Type 0) : Type 0 where
  pub status : String
  pub output : Output
  pub error : Option ConnectorError

-- `(*ConnectorResult, error)`: both may be nil.
pub record Reply (Output : Type 0) : Type 0 where
  pub result : Option (ConnectorResult Output)
  pub error : Option String

-- `Connector`, with the two optional methods `Type` and `RequiredSecrets`; `none` secrets is nil.
pub record Connector (Input Output : Type 0) : Type 0 where
  pub key : String
  pub type_of : Option String
  pub required_secrets : Option (String → List String)
  pub validate : String → Input → Option String
  pub execute : String → Input → Option (Dict String) → Reply Output
  pub close : Option String

-- `BaseConnector`
pub record BaseConnector : Type 0 where
  pub connector_type : String
  pub technology : String

pub data BaseError : Type 0 where
  unknown_type technology_empty technology_hyphen : BaseError

-- `strings.Contains(tech, "-")`
unfoldable pub has_hyphen : String → Bool
has_hyphen String.[] = false
has_hyphen (String.◌∷◌ c s) = String.◌∷◌ c String.[] == "-" || has_hyphen s

-- `NewBaseConnector`
unfoldable pub new_base_connector : String → String → Result BaseError BaseConnector
new_base_connector ctype tech =
    if not (any (λ t. t == ctype) valid_connector_types)
    then err unknown_type
    else if tech == ""
    then err technology_empty
    else if has_hyphen tech
    then err technology_hyphen
    else ok (record { connector_type = ctype; technology = tech })

-- `BaseConnector.Key`
unfoldable pub base_key : BaseConnector → String
base_key b = b.connector_type <> ("-" <> b.technology)
