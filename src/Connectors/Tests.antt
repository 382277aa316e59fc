-- ===== src/Connectors/Tests.antt =====
-- A registry with a git and a webhook connector.
use release_engine.Prelude.{String, false, none, some, List, [], ◌∷◌}
use release_engine.Connectors.Types.{Connector}
use release_engine.Connectors.Registry.{Registry}
use release_engine.Connectors.Registry.Laws.{Call, registers, replaces, closes}

-- It echoes its input and wants no secrets.
abbrev echo : String → Connector String String
echo key = record {
  key = key;
  type_of = none;
  required_secrets = none;
  validate = λ operation input. none;
  execute = λ operation input secrets. record {
    result = some (record { status = "success"; output = input; error = none });
    error = none;
  };
  close = none;
}

abbrev registry : Registry String String
registry = record {
  connectors = ("git-github", echo "git-github") ∷ ("other-opa", echo "other-opa") ∷ [];
  closed = false;
}

abbrev calls : List (Call String String)
calls = registers (echo "git-gitea") ∷ replaces (echo "git-github") ∷ closes ∷ []
