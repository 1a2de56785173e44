-- ===== src/Flows/Recovery/Registry.antt =====
-- InMemoryFlowDefinitionRegistry, and the check of a resolved definition.
use base_agent.Base.{
  String, Bool, false, ◌||◌, not, Option, none, some, List, [], ◌∷◌, ◌==◌, string_eq, pair_eq,
  Equality, Result, Error, ok, ◌>>=◌, ◌>>◌, fail_if, or_fail,
}
use base_agent.Base.Dict.{Dict, lookup, insert}
use base_agent.Flows.Contracts.{FlowDefinition}
use base_agent.Flows.Lifecycle.State.{FlowRunState}

instance abbrev pub identity_eq : Equality (String × String)
identity_eq = pair_eq ⦃ea = string_eq⦄ ⦃eb = string_eq⦄

-- `_definitions`.
abbrev pub Registry : Type 0
Registry = Dict (String × String) FlowDefinition

-- The key of a definition.
abbrev pub identity : FlowDefinition → String × String
identity d = (d.id, d.version)

-- The test of `existing`.
abbrev pub conflicts : Option FlowDefinition → FlowDefinition → Bool
conflicts none d = false
conflicts (some existing) d = not (existing.fingerprint == d.fingerprint)

-- One round of the loop of `__init__`.
unfoldable pub register : Registry → FlowDefinition → Result Registry
register registry d = do
  fail_if (conflicts (lookup (identity d) registry) d) Error.flow_definition_conflict
  ok (insert (identity d) d registry)

unfoldable pub register_all : Registry → List FlowDefinition → Result Registry
register_all registry [] = ok registry
register_all registry (d ∷ ds) = do next ← register registry d; register_all next ds

-- `InMemoryFlowDefinitionRegistry(definitions)`.
unfoldable pub new_registry : List FlowDefinition → Result Registry
new_registry definitions = register_all [] definitions

unfoldable pub resolve : Registry → String → String → Result FlowDefinition
resolve registry definition_id definition_version =
    or_fail (lookup (definition_id, definition_version) registry) Error.flow_definition_not_found

-- `_validate_resolved_definition`.
unfoldable pub validate_resolved_definition : FlowDefinition → FlowRunState → Result (Unit {0})
validate_resolved_definition d s =
    fail_if
      (not (d.id == s.definition_id)
        || not (d.version == s.definition_version)
        || not (d.fingerprint == s.definition_fingerprint))
      Error.flow_definition_mismatch
