-- ===== src/DataProxy/Rules/Replication.antt =====
-- The builders of the inputs of rules for replication, `ReplicationIncomingRuleInputBuilder` and
-- `ReplicationOutgoingRuleInputBuilder` of components/data_proxy/src/auth/rule_structs.rs, and their
-- evaluation by auth/rule_engine.rs, where CEL is a parameter.
use aos_server.Base.{
  String, Bool, not, ◌||◌, Option, none, some, List, [], is_nil, is_some, Result, ok, ◌>>◌, Error,
  if◌then◌else◌,
}
use aos_server.DataProxy.Objects.{ProxyObject}
use aos_server.DataProxy.Rules.{RuleEngine, Value, all_true, is_empty, require}

pub record ReplicationIncomingRuleInput : Type 0 where
  pub objects : List ProxyObject
  pub target_proxy_id : String

pub record ReplicationOutgoingRuleInput : Type 0 where
  pub object : Option ProxyObject
  pub target_proxy_id : String

pub record ReplicationIncomingRuleInputBuilder : Type 0 where
  pub objects : List ProxyObject
  pub target_proxy_id : String
  pub skip : Bool

pub record ReplicationOutgoingRuleInputBuilder : Type 0 where
  pub object : Option ProxyObject
  pub target_proxy_id : String
  pub skip : Bool

unfoldable pub new_incoming : RuleEngine → ReplicationIncomingRuleInputBuilder
new_incoming engine = record { objects = []; target_proxy_id = ""; skip = is_nil engine.repl_in }

unfoldable pub incoming_objects :
    List ProxyObject → ReplicationIncomingRuleInputBuilder → ReplicationIncomingRuleInputBuilder
incoming_objects objects b = if b.skip then b else record b { objects = objects }

unfoldable pub incoming_target :
    String → ReplicationIncomingRuleInputBuilder → ReplicationIncomingRuleInputBuilder
incoming_target id b = if b.skip then b else record b { target_proxy_id = id }

unfoldable pub build_incoming :
    ReplicationIncomingRuleInputBuilder → Result Error ReplicationIncomingRuleInput
build_incoming b = do
  require (b.skip || not (is_nil b.objects)) "objects is required"
  require (b.skip || not (is_empty b.target_proxy_id)) "target_proxy_id is required"
  ok (record { objects = b.objects; target_proxy_id = b.target_proxy_id })

unfoldable pub new_outgoing : RuleEngine → ReplicationOutgoingRuleInputBuilder
new_outgoing engine = record { object = none; target_proxy_id = ""; skip = is_nil engine.repl_out }

unfoldable pub outgoing_object :
    ProxyObject → ReplicationOutgoingRuleInputBuilder → ReplicationOutgoingRuleInputBuilder
outgoing_object o b = if b.skip then b else record b { object = some o }

unfoldable pub outgoing_target :
    String → ReplicationOutgoingRuleInputBuilder → ReplicationOutgoingRuleInputBuilder
outgoing_target id b = if b.skip then b else record b { target_proxy_id = id }

unfoldable pub build_outgoing :
    ReplicationOutgoingRuleInputBuilder → Result Error ReplicationOutgoingRuleInput
build_outgoing b = do
  require (b.skip || is_some b.object) "objects is required"
  require (b.skip || not (is_empty b.target_proxy_id)) "target_proxy_id is required"
  ok (record { object = b.object; target_proxy_id = b.target_proxy_id })

unfoldable pub evaluate_incoming :
    (List String → ReplicationIncomingRuleInput → Result Error Value)
    → RuleEngine
    → ReplicationIncomingRuleInput
    → Result Error Bool
evaluate_incoming cel engine ctx = all_true (cel engine.repl_in ctx)

unfoldable pub evaluate_outgoing :
    (List String → ReplicationOutgoingRuleInput → Result Error Value)
    → RuleEngine
    → ReplicationOutgoingRuleInput
    → Result Error Bool
evaluate_outgoing cel engine ctx = all_true (cel engine.repl_out ctx)
