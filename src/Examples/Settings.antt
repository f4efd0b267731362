-- ===== src/Examples/Settings.antt =====
-- Concrete environments.
use reimbursement_analyzer.Prelude
use reimbursement_analyzer.Prelude.{
  String, ℤ, pos, ◌≡◌, ◌≢◌, refl, Bool, Option, none, some, str_eq, if◌then◌else◌,
}
use reimbursement_analyzer.Json.{str, end, field}
use reimbursement_analyzer.Decimal.{Decimal, above}
use reimbursement_analyzer.Errors.{other}
use reimbursement_analyzer.Config.{Config, check_startup_config}
use reimbursement_analyzer.World.{Result, ok, raised}
use reimbursement_analyzer.Settings.{
  Environ, security_config, load_kafka, load_publisher_config, load_config, start_publisher,
  require_env, load_agent_config, KafkaConfig, PublisherConfig, AgentConfig,
}

-- `int` and `float` of the texts that the examples have
abbrev int_text : String → Result ℤ
int_text s =
    if str_eq s "20"
    then ok (pos 20)
    else if str_eq s "10"
    then ok (pos 10)
    else if str_eq s "5"
    then ok (pos 5)
    else if str_eq s "9101"
    then ok (pos 9101)
    else raised (other "ValueError" "invalid literal for int()")

abbrev float_text : String → Option Decimal
float_text s = if str_eq s "0.0" then some (above 0 1) else none

abbrev quoted : String → String
quoted s = s

abbrev only : String → String → Environ
only name v asked = if str_eq asked name then some v else none

-- The defaults are enough for the publisher, once the database is named.
start_default :
    start_publisher int_text float_text quoted (only "DATABASE_URL" "postgresql")
    ≡ ok (record {
      dsn = some "postgresql";
      pool_max_size = pos 20;
      max_message_chars = 2000;
      item_concurrency = pos 10;
    })
unfolding start_publisher load_publisher_config load_config check_startup_config
start_default = refl

-- A smaller pool alone is refused.
small_pool : Environ
small_pool asked = if str_eq asked "DATABASE_POOL_MAX_SIZE" then some "5" else some "10"

start_small_pool : (c : Config) → start_publisher int_text float_text quoted small_pool ≢ ok c
unfolding start_publisher load_publisher_config load_config check_startup_config small_pool
start_small_pool c e = cc

-- An empty setting is left out.
security_default :
    security_config (load_kafka (only "KAFKA_SASL_USERNAME" "agent"))
    ≡ field "sasl.username" (str "agent") end
unfolding security_config load_kafka
security_default = refl

-- The agent does not start without its key.
agent_without_key :
    load_agent_config int_text float_text quoted (only "EXTRACT_FIELDS_MODEL_NAME" "model")
    ≡ raised (other "ValueError" "GROQ_API_KEY environment variable is required")
unfolding load_agent_config require_env Prelude.Text.append
agent_without_key = refl

-- Settings of the clients with a mechanism and a name, and no password.
abbrev kafka : KafkaConfig
kafka = load_kafka (only "KAFKA_SASL_USERNAME" "agent")

abbrev publisher_settings : PublisherConfig
publisher_settings = record {
  consumer_group_id = "publisher";
  item_concurrency = pos 10;
  metrics_port = pos 9101;
  max_poll_interval_ms = 900000;
}

abbrev agent_settings : AgentConfig
agent_settings = record {
  consumer_group_id = "agent";
  ai = record { api_key = "key"; timeout_seconds = above 0 1 };
  models = record {
    extract_fields = record { model_name = "model"; temperature = above 0 1 };
    analysis = record { model_name = "model"; temperature = above 0 1 };
  };
  metrics_port = pos 5;
}
