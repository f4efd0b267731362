-- ===== src/Settings.antt =====
-- The environment that the services read: packages/shared/src/shared/config.py, with the settings
-- of the publisher's and the agent's own config.py. A float stands for its text's value; the
-- constants that no code of the development reads are left out.
pub mod Clients
pub mod Startup
use reimbursement_analyzer.Prelude
use reimbursement_analyzer.Prelude.{
  ℕ, ◌*◌, ◌/◌, ℤ, String, Bool, true, false, Option, none, some, [], ◌∷◌, str_eq, if◌then◌else◌,
}
use reimbursement_analyzer.Json.{Json, str, int, bool, Fields, end, field, dict, merge}
use reimbursement_analyzer.Decimal.{Decimal}
use reimbursement_analyzer.Errors.{Exc, other}
use reimbursement_analyzer.Config.{Config, check_startup_config}
use reimbursement_analyzer.World.{Result, ok, raised}

-- `os.getenv(name)`
abbrev pub Environ : Type 0
Environ = String → Option String

-- `os.getenv(name, default)`
abbrev pub getenv : Environ → String → String → String
getenv env name default = elim (env name) [ none ↦ default | some v ↦ v ]

-- What comes after a value that is computed, unless that raised.
abbrev pub after {ℓ κ} : {A : Type ℓ} {B : Type κ} → Result A → (A → Result B) → Result B
after (ok a) f = f a
after (raised e) f = raised e

abbrev pub kafka_max_message_bytes : ℕ
kafka_max_message_bytes = 2097152

pub record KafkaConfig : Type 0 where
  pub bootstrap_servers : String
  pub message_max_bytes : ℕ
  pub message_timeout_ms : ℕ
  pub publish_timeout_seconds : ℕ
  pub queue_buffering_max_kbytes : ℕ
  pub security_protocol : Option String
  pub sasl_mechanism : Option String
  pub sasl_username : Option String
  pub sasl_password : Option String
  pub ssl_ca_location : Option String

-- One entry of the comprehension: `if value`.
unfoldable pub when_set : String → Option String → Fields → Fields
when_set k none rest = rest
when_set k (some v) rest = if str_eq v "" then rest else field k (str v) rest

unfoldable pub security_config : KafkaConfig → Fields
unfolding when_set
security_config k = when_set "security.protocol" k.security_protocol (
    when_set "sasl.mechanism" k.sasl_mechanism (
      when_set "sasl.username" k.sasl_username (
        when_set "sasl.password" k.sasl_password
          (when_set "ssl.ca.location" k.ssl_ca_location end))))

unfoldable pub to_producer_config : KafkaConfig → Fields
unfolding security_config
to_producer_config k =
    merge
      (dict (
        ("bootstrap.servers", str k.bootstrap_servers)
        ∷ ("acks", str "all")
        ∷ ("enable.idempotence", bool true)
        ∷ ("message.max.bytes", int k.message_max_bytes)
        ∷ ("message.timeout.ms", int k.message_timeout_ms)
        ∷ ("queue.buffering.max.kbytes", int k.queue_buffering_max_kbytes)
        ∷ []))
      (security_config k)

-- `kafka=KafkaConfig(...)` of `load_config`
unfoldable pub load_kafka : Environ → KafkaConfig
load_kafka env = record {
  bootstrap_servers = getenv env "KAFKA_BOOTSTRAP_SERVERS" "localhost:9092";
  message_max_bytes = kafka_max_message_bytes;
  message_timeout_ms = 8000;
  publish_timeout_seconds = 10;
  queue_buffering_max_kbytes = 200 * (kafka_max_message_bytes / 1024);
  security_protocol = env "KAFKA_SECURITY_PROTOCOL";
  sasl_mechanism = env "KAFKA_SASL_MECHANISM";
  sasl_username = env "KAFKA_SASL_USERNAME";
  sasl_password = env "KAFKA_SASL_PASSWORD";
  ssl_ca_location = env "KAFKA_SSL_CA_LOCATION";
}

pub record PublisherConfig : Type 0 where
  pub consumer_group_id : String
  pub item_concurrency : ℤ
  pub metrics_port : ℤ
  pub max_poll_interval_ms : ℕ

unfoldable pub publisher_consumer_config : PublisherConfig → KafkaConfig → Fields
unfolding security_config
publisher_consumer_config p k =
    merge
      (dict (
        ("bootstrap.servers", str k.bootstrap_servers)
        ∷ ("group.id", str p.consumer_group_id)
        ∷ ("auto.offset.reset", str "earliest")
        ∷ ("enable.auto.commit", bool false)
        ∷ ("max.poll.interval.ms", int p.max_poll_interval_ms)
        ∷ ("fetch.max.bytes", int kafka_max_message_bytes)
        ∷ ("max.partition.fetch.bytes", int kafka_max_message_bytes)
        ∷ []))
      (security_config k)

pub record ModelConfig : Type 0 where
  pub model_name : String
  pub temperature : Decimal

pub record AiConfig : Type 0 where
  pub api_key : String
  pub timeout_seconds : Decimal

pub record AgentModelsConfig : Type 0 where
  pub extract_fields : ModelConfig
  pub analysis : ModelConfig

pub record AgentConfig : Type 0 where
  pub consumer_group_id : String
  pub ai : AiConfig
  pub models : AgentModelsConfig
  pub metrics_port : ℤ

unfoldable pub agent_consumer_config : AgentConfig → KafkaConfig → Fields
unfolding security_config
agent_consumer_config a k =
    merge
      (dict (
        ("bootstrap.servers", str k.bootstrap_servers)
        ∷ ("group.id", str a.consumer_group_id)
        ∷ ("auto.offset.reset", str "earliest")
        ∷ ("enable.auto.commit", bool false)
        ∷ []))
      (security_config k)

unfoldable pub present : String → Option String → Result String
present name none =
    raised (other "ValueError" (Prelude.Text.append name " environment variable is required"))
present name (some v) =
    if str_eq v ""
    then raised (other "ValueError" (Prelude.Text.append name " environment variable is required"))
    else ok v

-- `_require_env`
unfoldable pub require_env : Environ → String → Result String
unfolding present
require_env env name = present name (env name)

-- Python's `int` and `float` of a text, where the first raises by itself and the second has no
-- value for a text that is no number; and its `repr`.
module _ (int_of : String → Result ℤ) (float_of : String → Option Decimal)
    (repr : String → String) where
  -- The settings of `load_config` that the publisher's code reads, with the publisher's own.
  unfoldable pub load_publisher_config : Environ → Result PublisherConfig
  load_publisher_config env = after (int_of (getenv env "PUBLISHER_ITEM_CONCURRENCY" "10")) (λ n.
      after (int_of (getenv env "METRICS_PORT" "9101")) (λ port. ok (record {
        consumer_group_id = getenv env "PUBLISHER_CONSUMER_GROUP_ID" "publisher";
        item_concurrency = n;
        metrics_port = port;
        max_poll_interval_ms = 900000;
      })))

  unfoldable pub load_config : Environ → PublisherConfig → Result Config
  load_config env p = after (int_of (getenv env "DATABASE_POOL_MAX_SIZE" "20")) (λ size.
      ok (record {
        dsn = env "DATABASE_URL";
        pool_max_size = size;
        max_message_chars = 2000;
        item_concurrency = p.item_concurrency;
      }))

  abbrev pub checked : Config → Option Exc → Result Config
  checked c none = ok c
  checked c (some e) = raised e

  -- How publisher/consumer.py starts: `main` loads the publisher's settings, `_serve` the shared
  -- ones, and what the check refuses raises.
  unfoldable pub start_publisher : Environ → Result Config
  unfolding load_publisher_config load_config
  start_publisher env =
      after (load_publisher_config env)
        (λ p. after (load_config env p) (λ c. checked c (check_startup_config c)))

  unfoldable pub float_env : Environ → String → String → Result Decimal
  float_env env name default = elim (float_of (getenv env name default)) [
    | some x ↦ ok x
    | none ↦ raised (
        other "ValueError" (
          Prelude.Text.concat (
            name
            ∷ " environment variable must be a number, got "
            ∷ repr (getenv env name default)
            ∷ [])))
  ]

  unfoldable pub load_agent_config : Environ → Result AgentConfig
  unfolding float_env require_env
  load_agent_config env = after (require_env env "GROQ_API_KEY") (λ key.
      after (float_env env "AI_TIMEOUT_SECONDS" "30.0") (λ timeout.
        after (require_env env "EXTRACT_FIELDS_MODEL_NAME") (λ extract_name.
          after (float_env env "EXTRACT_FIELDS_TEMPERATURE" "0.0") (λ extract_temperature.
            after (require_env env "ANALYSIS_MODEL_NAME") (λ analysis_name.
              after (float_env env "ANALYSIS_TEMPERATURE" "0.0") (λ analysis_temperature.
                after (int_of (getenv env "METRICS_PORT" "9102")) (λ port. ok (record {
                  consumer_group_id = getenv env "AGENT_CONSUMER_GROUP_ID" "agent";
                  ai = record { api_key = key; timeout_seconds = timeout };
                  models = record {
                    extract_fields = record {
                      model_name = extract_name;
                      temperature = extract_temperature;
                    };
                    analysis = record {
                      model_name = analysis_name;
                      temperature = analysis_temperature;
                    };
                  };
                  metrics_port = port;
                }))))))))

  -- `check_startup_config` of the agent's consumer.py
  unfoldable pub has_database : AgentConfig → Option String → Result AgentConfig
  has_database a none =
      raised
        (other "RuntimeError" "DATABASE_URL is not set: the agent cannot reach Postgres without it")
  has_database a (some dsn) = ok a

  -- How reimbursement/consumer.py starts: of the shared settings only the size of the pool can raise.
  unfoldable pub start_agent : Environ → Result AgentConfig
  unfolding load_agent_config has_database
  start_agent env = after (load_agent_config env) (λ a.
      after (int_of (getenv env "DATABASE_POOL_MAX_SIZE" "20"))
        (λ size. has_database a (env "DATABASE_URL")))
