-- ===== src/Config.antt =====
-- internal/config/config.go: the settings, read from the environment. A variable that is not set reads
-- as the empty text, as `os.Getenv` gives it.
pub mod Lists
use jungle.Base.{
  ℕ, String, Bool, true, false, Option, none, some, List, [], ◌∷◌, ◌==◌, if◌then◌else◌,
}
use Prim.Native.Char.{Char, code}
use jungle.Int.{ℤ, pos}
use jungle.Int32.{wrap32}
use jungle.App.Backoff.{Duration}

-- `strconv`, `time` and `strings`, as far as the settings use them. Numbers are those of a Go int, and
-- `Float` are those of float64.
pub record Parsers (Float : Type 0) : Type 0 where
  pub atoi : String → Option ℤ
  pub parse_bool : String → Option Bool
  pub parse_float : String → Option Float
  pub parse_duration : String → Option Duration
  pub trim : String → String
  pub one : Float

pub record Tracing (Float : Type 0) : Type 0 where
  pub enabled : Bool
  pub endpoint : String
  pub service_name : String
  pub sample_ratio : Float

pub record Startup : Type 0 where
  pub dependency_timeout : Duration

pub record Oidc : Type 0 where
  pub issuer_url : String
  pub additional_issuers : List String
  pub audience : String
  pub discovery_timeout : Duration

pub record Worker : Type 0 where
  pub outbox_interval : Duration
  pub reference_interval : Duration
  pub shutdown_timeout : Duration

pub record Postgres : Type 0 where
  pub host : String
  pub port : ℤ
  pub user : String
  pub password : String
  pub db_name : String
  pub ssl_mode : String

pub record Sqs : Type 0 where
  pub region : String
  pub endpoint : String
  pub request_queue_url : String
  pub event_queue_url : String
  pub consumer_name : String
  pub max_messages : ℤ
  pub wait_time_seconds : ℤ
  pub visibility_timeout : ℤ

pub record Config (Float : Type 0) : Type 0 where
  pub port : ℤ
  pub instance_id : String
  pub postgres : Postgres
  pub sqs : Sqs
  pub oidc : Oidc
  pub worker : Worker
  pub startup : Startup
  pub tracing : Tracing Float

abbrev pub is_empty : String → Bool
is_empty String.[] = true
is_empty (String.◌∷◌ c s) = false

abbrev pub is_comma : Char → Bool
is_comma c = code c == 44

abbrev pub in_first : Char → List String → List String
in_first c [] = String.◌∷◌ c "" ∷ []
in_first c (item ∷ items) = String.◌∷◌ c item ∷ items

-- `strings.Split(raw, ",")`
unfoldable pub split_commas : String → List String
split_commas String.[] = "" ∷ []
split_commas (String.◌∷◌ c s) =
    let rest = split_commas s in if is_comma c then "" ∷ rest else in_first c rest

abbrev pub add_item : String → List String → List String
add_item item out = if is_empty item then out else item ∷ out

-- The loop of `envList`.
unfoldable pub kept_items : (String → String) → List String → List String
kept_items trim [] = []
kept_items trim (item ∷ items) = add_item (trim item) (kept_items trim items)

module _ {A : Type 0} where
  abbrev pub or_fallback : A → Option A → A
  or_fallback fallback none = fallback
  or_fallback fallback (some a) = a

  abbrev pub parsed_or : (String → Option A) → String → A → A
  parsed_or parse v fallback = if is_empty v then fallback else or_fallback fallback (parse v)

module _ {Float : Type 0} (parsers : Parsers Float) (getenv : String → String) where
  unfoldable pub env_list : String → List String
  env_list key =
      if is_empty (getenv key) then [] else kept_items parsers.trim (split_commas (getenv key))

  abbrev pub env_duration : String → Duration → Duration
  env_duration key fallback = parsed_or parsers.parse_duration (getenv key) fallback

  abbrev pub env_string : String → String → String
  env_string key fallback = if is_empty (getenv key) then fallback else getenv key

  abbrev pub env_int : String → ℤ → ℤ
  env_int key fallback = parsed_or parsers.atoi (getenv key) fallback

  abbrev pub env_bool : String → Bool → Bool
  env_bool key fallback = parsed_or parsers.parse_bool (getenv key) fallback

  abbrev pub env_float : String → Float → Float
  env_float key fallback = parsed_or parsers.parse_float (getenv key) fallback

  -- `New`, with what `defaultInstanceID` returns.
  unfoldable pub new : String → Config Float
  new instance_id = record {
    port = env_int "JUNGLE_PORT" (pos 8080);
    instance_id = env_string "JUNGLE_INSTANCE_ID" instance_id;
    postgres = record {
      host = env_string "POSTGRES_HOST" "localhost";
      port = env_int "POSTGRES_PORT" (pos 5432);
      user = env_string "POSTGRES_USER" "jungle";
      password = env_string "POSTGRES_PASSWORD" "jungle";
      db_name = env_string "POSTGRES_DB" "jungle";
      ssl_mode = env_string "POSTGRES_SSLMODE" "disable";
    };
    sqs = record {
      region = env_string "AWS_REGION" "us-east-1";
      endpoint = env_string "SQS_ENDPOINT_URL" "";
      request_queue_url = env_string "SQS_REQUEST_QUEUE_URL" "";
      event_queue_url = env_string "SQS_EVENT_QUEUE_URL" "";
      consumer_name = env_string "SQS_CONSUMER_NAME" "wager-transactions-consumer";
      max_messages = wrap32 (env_int "SQS_MAX_MESSAGES" (pos 10));
      wait_time_seconds = wrap32 (env_int "SQS_WAIT_TIME_SECONDS" (pos 10));
      visibility_timeout = wrap32 (env_int "SQS_VISIBILITY_TIMEOUT" (pos 60));
    };
    oidc = record {
      issuer_url = env_string "OIDC_ISSUER_URL" "http://localhost:8081/realms/jungle";
      additional_issuers = env_list "OIDC_ADDITIONAL_ISSUERS";
      audience = env_string "OIDC_AUDIENCE" "jungle-api";
      discovery_timeout = env_duration "OIDC_DISCOVERY_TIMEOUT" (pos 90000000000);
    };
    tracing = record {
      enabled = env_bool "TRACING_ENABLED" true;
      endpoint = env_string "OTEL_EXPORTER_OTLP_ENDPOINT" "localhost:4317";
      service_name = env_string "OTEL_SERVICE_NAME" "jungle";
      sample_ratio = env_float "TRACING_SAMPLE_RATIO" parsers.one;
    };
    startup = record {
      dependency_timeout = env_duration "STARTUP_DEPENDENCY_TIMEOUT" (pos 60000000000);
    };
    worker = record {
      outbox_interval = env_duration "OUTBOX_INTERVAL" (pos 1000000000);
      reference_interval = env_duration "REFERENCE_INTERVAL" (pos 5000000000);
      shutdown_timeout = env_duration "SHUTDOWN_TIMEOUT" (pos 20000000000);
    };
  }
