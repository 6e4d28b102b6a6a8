-- ===== src/Config.antt =====
-- src/config.cpp: the configuration, its JSON text, and what is checked of it. The files themselves
-- are read and written by the standard library.
pub mod Valid
use Prim.Native.String.{String}
use scrig.Base.{
  ℕ, zero, suc, ◌+◌, ◌%◌, ◌^◌, Bool, true, false, ◌&&◌, ◌||◌, not, Option, none, some, List, [],
  ◌∷◌, ◌++◌, ltb, ◌==◌, if◌then◌else◌,
}
use scrig.Base.Bytes.{Bytes, bytes_eq, codes}
use scrig.Base.Fault.{Error, runtime_error, Result, ok, throw, ◌>>=◌, ◌>>◌}
use scrig.Types.{PublicKey}
use scrig.Base36.{public_key_from_base36}
use scrig.Json.{
  Doubles, JsonValue, string, object, JsonObject, as_bool, as_uint64, as_string, find_field,
}
use scrig.Json.Text.{decimal}
use scrig.Json.Printer.{to_json}

pub record Config : Type 0 where
  pub wallet_address : Bytes
  pub node_host : Bytes
  pub node_port : ℕ
  pub mode : Bytes
  pub pool_host : Bytes
  pub pool_port : ℕ
  pub threads : ℕ
  pub include_mempool_transactions : Bool
  pub refresh_interval_ms : ℕ
  pub use_chain_events : Bool
  pub colorful_ui : Bool
  pub dashboard : Bool
  pub pin_threads : Bool
  pub numa_bind : Bool
  pub performance_cores_only : Bool
  pub randomx_pipeline_batch : ℕ
  pub randomx_full_mem : Bool
  pub randomx_huge_pages : Bool
  pub randomx_jit : Bool
  pub randomx_hard_aes : Bool
  pub randomx_secure : Bool
  pub randomx_macos_unsafe : Bool

-- What the platform's layer says of itself; `hardware_concurrency` is the standard library's.
pub record Platform : Type 0 where
  pub thread_pinning_supported : Bool
  pub huge_pages_supported : Bool
  pub apply_default_config : Config → Config
  pub include_pin_threads : Bool
  pub include_numa_bind : Bool
  pub include_randomx_huge_pages : Bool
  pub include_randomx_macos_unsafe : Bool
  pub config_comment : Bytes
  pub profile_name : Bytes
  pub hardware_concurrency : ℕ

unfoldable pub default_config : Platform → Config
default_config platform = platform.apply_default_config (record {
  wallet_address = codes "<PUT_YOUR_WALLET_ADDRESS>";
  node_host = codes "127.0.0.1";
  node_port = 3003;
  mode = codes "solo";
  pool_host = codes "127.0.0.1";
  pool_port = 3003;
  threads = 0;
  include_mempool_transactions = false;
  refresh_interval_ms = 500;
  use_chain_events = true;
  colorful_ui = true;
  dashboard = true;
  pin_threads = platform.thread_pinning_supported;
  numa_bind = false;
  performance_cores_only = false;
  randomx_pipeline_batch = 0;
  randomx_full_mem = true;
  randomx_huge_pages = platform.huge_pages_supported;
  randomx_jit = true;
  randomx_hard_aes = true;
  randomx_secure = false;
  randomx_macos_unsafe = false;
})

-- A guard that throws.
abbrev pub require : (test : Bool) → String → Result (Unit {0})
require true message = ok tt
require false message = throw (runtime_error message)

-- The catch of any exception.
abbrev pub or_throw {ℓ} : {A : Type ℓ} → Result A → String → Result A
or_throw (ok a) message = ok a
or_throw (throw error) message = throw (runtime_error message)

abbrev pub is_given : Bytes → Bool
is_given [] = false
is_given (c ∷ text) = true

unfoldable pub validate_config : Config → Result (Unit {0})
validate_config config = do
  _ ←
      require
        (is_given config.wallet_address
          && not (bytes_eq config.wallet_address (codes "<PUT_YOUR_WALLET_ADDRESS>"))
          && not (bytes_eq config.wallet_address (codes "<YOUR_PUBLIC_WALLET_ADDRESS_BASE36>")))
        "config wallet_address is missing"
  _ ←
      or_throw (public_key_from_base36 config.wallet_address)
        "config wallet_address is not valid base36"
  _ ← require (is_given config.node_host) "config node_host is missing"
  _ ← require (not (config.node_port == 0)) "config node_port must be > 0"
  _ ← require (is_given config.pool_host) "config pool_host is missing"
  _ ← require (not (config.pool_port == 0)) "config pool_port must be > 0"
  _ ← require (not (config.threads == 0)) "config threads must be > 0"
  _ ←
      require (bytes_eq config.mode (codes "solo") || bytes_eq config.mode (codes "pool"))
        "config mode must be 'solo' or 'pool'"
  require (not (ltb 128 config.randomx_pipeline_batch))
      "config randomx_pipeline_batch must be <= 128"

-- A field that is there is read, and another keeps its default.
abbrev field_or {ℓ} : {A : Type ℓ} → (JsonValue → Result A) → Option JsonValue → A → Result A
field_or read (some v) current = read v
field_or read none current = ok current

module _ (doubles : Doubles) where
  unfoldable pub read_fields : JsonObject → Config → Result Config
  read_fields obj c = do
    let text : String → Bytes → Result Bytes =
        λ key. field_or as_string (find_field obj (codes key))
    let flag : String → Bool → Result Bool = λ key. field_or as_bool (find_field obj (codes key))
    let number : String → ℕ → Result ℕ =
        λ key. field_or (as_uint64 doubles) (find_field obj (codes key))
    wallet_address ← text "wallet_address" c.wallet_address
    node_host ← text "node_host" c.node_host
    node_port ← number "node_port" c.node_port
    mode ← text "mode" c.mode
    pool_host ← text "pool_host" c.pool_host
    pool_port ← number "pool_port" c.pool_port
    threads ← number "threads" c.threads
    include_mempool_transactions ←
        flag "include_mempool_transactions" c.include_mempool_transactions
    refresh_interval_ms ← number "refresh_interval_ms" c.refresh_interval_ms
    use_chain_events ← flag "use_chain_events" c.use_chain_events
    colorful_ui ← flag "colorful_ui" c.colorful_ui
    dashboard ← flag "dashboard" c.dashboard
    pin_threads ← flag "pin_threads" c.pin_threads
    numa_bind ← flag "numa_bind" c.numa_bind
    performance_cores_only ← flag "performance_cores_only" c.performance_cores_only
    randomx_pipeline_batch ← number "randomx_pipeline_batch" c.randomx_pipeline_batch
    randomx_full_mem ← flag "randomx_full_mem" c.randomx_full_mem
    randomx_huge_pages ← flag "randomx_huge_pages" c.randomx_huge_pages
    randomx_jit ← flag "randomx_jit" c.randomx_jit
    randomx_hard_aes ← flag "randomx_hard_aes" c.randomx_hard_aes
    randomx_secure ← flag "randomx_secure" c.randomx_secure
    randomx_macos_unsafe ← flag "randomx_macos_unsafe" c.randomx_macos_unsafe
    ok (record {
      wallet_address = wallet_address;
      node_host = node_host;
      node_port = node_port % 2 ^ 16;
      mode = mode;
      pool_host = pool_host;
      pool_port = pool_port % 2 ^ 16;
      threads = threads % 2 ^ 32;
      include_mempool_transactions = include_mempool_transactions;
      refresh_interval_ms = refresh_interval_ms;
      use_chain_events = use_chain_events;
      colorful_ui = colorful_ui;
      dashboard = dashboard;
      pin_threads = pin_threads;
      numa_bind = numa_bind;
      performance_cores_only = performance_cores_only;
      randomx_pipeline_batch = randomx_pipeline_batch % 2 ^ 32;
      randomx_full_mem = randomx_full_mem;
      randomx_huge_pages = randomx_huge_pages;
      randomx_jit = randomx_jit;
      randomx_hard_aes = randomx_hard_aes;
      randomx_secure = randomx_secure;
      randomx_macos_unsafe = randomx_macos_unsafe;
    })

-- The threads of the machine, where the number is 0.
unfoldable pub with_threads : (hardware_concurrency : ℕ) → Config → Config
with_threads hw config =
    if config.threads == 0 then record config { threads = if hw == 0 then 1 else hw } else config

unfoldable pub config_from_json : Doubles → Platform → JsonValue → Result Config
unfolding read_fields with_threads default_config
config_from_json doubles platform value = elim value [
  | object obj ↦ do
    config ← read_fields doubles obj (default_config platform)
    ok (with_threads platform.hardware_concurrency config)
  | _ ↦ throw (runtime_error "config root must be an object")
]
