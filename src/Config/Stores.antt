-- ===== src/Config/Stores.antt =====
-- events-processor/config/redis/redis.go and events-processor/config/database/database.go: connecting
-- to the stores.
use Prim.Native.Char.{code}
use lago.Prelude.{ℕ, String, ◌==◌, Bool, Option, none, some, if◌then◌else◌}
use lago.Utils.Result.{Error, Except, ok, error}

pub record RedisConfig : Type 0 where
  pub address : String
  pub password : String
  pub db : ℕ
  pub use_tracer : Bool
  pub use_tls : Bool

-- What the client of Redis is made with; without TLS it has no configuration of it.
pub record RedisOptions : Type 0 where
  pub addr : String
  pub password : String
  pub db : ℕ
  pub insecure_skip_verify : Option Bool

-- The text behind a prefix that it has.
unfoldable pub cut_prefix : String → String → Option String
cut_prefix String.[] s = some s
cut_prefix (String.◌∷◌ p ps) String.[] = none
cut_prefix (String.◌∷◌ p ps) (String.◌∷◌ c s) = if code p == code c then cut_prefix ps s else none

-- What `^rediss?://` matches is taken away.
unfoldable pub address_and_port : String → String
unfolding cut_prefix
address_and_port address = elim (cut_prefix "redis://" address) [
  | some rest ↦ rest
  | none ↦ elim (cut_prefix "rediss://" address) [ some rest ↦ rest | none ↦ address ]
]

unfoldable pub redis_options : RedisConfig → RedisOptions
unfolding address_and_port
redis_options cfg = record {
  addr = address_and_port cfg.address;
  password = cfg.password;
  db = cfg.db;
  insecure_skip_verify = if cfg.use_tls then some Bool.true else none;
}

-- The client of Redis: whether it answers, and whether it can be traced.
pub record RedisLibrary : Type 0 where
  pub ping : RedisOptions → Option Error
  pub instrument_tracing : RedisOptions → Option Error

-- The database's store is its client, which is what it is made with.
unfoldable pub new_redis_db : RedisLibrary → RedisConfig → Except RedisOptions
unfolding redis_options
new_redis_db library cfg = elim (library.ping (redis_options cfg)) [
  | some e ↦ error e
  | none ↦
      if cfg.use_tracer
      then elim (library.instrument_tracing (redis_options cfg)) [
        | some e ↦ error e
        | none ↦ ok (redis_options cfg)
      ]
      else ok (redis_options cfg)
]

pub record DbConfig : Type 0 where
  pub url : String
  pub max_conns : ℕ

-- The pool of connections, and gorm on top of it.
pub record DbLibrary : Type 1 where
  pub PoolConfig : Type 0
  pub Pool : Type 0
  pub Connection : Type 0
  pub parse_config : String → Except PoolConfig
  pub new_pool : PoolConfig → ℕ → Except Pool
  pub open_connection : Pool → Except Connection

pub record Db (library : DbLibrary) : Type 0 where
  pub connection : library.Connection
  pub pool : library.Pool

unfoldable pub new_connection : (library : DbLibrary) → DbConfig → Except (Db library)
new_connection library config = elim (library.parse_config config.url) [
  | error e ↦ error e
  | ok pool_config ↦ elim (library.new_pool pool_config config.max_conns) [
    | error e ↦ error e
    | ok pool ↦ elim (library.open_connection pool) [
      | error e ↦ error e
      | ok connection ↦ ok (record { connection = connection; pool = pool })
    ]
  ]
]
