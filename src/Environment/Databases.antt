-- ===== src/Environment/Databases.antt =====
-- src/environment/configs/databases.ts
pub mod Grouping
use nestjs_framework_templat.Prelude.{
  ℕ, ◌*◌, ◌+◌, String, Bool, true, false, ◌&&◌, ◌||◌, Option, none, some, List, [], ◌∷◌, units,
  includes, starts_with, drop, length, if◌then◌else◌, leb, nat_beq, any,
}
use nestjs_framework_templat.Effect.{M, error, throw, pure, ◌>>=◌}
use nestjs_framework_templat.Environment.{
  Text, Env, value_of, variable, text_or, is_true, to_number, number_or,
}

-- A port is none where it is NaN, the other settings where they are undefined.
pub record ReadServerSetting : Type 0 where
  pub host : Option Text
  pub port : Option ℕ
  pub username : Option Text
  pub password : Option Text
  pub database : Option Text

-- `setReadServerConfigValues`, with the value of the variable
unfoldable pub set_read_server_config_values : Text → Text → ReadServerSetting → ReadServerSetting
set_read_server_config_values key value r = record {
  host = if includes key (units "_HOST_") then some value else r.host;
  port = if includes key (units "_PORT_") then to_number value else r.port;
  database = if includes key (units "_NAME_") then some value else r.database;
  username = if includes key (units "_USERNAME_") then some value else r.username;
  password = if includes key (units "_PASSWORD_") then some value else r.password;
}

-- The part of a text behind the first occurrence of a pattern.
abbrev pub after_first : Text → Text → Option Text
after_first pattern [] = if starts_with [] pattern then some [] else none
after_first pattern (c ∷ cs) =
    let later = after_first pattern cs in
    if starts_with (c ∷ cs) pattern then some (drop (length pattern) (c ∷ cs)) else later

-- The part of a text before the first occurrence of a pattern.
abbrev pub before_first : Text → Text → Text
before_first pattern [] = []
before_first pattern (c ∷ cs) =
    let later = c ∷ before_first pattern cs in if starts_with (c ∷ cs) pattern then [] else later

abbrev pub begins_with_1_to_9 : Text → Bool
begins_with_1_to_9 [] = false
begins_with_1_to_9 (c ∷ cs) = leb b'1' c && leb c b'9'

-- A pattern with a digit from 1 to 9 behind it, anywhere in a text.
abbrev pub has_numbered : Text → Text → Bool
has_numbered pattern [] = false
has_numbered pattern (c ∷ cs) =
    (starts_with (c ∷ cs) pattern && begins_with_1_to_9 (drop (length pattern) (c ∷ cs)))
    || has_numbered pattern cs

-- `readServerKeyCheck.test(key)`; the digits after the first are optional
unfoldable pub read_server_key_check : Text → Bool
read_server_key_check key =
    any (λ name. has_numbered (units name) key)
      ("DB_READ_HOST_SERVER_" ∷ "DB_READ_NAME_SERVER_" ∷ "DB_READ_USERNAME_SERVER_"
        ∷ "DB_READ_PASSWORD_SERVER_" ∷ "DB_READ_PORT_SERVER_" ∷ [])

-- `Number(key.split('_SERVER_')[1])`
unfoldable pub server_index : Text → Option ℕ
server_index key = elim (after_first (units "_SERVER_") key) [
  | none ↦ none
  | some rest ↦ to_number (before_first (units "_SERVER_") rest)
]

-- Keys of a `Map`, where NaN is equal to itself.
abbrev pub same_index : Option ℕ → Option ℕ → Bool
same_index none none = true
same_index (some a) (some b) = nat_beq a b
same_index _ _ = false

abbrev pub Mappings : Type 0
Mappings = List (Option ℕ × ReadServerSetting)

abbrev pub get : Option ℕ → Mappings → Option ReadServerSetting
get i [] = none
get i ((j, r) ∷ m) = if same_index j i then some r else get i m

-- `Map.set`: an old key keeps its place.
abbrev pub set : Option ℕ → ReadServerSetting → Mappings → Mappings
set i v [] = (i, v) ∷ []
set i v ((j, r) ∷ m) = if same_index j i then (j, v) ∷ m else (j, r) ∷ set i v m

abbrev pub initial : ReadServerSetting
initial = record {
  host = none;
  port = some 3306;
  username = none;
  password = none;
  database = none;
}

abbrev pub or_initial : Option ReadServerSetting → ReadServerSetting
or_initial none = initial
or_initial (some r) = r

-- One round of the loop over the variables.
abbrev pub add_variable : Text → Text → Mappings → Mappings
add_variable key value m =
    if read_server_key_check key
    then set (server_index key)
        (set_read_server_config_values key value (or_initial (get (server_index key) m))) m
    else m

unfoldable pub read_server_mappings : Env → Mappings → Mappings
read_server_mappings [] m = m
read_server_mappings ((key, value) ∷ env) m = read_server_mappings env (add_variable key value m)

abbrev pub values : Mappings → List ReadServerSetting
values [] = []
values ((i, r) ∷ m) = r ∷ values m

pub record ReplicationOptions : Type 0 where
  pub write : ReadServerSetting
  pub read : List ReadServerSetting

-- `readWriteClusterSettings`: none is the source's `false`.
unfoldable pub read_write_cluster_settings : {S : Type 0} → Env → M S (Option ReplicationOptions)
read_write_cluster_settings env =
    let servers = values (read_server_mappings env []) in
    let settings : ReplicationOptions = record {
      write = record {
        host = variable env "DB_HOST";
        username = variable env "DB_USERNAME";
        password = variable env "DB_PASSWORD";
        database = variable env "DB_NAME";
        port = number_or (variable env "DB_PORT") 3306;
      };
      read = servers;
    } in
    if is_true (variable env "DB_USE_READ_WRITE_CLUSTER")
    then elim servers [
      | [] ↦ throw (error "Minimum of 1 read server mapping is required")
      | r ∷ rs ↦ pure (some settings)
    ]
    else pure none

-- The settings of the default connection, less its directories and what is constant.
pub record DatabaseConnectionConfig : Type 0 where
  pub host : Option Text
  pub username : Option Text
  pub password : Option Text
  pub database : Option Text
  pub port : Option ℕ
  pub pool_max : Option ℕ
  pub timezone : Text
  pub logging : Bool
  pub benchmark : Bool
  pub replication : Option ReplicationOptions

unfoldable pub database_config : {S : Type 0} → Env → M S DatabaseConnectionConfig
unfolding read_write_cluster_settings
database_config env = do
  replication ← read_write_cluster_settings env
  pure (record {
    host = variable env "DB_HOST";
    username = variable env "DB_USERNAME";
    password = variable env "DB_PASSWORD";
    database = variable env "DB_NAME";
    port = number_or (variable env "DB_PORT") 5432;
    pool_max = number_or (variable env "DB_POOL_CONNECTION_LIMIT") 2;
    timezone = text_or (variable env "DB_TIMEZONE") (units "+00:00");
    logging = is_true (variable env "DB_DEBUG");
    benchmark = is_true (variable env "DB_DEBUG");
    replication = replication;
  })
