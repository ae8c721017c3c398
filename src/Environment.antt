-- ===== src/Environment.antt =====
-- src/environment/configs: the settings that are read from the process environment. Names and values
-- are UTF-16 units; the environment is the list of its variables in order. A number that `parseFloat`
-- or `Number` reads is a natural number, none for NaN: fractions, signs, exponents and other bases
-- are left out.
pub mod Databases
pub mod Mail
use nestjs_framework_templat.Prelude.{
  ℕ, ◌+◌, ◌-◌, ◌*◌, String, Bool, true, false, ◌&&◌, Option, none, some, List, [], ◌∷◌, ◌++◌, units,
  units_eq, if◌then◌else◌, leb, nat_beq,
}

abbrev pub Text : Type 0
Text = List ℕ

abbrev pub Env : Type 0
Env = List (Text × Text)

-- `process.env[key]`
abbrev pub value_of : Env → Text → Option Text
value_of [] key = none
value_of ((k, v) ∷ env) key = if units_eq k key then some v else value_of env key

-- `process.env.NAME`
abbrev pub variable : Env → String → Option Text
variable env name = value_of env (units name)

-- `process.env.NAME || other`
abbrev pub text_or : Option Text → Text → Text
text_or none other = other
text_or (some []) other = other
text_or (some (c ∷ cs)) other = c ∷ cs

-- `process.env.NAME === 'true'`
abbrev pub is_true : Option Text → Bool
is_true none = false
is_true (some v) = units_eq v (units "true")

abbrev pub is_digit : ℕ → Bool
is_digit c = leb b'0' c && leb c b'9'

-- The digits that a text begins with, added to a number.
abbrev pub leading_digits : ℕ → Text → ℕ
leading_digits n [] = n
leading_digits n (c ∷ cs) =
    let more = leading_digits (n * 10 + (c - b'0')) cs in if is_digit c then more else n

abbrev pub parse_float : Text → Option ℕ
parse_float [] = none
parse_float (c ∷ cs) = if is_digit c then some (leading_digits 0 (c ∷ cs)) else none

abbrev pub all_digits : Text → Bool
all_digits [] = true
all_digits (c ∷ cs) = is_digit c && all_digits cs

-- `Number(text)`, which is 0 for the empty text
abbrev pub to_number : Text → Option ℕ
to_number t = if all_digits t then some (leading_digits 0 t) else none

-- `process.env.NAME ? parseFloat(process.env.NAME) : other`
abbrev pub number_or : Option Text → ℕ → Option ℕ
number_or none other = some other
number_or (some []) other = some other
number_or (some (c ∷ cs)) other = parse_float (c ∷ cs)

pub record HealthCheckConfig : Type 0 where
  pub primary_check_interval : Option ℕ
  pub audit_interval : Option ℕ
  pub threshold_percentage : Option ℕ
  pub total_attempts : Option ℕ

pub record ClusterConfig : Type 0 where
  pub enable : Bool
  pub cpu_max : Option ℕ
  pub max_worker_attempts : Option ℕ
  pub health_check_config : HealthCheckConfig

pub cluster_config : Env → ClusterConfig
cluster_config env = record {
  enable = is_true (variable env "CLUSTER_ENABLE");
  cpu_max = number_or (variable env "CLUSTER_MAX_CPU") 0;
  max_worker_attempts = number_or (variable env "CLUSTER_MAX_ATTEMPTS") 10;
  health_check_config = record {
    primary_check_interval = number_or (variable env "CLUSTER_HEALTH_PRIMARY_CHECK_INTERVAL") 2000;
    audit_interval = number_or (variable env "CLUSTER_HEALTH_AUDIT_INTERVAL") 2000;
    threshold_percentage = number_or (variable env "CLUSTER_HEALTH_AUDIT_THRESHOLD") 80;
    total_attempts = number_or (variable env "CLUSTER_HEALTH_AUDIT_ATTEMPTS") 15;
  };
}

pub record SessionConfig : Type 0 where
  pub driver : Text
  pub secret : Option Text
  pub name : Text
  pub resave : Bool
  pub save_uninitialized : Bool
  pub secure_cookie : Bool

-- `value ? value === 'true' : true`
abbrev pub is_true_or_unset : Option Text → Bool
is_true_or_unset none = true
is_true_or_unset (some []) = true
is_true_or_unset (some (c ∷ cs)) = is_true (some (c ∷ cs))

pub session_config : Env → SessionConfig
session_config env = record {
  driver = text_or (variable env "SESSION_DRIVER") (units "memory");
  secret = variable env "APP_SECRET";
  name = text_or (variable env "SESSION_NAME") (units "nestjs-session");
  resave = is_true_or_unset (variable env "SESSION_RESAVE");
  save_uninitialized = is_true (variable env "SAVE_UNINITIALIZED");
  secure_cookie = is_true (variable env "SESSION_SECURE_COOKIE");
}

-- `text.split(',')`, with the part before the comma that is read next
abbrev pub split_commas : Text → Text → List Text
split_commas part [] = part ∷ []
split_commas part (c ∷ cs) =
    let after = part ∷ split_commas [] cs in
    let within = split_commas (part ++ (c ∷ [])) cs in if nat_beq c b',' then after else within

-- `process.env.ALLOWED_ORIGINS?.split(',') || ['*']`
pub cors_origins : Env → List Text
cors_origins env = elim (variable env "ALLOWED_ORIGINS") [
  | none ↦ units "*" ∷ []
  | some origins ↦ split_commas [] origins
]
