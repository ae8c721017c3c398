-- ===== src/Environment/Databases/Grouping.antt =====
-- The read servers, described by their variables.
use nestjs_framework_templat.Prelude.{
  ℕ, String, true, ◌&&◌, Option, none, some, [], ◌∷◌, units, includes, ◌≡◌, ◌↔◌, refl, ap, ◌∙◌, sym,
  arith, keep, if◌then◌else◌, Bool-cases, inl, inr,
}
use nestjs_framework_templat.Environment.{Text, Env, to_number}
use nestjs_framework_templat.Environment.Databases.{
  ReadServerSetting, or_initial, Mappings, get, set, same_index, server_index,
  read_server_key_check, set_read_server_config_values, add_variable, read_server_mappings,
}

-- The variables that set up the read server of an index, in order.
abbrev pub variables_of : Option ℕ → Env → Env
variables_of i env =
    keep (λ (v : Text × Text). read_server_key_check v.0 && same_index (server_index v.0) i) env

-- The value of the last variable with a part in its name.
abbrev pub last_value : String → Env → Option Text
last_value part [] = none
last_value part ((key, value) ∷ env) = elim (last_value part env) [
  | some later ↦ some later
  | none ↦ if includes key (units part) then some value else none
]

abbrev or_old : Option Text → Option Text → Option Text
or_old none old = old
or_old (some value) old = some value

abbrev pub port_of : Option Text → Option ℕ → Option ℕ
port_of none old = old
port_of (some value) old = to_number value

-- A setting, with what variables say laid over it.
abbrev over : Env → ReadServerSetting → ReadServerSetting
over env r = record {
  host = or_old (last_value "_HOST_" env) r.host;
  port = port_of (last_value "_PORT_" env) r.port;
  username = or_old (last_value "_USERNAME_" env) r.username;
  password = or_old (last_value "_PASSWORD_" env) r.password;
  database = or_old (last_value "_NAME_" env) r.database;
}

-- The read server that variables describe; without one there is none.
abbrev pub server_of : Env → Option ReadServerSetting
server_of [] = none
server_of (v ∷ env) = some (record {
  host = last_value "_HOST_" (v ∷ env);
  port = port_of (last_value "_PORT_" (v ∷ env)) (some 3306);
  username = last_value "_USERNAME_" (v ∷ env);
  password = last_value "_PASSWORD_" (v ∷ env);
  database = last_value "_NAME_" (v ∷ env);
})

or_old-last :
    (part : String) (key value : Text) (env : Env) (old : Option Text)
    → or_old (last_value part ((key, value) ∷ env)) old
      ≡ or_old (last_value part env) (if includes key (units part) then some value else old)
or_old-last part key value env old = ground arith

port_of-last :
    (part : String) (key value : Text) (env : Env) (old : Option ℕ)
    → port_of (last_value part ((key, value) ∷ env)) old
      ≡ port_of (last_value part env) (if includes key (units part) then to_number value else old)
port_of-last part key value env old = ground arith

or_old-none : (o : Option Text) → or_old o none ≡ o
or_old-none none = refl
or_old-none (some t) = refl

over-cons :
    (key value : Text) (env : Env) (r : ReadServerSetting)
    → over ((key, value) ∷ env) r ≡ over env (set_read_server_config_values key value r)
unfolding set_read_server_config_values
over-cons key value env r = λ i. record {
  host = or_old-last "_HOST_" key value env r.host i;
  port = port_of-last "_PORT_" key value env r.port i;
  username = or_old-last "_USERNAME_" key value env r.username i;
  password = or_old-last "_PASSWORD_" key value env r.password i;
  database = or_old-last "_NAME_" key value env r.database i;
}

same_index_iff : (i j : Option ℕ) → (same_index i j ≡ true) ↔ (i ≡ j)
same_index_iff i j = ground arith

get-set :
    (i j : Option ℕ) (r : ReadServerSetting) (m : Mappings)
    → get i (set j r m) ≡ (if same_index j i then some r else get i m)
get-set i j r [] = refl
get-set i j r ((k, q) ∷ m) =
    ground (arith, same_index_iff k j, same_index_iff k i, same_index_iff j i, get-set i j r m)

-- A mapping, with what later variables say laid over it.
abbrev merge : Option ReadServerSetting → Env → Option ReadServerSetting
merge o [] = o
merge o (v ∷ env) = some (over (v ∷ env) (or_initial o))

merge-some : (r : ReadServerSetting) (env : Env) → merge (some r) env ≡ some (over env r)
merge-some r [] = refl
merge-some r (v ∷ env) = refl

merge-cons :
    (o : Option ReadServerSetting) (key value : Text) (env : Env)
    → merge (some (set_read_server_config_values key value (or_initial o))) env
      ≡ merge o ((key, value) ∷ env)
merge-cons o key value env =
    merge-some (set_read_server_config_values key value (or_initial o)) env
    ∙ ap some (sym (over-cons key value env (or_initial o)))

-- What one variable does to the mapping of an index.
get-add :
    (i : Option ℕ) (key value : Text) (m : Mappings)
    → get i (add_variable key value m) ≡ (
        if read_server_key_check key && same_index (server_index key) i
        then some (set_read_server_config_values key value (or_initial (get i m)))
        else get i m)
get-add i key value m = elim (Bool-cases (read_server_key_check key)) [
  | inr no_key ↦ rw no_key refl
  | inl a_key ↦ rw a_key (elim (Bool-cases (same_index (server_index key) i)) [
    | inl same ↦ let e = (same_index_iff (server_index key) i).0 same in rw (get-set, e) refl
    | inr other ↦ rw (get-set, other) refl
  ])
]

grouped :
    (i : Option ℕ) (env : Env) (m : Mappings)
    → get i (read_server_mappings env m) ≡ merge (get i m) (variables_of i env)
unfolding read_server_mappings
grouped i [] m = refl
grouped i ((key, value) ∷ env) m =
    elim (Bool-cases (read_server_key_check key && same_index (server_index key) i)) [
      | inl mine ↦
          rw (grouped i env (add_variable key value m), get-add i key value m, mine)
            (merge-cons (get i m) key value (variables_of i env))
      | inr other ↦ rw (grouped i env (add_variable key value m), get-add i key value m, other) refl
    ]

-- A read server is what its own variables say, those with a name of the right form and its index:
-- each of its settings has the value of the last one whose name holds that setting, its port is 3306
-- unless one gives it, and there is no server without such a variable. Variables of other servers,
-- and their order, make no difference.
pub read_server_mappings-server_of :
    (i : Option ℕ) (env : Env)
    → get i (read_server_mappings env []) ≡ server_of (variables_of i env)
read_server_mappings-server_of i env = grouped i env [] ∙ described (variables_of i env)
  where
    described : (vars : Env) → merge none vars ≡ server_of vars
    described [] = refl
    described (v ∷ vars) = λ j. some (record {
      host = or_old-none (last_value "_HOST_" (v ∷ vars)) j;
      port = port_of (last_value "_PORT_" (v ∷ vars)) (some 3306);
      username = or_old-none (last_value "_USERNAME_" (v ∷ vars)) j;
      password = or_old-none (last_value "_PASSWORD_" (v ∷ vars)) j;
      database = or_old-none (last_value "_NAME_" (v ∷ vars)) j;
    })
