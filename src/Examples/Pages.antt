-- ===== src/Examples/Pages.antt =====
-- Pages of rows, refused forms, names of migrations and read servers.
use nestjs_framework_templat.Prelude.{
  ◌+◌, String, true, false, none, some, List, [], ◌∷◌, ◌≡◌, refl, arith, units, length, take, drop,
  includes,
}
use nestjs_framework_templat.Effect.{ok, ValidationErrors, validation_error, no_errors, more_errors}
use nestjs_framework_templat.ErrorFormat.{formatted_errors}
use nestjs_framework_templat.Pagination.{
  PaginateOptions, PaginateModuleOptions, Finder, pos, negsuc,
}
use nestjs_framework_templat.Pagination.Crawl.{crawl, crawl-rows}
use nestjs_framework_templat.Session.{fields}
use nestjs_framework_templat.Session.ErrorPages
use nestjs_framework_templat.Session.ErrorPages.{
  catch, redirect, previous_url, context, empty_bag, all_errors, inputs_of,
}
use nestjs_framework_templat.Session.ErrorPages.RoundTrip.{show_page, error_round_trip}
use nestjs_framework_templat.Environment.{Env}
use nestjs_framework_templat.Environment.Databases.{
  get, read_server_mappings, read_server_key_check, server_index, set_read_server_config_values,
}
use nestjs_framework_templat.Environment.Databases.Grouping.{
  server_of, variables_of, read_server_mappings-server_of,
}
use nestjs_framework_templat.CommandLine.MakeMigration.{DateTime, migration_name}
use nestjs_framework_templat.CommandLine.MakeMigration.Collisions.{before, later_sorts_first}
use nestjs_framework_templat.Examples.Sessions.{flash, Store, old}

abbrev rows : List String
rows = "a" ∷ "b" ∷ "c" ∷ []

abbrev finder : Finder (Unit {0}) String
finder none start s = ok (length rows, rows) s
finder (some limit) (pos start) s = ok (length rows, take limit (drop start rows)) s
finder (some limit) (negsuc start) s = ok (length rows, []) s

abbrev defaults : PaginateModuleOptions
defaults = record {
  url = none;
  show_url = some true;
  structure = some "segmented";
  default_offset = some 20;
  default_page = some 1;
  show_offset = none;
}

abbrev options : PaginateOptions
options = record {
  url = some (units "http://x");
  show_url = none;
  structure = none;
  offset = some 2;
  page = none;
  path = some (units "/u");
  show_offset = none;
}

crawl-rows_example : crawl defaults finder options 3 1 tt ≡ ok (some rows) tt
crawl-rows_example =
    crawl-rows defaults finder options rows tt 1 3 (λ limit start. refl) refl (omega arith)
      (omega arith)

abbrev refused_form : ValidationErrors
refused_form =
    more_errors (validation_error "email" (("isEmail", "email must be an email") ∷ []) no_errors)
      no_errors

abbrev form_request : ErrorPages.Request
form_request = record {
  wants_json = false;
  body = fields (("email", "x") ∷ []);
  referrer = some "/login";
  previous = none;
}

error_round_trip_example :
    (t u v : Store) × (catch flash form_request refused_form "Error" old
      ≡ ok (redirect (previous_url form_request)) t)
    × (show_page flash t
        ≡ ok
            (context
              (some (record {
                all = all_errors (formatted_errors refused_form []);
                errors = formatted_errors refused_form [];
              }))
              (some (inputs_of (form_request.body ∷ []))))
            u)
    × (show_page flash u ≡ ok (context (some empty_bag) (some (fields []))) v)
error_round_trip_example = error_round_trip flash form_request refused_form "Error" old refl

abbrev env : Env
env =
    (units "DB_READ_HOST_SERVER_2", units "h2")
    ∷ (units "DB_READ_HOST_SERVER_1", units "h1")
    ∷ (units "DB_READ_PORT_SERVER_2", units "5433")
    ∷ []

read_server_mappings-server_of_example :
    get (some 2) (read_server_mappings env []) ≡ server_of (variables_of (some 2) env)
read_server_mappings-server_of_example = read_server_mappings-server_of (some 2) env

second_server :
    get (some 2) (read_server_mappings env [])
    ≡ some (record {
      host = some (units "h2");
      port = some 5433;
      username = none;
      password = none;
      database = none;
    })
unfolding read_server_mappings read_server_key_check server_index set_read_server_config_values
    includes
second_server = refl

abbrev morning : DateTime
morning = record { year = 2024; month = 5; day = 17; hour = 11; minute = 30; second = 9 }

later_sorts_first_example :
    before
      (migration_name (record morning { hour = 12 + 1; minute = 0; second = 0 }) (units "b"))
      (migration_name morning (units "a"))
    ≡ true
later_sorts_first_example =
    later_sorts_first morning 1 0 0 (units "a") (units "b") (omega arith) (omega arith)
      (omega arith)
