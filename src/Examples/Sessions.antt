-- ===== src/Examples/Sessions.antt =====
-- Sessions of the small database's user, and a flash with one list for each key.
use nestjs_framework_templat.Prelude.{
  true, false, none, some, List, [], ◌∷◌, ◌++◌, ◌≡◌, ◌↔◌, ◌≢◌, refl, includes, if◌then◌else◌,
}
use nestjs_framework_templat.Effect.{ok, ◌>>◌}
use nestjs_framework_templat.Session.{
  Flash, FlashKey, intends, validation_errors, validation_inputs, Entry, intend, Message, Body,
}
use nestjs_framework_templat.ErrorFormat.{ValidationErrorsFormat}
use nestjs_framework_templat.Session.IntendManager.{set_url, get_url, or_null}
use nestjs_framework_templat.Session.IntendManager.Laws.{set_get_stale}
use nestjs_framework_templat.Session.WebGuard.{Request, can_activate}
use nestjs_framework_templat.Session.WebGuard.Laws.{IsSignedIn, can_activate_iff}
use nestjs_framework_templat.Session.Interceptors
use nestjs_framework_templat.Session.Interceptors.{Session, kill_for_api, is_api, redirect}
use nestjs_framework_templat.Session.Interceptors.LoginRoundTrip.{login_round_trip, visit}
use nestjs_framework_templat.Examples.{schema, runtime, ann, seed}

pub record Store : Type 0 where
  pub intended : List Entry
  pub errors : List ValidationErrorsFormat
  pub inputs : List Body

abbrev pub messages : (k : FlashKey) → Store → List (Message k)
messages intends s = s.intended
messages validation_errors s = s.errors
messages validation_inputs s = s.inputs

abbrev pub consume : FlashKey → Store → Store
consume intends s = record s { intended = [] }
consume validation_errors s = record s { errors = [] }
consume validation_inputs s = record s { inputs = [] }

abbrev pub push : (k : FlashKey) → Message k → Store → Store
push intends e s = record s { intended = s.intended ++ (e ∷ []) }
push validation_errors e s = record s { errors = s.errors ++ (e ∷ []) }
push validation_inputs e s = record s { inputs = s.inputs ++ (e ∷ []) }

pub messages-consume : (k : FlashKey) (s : Store) → messages k (consume k s) ≡ []
messages-consume intends s = refl
messages-consume validation_errors s = refl
messages-consume validation_inputs s = refl

pub messages-push :
    (k : FlashKey) (e : Message k) (s : Store) → messages k (push k e s) ≡ messages k s ++ (e ∷ [])
messages-push intends e s = refl
messages-push validation_errors e s = refl
messages-push validation_inputs e s = refl

pub messages-consume_other :
    (k j : FlashKey) (s : Store) → j ≢ k → messages j (consume k s) ≡ messages j s
messages-consume_other intends intends s h = absurd (h refl)
messages-consume_other intends validation_errors s h = refl
messages-consume_other intends validation_inputs s h = refl
messages-consume_other validation_errors intends s h = refl
messages-consume_other validation_errors validation_errors s h = absurd (h refl)
messages-consume_other validation_errors validation_inputs s h = refl
messages-consume_other validation_inputs intends s h = refl
messages-consume_other validation_inputs validation_errors s h = refl
messages-consume_other validation_inputs validation_inputs s h = absurd (h refl)

pub messages-push_other :
    (k j : FlashKey) (m : Message k) (s : Store) → j ≢ k → messages j (push k m s) ≡ messages j s
messages-push_other intends intends m s h = absurd (h refl)
messages-push_other intends validation_errors m s h = refl
messages-push_other intends validation_inputs m s h = refl
messages-push_other validation_errors intends m s h = refl
messages-push_other validation_errors validation_errors m s h = absurd (h refl)
messages-push_other validation_errors validation_inputs m s h = refl
messages-push_other validation_inputs intends m s h = refl
messages-push_other validation_inputs validation_errors m s h = refl
messages-push_other validation_inputs validation_inputs m s h = absurd (h refl)

abbrev pub flash : Flash
flash = record {
  Store = Store;
  messages = messages;
  consume = consume;
  push = push;
  messages-consume = messages-consume;
  messages-push = messages-push;
  messages-consume_other = messages-consume_other;
  messages-push_other = messages-push_other;
}

abbrev pub old : Store
old = record { intended = intend (some "/old") ∷ []; errors = []; inputs = [] }

set_get_stale_example :
    (t : Store) × ((set_url flash (some "/new") >> get_url flash) old ≡ ok (some "/old") t)
    × (t.intended ≡ intend (some "/old") ∷ [])
    × ((u : Store) × (get_url flash old ≡ ok (some "/old") u))
set_get_stale_example = set_get_stale flash old (some "/new")

abbrev signed_in : Request schema
signed_in = record {
  world = seed;
  session = some (some (record { is_auth = true; user_id = some 7 }));
  user = none;
}

can_activate_iff_example :
    (can_activate schema runtime signed_in ≡ ok true (record signed_in { user = some ann }))
    ↔ IsSignedIn schema runtime signed_in ann
can_activate_iff_example = can_activate_iff schema runtime signed_in ann

abbrev of_nobody : Request schema
of_nobody = record signed_in { session = some (some (record { is_auth = true; user_id = some 8 })) }

abbrev dashboard : Interceptors.Request
dashboard = record { method = "get"; url = "/dashboard"; xhr = false; wants_json = false }

abbrev home : Interceptors.Request
home = record { method = "GET"; url = "/"; xhr = false; wants_json = false }

home-sets_up : Interceptors.LoginRoundTrip.sets_up flash home ≡ false
unfolding includes
home-sets_up = refl

login_round_trip_example :
    (t : Store) × (visit flash dashboard "Unauthorized" home old
      ≡ ok
          (
            redirect "/",
            or_null flash (if Interceptors.is_get dashboard then some "/dashboard" else none),
          )
          t)
login_round_trip_example =
    login_round_trip flash dashboard home "Unauthorized" old refl home-sets_up
