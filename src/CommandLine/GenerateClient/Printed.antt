-- ===== src/CommandLine/GenerateClient/Printed.antt =====
-- The client that the command prints is the one that it stored.
use mathlib.Core.List.{append-nil}
use nestjs_framework_templat.Prelude.{
  ℕ, ◌+◌, String, Bool, false, ◌&&◌, none, some, List, [], ◌∷◌, ◌++◌, ◌==◌, string_eq, ◌≡◌, refl,
  arith, ap, ◌∙◌, eq_iff, str_beq_refl, Option-cases, inl, inr, ◌⊎◌,
}
use nestjs_framework_templat.Effect.{Result, Exception, ok, err}
use nestjs_framework_templat.Models.{ClientModel, GrantTypes}
use nestjs_framework_templat.World.{Schema, Runtime, World}
use nestjs_framework_templat.Repos.ClientRepo
use nestjs_framework_templat.Logging.{log, value, Call, generate_message, logging_service}
use nestjs_framework_templat.CommandLine.GenerateClient.{
  Credentials, Terminal, command_cls, generate_client,
}

Create-cases :
    {σ : Schema} (r : Result (World σ) ClientModel)
    → ((client : ClientModel) × (w : World σ) × (r ≡ ok client w))
      ⊎ ((e : Exception) × (w : World σ) × (r ≡ err e w))
Create-cases (ok client w) = inl (client, w, refl)
Create-cases (err e w) = inr (e, w, refl)

module _ (σ : Schema) (ρ : Runtime) where
  -- A stored client is the one row with its id and secret.
  stored_client_is_found :
      (client : ClientModel) (w : World σ)
      → σ.clients.find_by_pk client.id w.clients ≡ some client
      → ClientRepo.find_for_id_and_secret σ client.id client.secret w ≡ ok (some client) w
  unfolding ClientRepo.find_for_id_and_secret
  stored_client_is_found client w h =
      let named : ClientModel → Bool = λ c. c.id == client.id && c.secret == client.secret in
      elim (Option-cases (σ.clients.find_one named w.clients)) [
        | inl e ↦ absurd (
            ground (
              arith,
              σ.clients.find_one_complete named client.id client w.clients e h,
              str_beq_refl client.id,
              str_beq_refl client.secret,
            ))
        | inr (r, e) ↦
            let (matches, stored) = σ.clients.find_one_sound named r w.clients e in
            let same : r.id ≡ client.id = (eq_iff r.id client.id).0 (ground arith) in
            let found : σ.clients.find_by_pk client.id w.clients ≡ some r = rw (← same) stored in
            let one : r ≡ client = cc (found, h) in ap (λ o. ok o w) (e ∙ ap some one)
      ]

  create-client-inv :
      (name : String) (g : GrantTypes) (w w' : World σ) (client : ClientModel)
      → ClientRepo.create σ ρ name g w ≡ ok client w'
      → (σ.clients.insert client w.clients ≡ some w'.clients)
        × (client.name ≡ name)
        × (client.grant_type ≡ g)
        × (client.is_revoked ≡ false)
        × (w' ≡ record w { clients = w'.clients; drawn = w'.drawn })
  unfolding ClientRepo.create
  create-client-inv name g w w' client h = ground arith

  module _ (json : Credentials → List ℕ) where
    abbrev pub log_call : String → ClientModel → Call Credentials
    log_call id client = record {
      level = log;
      message = generate_message json (command_cls id) (
          value (record {
            client_id = client.id;
            client_secret = client.secret;
            grant_type = client.grant_type;
          }));
      params = some "Client" ∷ [];
    }

    -- What a successful run has stored and printed.
    pub record Printed (name : String) (g : GrantTypes) (s s' : Terminal σ) : Type 0 where
      pub client : ClientModel
      pub name_given : client.name ≡ name
      pub grant_given : client.grant_type ≡ g
      pub in_force : client.is_revoked ≡ false
      pub fresh : σ.clients.find_by_pk client.id s.world.clients ≡ none
      pub stored : σ.clients.insert client s.world.clients ≡ some s'.world.clients
      pub found :
          ClientRepo.find_for_id_and_secret σ client.id client.secret s'.world
          ≡ ok (some client) s'.world
      pub rest_kept :
          s'.world ≡ record s.world { clients = s'.world.clients; drawn = s'.world.drawn }
      pub id : String
      pub printed : s'.lines ≡ s.lines ++ (log_call id client ∷ [])

    after_create :
        (name : String) (g : GrantTypes) (s : Terminal σ)
        → generate_client σ ρ json false name g s
          ≡ elim (ClientRepo.create σ ρ name g (record s.world { drawn = s.world.drawn + 1 })) [
            | ok client w ↦ ok tt (record {
              world = w;
              lines = s.lines ++ (log_call (ρ.uuid s.world.drawn) client ∷ []);
            })
            | err e w ↦ err e (record { world = w; lines = s.lines })
          ]
    unfolding generate_client logging_service
    after_create name g s =
        elim (Create-cases
          (ClientRepo.create σ ρ name g (record s.world { drawn = s.world.drawn + 1 }))) [
            | inl (client, w, e) ↦ ground (arith, e, append-nil s.lines)
            | inr (x, w, e) ↦ ground (arith, e, append-nil s.lines)
          ]

    -- A run of the command with debug messages off that succeeds prints one line. It has the id,
    -- the secret and the grant type of a client that was not stored before, has the given name and
    -- grant type and is not revoked; and this id and secret find that client afterwards. The
    -- clients are those from before with this one inserted, and the other tables are as they were.
    pub generate_client-Printed :
        (name : String) (g : GrantTypes) (s s' : Terminal σ)
        → generate_client σ ρ json false name g s ≡ ok tt s'
        → Printed name g s s'
    generate_client-Printed name g s s' h =
        let drawn = record s.world { drawn = s.world.drawn + 1 } in
        elim (Create-cases (ClientRepo.create σ ρ name g drawn)) [
          | inr (x, w, e) ↦ absurd (ground (arith, after_create name g s, e, h))
          | inl (client, w, e) ↦
              let (stored, n, k, r, kept) = create-client-inv name g drawn w client e in
              let end : s' ≡ record {
                world = w;
                lines = s.lines ++ (log_call (ρ.uuid s.world.drawn) client ∷ []);
              } =
                ground (arith, after_create name g s, e, h) in
              let row : σ.clients.find_by_pk client.id w.clients ≡ some client = ground (
                arith,
                σ.clients.find_by_pk-insert client.id client s.world.clients w.clients stored,
                str_beq_refl client.id,
              ) in
              let there = stored_client_is_found client w row in
              record {
                client = client;
                name_given = n;
                grant_given = k;
                in_force = r;
                stored = rw end stored;
                fresh = σ.clients.insert_fresh client s.world.clients w.clients stored;
                found = rw end there;
                rest_kept = rw end kept;
                id = ρ.uuid s.world.drawn;
                printed = ap (λ (t : Terminal σ). t.lines) end;
              }
        ]
