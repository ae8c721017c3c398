-- ===== src/Transactions.antt =====
-- src/transaction-manager: a managed transaction commits when its callback resolves, and is rolled
-- back when it rejects. `Connection` is what the code relies on in sequelize: a rollback restores
-- the tables, and nothing else of the state.
use nestjs_framework_templat.Prelude.{◌≡◌, refl, arith}
use nestjs_framework_templat.Effect.{Result, Exception, ok, err}
use nestjs_framework_templat.World.{Schema, World, Action}

pub record Connection (σ : Schema) : Type 0 where
  pub rollback : World σ → World σ → World σ
  pub users_restored : (w w' : World σ) → (rollback w w').users ≡ w.users
  pub clients_restored : (w w' : World σ) → (rollback w w').clients ≡ w.clients
  pub access_tokens_restored : (w w' : World σ) → (rollback w w').access_tokens ≡ w.access_tokens
  pub refresh_tokens_restored : (w w' : World σ) → (rollback w w').refresh_tokens ≡ w.refresh_tokens
  pub challenges_restored : (w w' : World σ) → (rollback w w').challenges ≡ w.challenges

-- `TransactionProviderService.createManaged`, with no parent transaction set.
unfoldable pub create_managed : {A : Type 0} (σ : Schema) → Connection σ → Action σ A → Action σ A
create_managed σ c callback w = elim (callback w) [
  | ok a w' ↦ ok a w'
  | err e w' ↦ err e (c.rollback w w')
]

-- `TransactionInterceptor.intercept`: the handler runs in a managed transaction.
unfoldable pub intercept : {A : Type 0} (σ : Schema) → Connection σ → Action σ A → Action σ A
unfolding create_managed
intercept σ c next = create_managed σ c next

pub intercept-ok :
    {A : Type 0} (σ : Schema) (c : Connection σ) (next : Action σ A) (w w' : World σ) (a : A)
    → intercept σ c next w ≡ ok a w'
    → next w ≡ ok a w'
unfolding intercept create_managed
intercept-ok σ c next w w' a h = ground arith

-- The tables of two states agree; the random draws and the clock may not.
pub record Untouched (σ : Schema) (w w' : World σ) : Type 0 where
  pub users : w'.users ≡ w.users
  pub clients : w'.clients ≡ w.clients
  pub access_tokens : w'.access_tokens ≡ w.access_tokens
  pub refresh_tokens : w'.refresh_tokens ≡ w.refresh_tokens
  pub challenges : w'.challenges ≡ w.challenges

pub intercept-err :
    {A : Type 0} (σ : Schema) (c : Connection σ) (next : Action σ A) (w w' : World σ)
    (e : Exception)
    → intercept σ c next w ≡ err e w'
    → Untouched σ w w'
unfolding intercept create_managed
intercept-err {A} σ c next w w' e h = go (next w) refl
  where
    go : (r : Result (World σ) A) → next w ≡ r → Untouched σ w w'
    go (ok a v) q = ground arith
    go (err x v) q = record {
      users = ground (arith, c.users_restored w v);
      clients = ground (arith, c.clients_restored w v);
      access_tokens = ground (arith, c.access_tokens_restored w v);
      refresh_tokens = ground (arith, c.refresh_tokens_restored w v);
      challenges = ground (arith, c.challenges_restored w v);
    }
