-- ===== src/Repos/ChallengeRepo/Race.antt =====
-- Two calls of `consumeCode` whose statements interleave. Each call is the two statements that
-- `consume_code` is made of: the load, which takes no lock, and the deletion by primary key, which
-- succeeds also where the row is gone.
use nestjs_framework_templat.Prelude.{
  String, some, List, [], ◌∷◌, ◌==◌, string_eq, ◌≡◌, arith, eq_iff,
}
use nestjs_framework_templat.Effect.{ok, err}
use nestjs_framework_templat.Models.{AuthorizationChallengeModel}
use nestjs_framework_templat.World.{Schema, World}
use nestjs_framework_templat.Transactions.{Connection, create_managed}
use nestjs_framework_templat.Repos.ChallengeRepo.{
  LoadedChallenge, load_code, destroy_code, consume_code,
}

-- How far a call is.
pub data Progress : Type 0 where
  waiting : Progress
  holding : LoadedChallenge → Progress
  finished : LoadedChallenge → Progress
  rejected : Progress

pub data Turn : Type 0 where
  first second : Turn

module _ (σ : Schema) where
  -- The two calls and the tables that they share.
  pub record Calls : Type 0 where
    pub one : Progress
    pub two : Progress
    pub world : World σ

  -- The next statement of a call, by the statements of `consume_code`.
  unfoldable pub advance : String → Progress → World σ → Progress × World σ
  unfolding load_code destroy_code
  advance code waiting w = elim (load_code σ code w) [
    | ok l w' ↦ (holding l, w')
    | err e w' ↦ (rejected, w')
  ]
  advance code (holding l) w = elim (destroy_code σ l w) [
    | ok u w' ↦ (finished u, w')
    | err e w' ↦ (rejected, w')
  ]
  advance code (finished l) w = (finished l, w)
  advance code rejected w = (rejected, w)

  abbrev pub turn : String → Turn → Calls → Calls
  turn code first s =
      let r : Progress × World σ = advance code s.one s.world in
      record { one = r.0; two = s.two; world = r.1 }
  turn code second s =
      let r : Progress × World σ = advance code s.two s.world in
      record { one = s.one; two = r.0; world = r.1 }

  abbrev pub schedule : String → List Turn → Calls → Calls
  schedule code [] s = s
  schedule code (t ∷ ts) s = schedule code ts (turn code t s)

  abbrev pub begin : World σ → Calls
  begin w = record { one = waiting; two = waiting; world = w }

  abbrev pub loaded : World σ → AuthorizationChallengeModel → LoadedChallenge
  loaded w r = record {
    row = r;
    user = σ.users.find_by_pk r.user_id w.users;
    client = σ.clients.find_by_pk r.client_id w.clients;
  }

  -- One call, two calls in turn, and two calls that both load first.
  pub record Raced (code : String) (w : World σ) (r : AuthorizationChallengeModel) : Type 0 where
    pub alone :
        (c : Connection σ)
        → (w' : World σ) × (consume_code σ c code w ≡ ok (loaded w r) w')
          × ((schedule code (first ∷ first ∷ []) (begin w)).world ≡ w')
          × ((schedule code (first ∷ first ∷ second ∷ second ∷ []) (begin w)).world ≡ w')
    pub serial_one :
        (schedule code (first ∷ first ∷ second ∷ second ∷ []) (begin w)).one ≡ finished (loaded w r)
    pub serial_two : (schedule code (first ∷ first ∷ second ∷ second ∷ []) (begin w)).two ≡ rejected
    pub raced_one :
        (schedule code (first ∷ second ∷ first ∷ second ∷ []) (begin w)).one ≡ finished (loaded w r)
    pub raced_two :
        (schedule code (first ∷ second ∷ first ∷ second ∷ []) (begin w)).two ≡ finished (loaded w r)

  -- Two calls of `consumeCode` for one stored code are not serialised: run one after the other, the
  -- first gets the record and the second is rejected, and the tables are those of a call alone; but
  -- when both load before either deletes, both get the record, so one code is redeemed twice.
  pub consume_code-Raced :
      (code : String) (w : World σ) (r : AuthorizationChallengeModel)
      → σ.challenges.find_by_pk code w.challenges ≡ some r
      → Raced code w r
  unfolding consume_code create_managed load_code destroy_code advance
  consume_code-Raced code w r found =
      let key = σ.challenges.find_by_pk_key code r w.challenges found in
      let gone = σ.challenges.find_by_pk-destroy code (λ x. x.id == r.id) w.challenges in
      record {
        alone = λ c. (
          record w { challenges = σ.challenges.destroy (λ x. x.id == r.id) w.challenges },
          ground arith,
          ground arith,
          ground (arith, gone, key, eq_iff r.id r.id),
        );
        serial_one = ground arith;
        serial_two = ground (arith, gone, key, eq_iff r.id r.id);
        raced_one = ground arith;
        raced_two = ground arith;
      }
