-- ===== src/Repos.antt =====
-- The repositories: src/repositories/user, src/auth/services/oauth and
-- src/auth/services/authorization-challenge-repo.
pub mod UserRepo
pub mod ClientRepo
pub mod AccessTokenRepo
pub mod RefreshTokenRepo
pub mod ChallengeRepo
