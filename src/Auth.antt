-- ===== src/Auth.antt =====
-- src/auth: the OAuth 2 server.
pub mod Dto
pub mod AuthService
pub mod Grants
pub mod Strategies
pub mod Guards
pub mod OauthController
pub mod Authorization
pub mod LoginStrategy
pub mod PasswordFlow
pub mod LoginSession
pub mod Keys
pub mod HashEncrypt
pub mod Redirectors
