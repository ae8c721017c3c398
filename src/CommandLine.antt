-- ===== src/CommandLine.antt =====
-- src/cli-commands: the commands that compute something of their own.
pub mod MakeMigration
pub mod GenerateClient
