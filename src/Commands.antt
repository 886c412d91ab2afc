-- ===== src/Commands.antt =====
-- apps/common/management/commands: the commands that are run beside the server.
pub mod Bootstrap
pub mod WaitForDb
