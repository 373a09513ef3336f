-- ===== src/Console.antt =====
-- The back end of the console plugin, console-plugin/pkg: what it asks Kea, and what it answers.
pub mod Client
pub mod Handler
