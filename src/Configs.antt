-- ===== src/Configs.antt =====
-- The package internal/configs: the generation of the NGINX configuration.
pub mod ParsingHelpers
