-- ===== src/Apis.antt =====
-- The directory pkg/apis/configuration: the custom resources and their validation.
pub mod Types
pub mod Validation
