-- ===== src/Config.antt =====
-- packages/config/src: the presets that a configuration extends, and the configuration of an
-- organization.
pub mod Presets
pub mod Org
