-- ===== src/Config.antt =====
-- common/WHAYaml.h: the YAML subset of the configuration files.
pub mod Yaml
pub mod Scalar
mod Tests
