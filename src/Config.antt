-- ===== src/Config.antt =====
-- antelope-firewall-lib/src/config.rs: the endpoint lists, the node lists and what `from_config`
-- builds of a parsed configuration.
pub mod Endpoints
pub mod NodeSet
