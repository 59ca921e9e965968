-- ===== src/Logger.antt =====
-- common/src/logger.cpp: the level that the first call of `Logger::log` sets. The sink is spdlog's.
pub mod Once
use client_server_db.Prelude.{Text, codes, text_eq, Bool, Option, some, if◌then◌else◌, true}
use client_server_db.Context.{Config, index}

pub data Level : Type 0 where
  trace debug info warn err critical off : Level

-- The chain of tests on `debug.level`; none where no test passes and `set_level` is not called.
unfoldable pub configured_level : Text → Option Level
configured_level s =
    if text_eq s (codes "info")
    then some info
    else if text_eq s (codes "debug")
    then some debug
    else if text_eq s (codes "warn")
    then some warn
    else if text_eq s (codes "err")
    then some err
    else if text_eq s (codes "critical")
    then some critical
    else Option.none

-- What the function keeps between calls: `init`, and spdlog's global level.
pub record Logger : Type 0 where
  pub init : Bool
  pub level : Level

abbrev pub apply_level : Option Level → Level → Level
apply_level Option.none l = l
apply_level (some l') l = l'

-- The part of `Logger::log` that runs under `if ( !init )`.
unfoldable pub log : Config → Logger → Logger
unfolding configured_level
log config l = if l.init then l else record {
  init = true;
  level = apply_level (configured_level (index (codes "debug.level") config).0) l.level;
}
