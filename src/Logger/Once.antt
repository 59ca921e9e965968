-- ===== src/Logger/Once.antt =====
-- When the logger's level is set.
use client_server_db.Prelude.{
  ap, ◌∙◌, Text, true, false, List, [], ◌∷◌, Option, some, if◌then◌else◌, codes, ◌≡◌, refl, text_eq,
  Bool-cases, inl, inr,
}
use client_server_db.Context.{Config, index}
use client_server_db.Logger.{
  Level, info, debug, warn, err, critical, apply_level, configured_level, Logger, log,
}

-- The levels that have a name.
abbrev pub levels : List (Text × Level)
levels =
    (codes "info", info)
    ∷ (codes "debug", debug)
    ∷ (codes "warn", warn)
    ∷ (codes "err", err)
    ∷ (codes "critical", critical)
    ∷ []

-- The level of a name, or the old one where the name is not in the table.
abbrev pub level_of : Option Level → Level → Level
level_of Option.none old = old
level_of (some l) old = l

-- The first entry of a name.
unfoldable pub named : Text → List (Text × Level) → Option Level
named name [] = Option.none
named name ((n, l) ∷ rest) = if text_eq name n then some l else named name rest

applied :
    (name : Text) (old : Level)
    → apply_level (configured_level name) old ≡ level_of (named name levels) old
unfolding configured_level named
applied name old = refl

-- The first call of log, and no later one, sets the level: where no call was made before, it is the
-- one that the configuration's debug.level has in the table of names, and the old one where it is
-- not in the table, and the call is noted; behind a call, another changes nothing, whatever the two
-- configurations say; and a configuration that names the level "trace", as the repository's do,
-- leaves the level as it was.
pub log-log :
    (c d : Config) (l : Logger)
    → (l.init ≡ false
        → log c l ≡ (record {
          init = true;
          level = level_of (named (index (codes "debug.level") c).0 levels) l.level;
        }))
      × (log d (log c l) ≡ log c l)
      × ((index (codes "debug.level") c).0 ≡ codes "trace" → (log c l).level ≡ l.level)
unfolding log text_eq named
log-log c d l = elim (Bool-cases l.init) [
  | inl set ↦ rw set (λ e. cc, refl, λ e. refl)
  | inr unset ↦ rw unset (
    λ e.
        ap (λ v. record { init = true; level = v })
          (applied (index (codes "debug.level") c).0 l.level),
    refl,
    λ e. applied (index (codes "debug.level") c).0 l.level ∙ rw e refl,
  )
]
