-- ===== src/Version/Examples.antt =====
-- Runs of pkg/version/scheme.go.
use mieru.Common.{◌<◌, ◌≡◌, ◌⊎◌, ◌↔◌, true, false}
use mieru.Version.{Version, is_less_than, is_less_than_lem, version_order}

abbrev first : Version
first = record { major = 1; minor = 2; patch = 3 }

abbrev next_patch : Version
next_patch = record { major = 1; minor = 2; patch = 4 }

abbrev next_minor : Version
next_minor = record { major = 1; minor = 3; patch = 2 }

is_less_than_lem_example : (is_less_than first next_minor ≡ true) ↔ (
    (first.major < next_minor.major)
    ⊎ ((first.major ≡ next_minor.major)
        × ((first.minor < next_minor.minor)
            ⊎ ((first.minor ≡ next_minor.minor) × (first.patch < next_minor.patch)))))
is_less_than_lem_example = is_less_than_lem first next_minor

version_order_example :
    ((is_less_than next_patch next_minor ≡ true)
      ⊎ (is_less_than next_minor next_patch ≡ true)
      ⊎ (next_patch ≡ next_minor))
    × (is_less_than next_patch next_patch ≡ false)
    × (is_less_than first next_patch ≡ true
        → is_less_than next_patch next_minor ≡ true
        → is_less_than first next_minor ≡ true)
version_order_example = version_order first next_patch next_minor
