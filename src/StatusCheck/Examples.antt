-- ===== src/StatusCheck/Examples.antt =====
-- The staleness check at a concrete lineage.
use kaos_control.Common.{◌≡◌, ◌↔◌, ◌≤◌, ◌*◌, refl, some, List, [], ◌∷◌, length}
use kaos_control.StatusCheck.{Artifact, suggested}
use kaos_control.StatusCheck.Stale.{IsStale, suggested_iff}
use kaos_control.StatusCheck.Advance.{Advances, stop, advance, advances_end}

abbrev idea : Artifact
idea = record { path = "i.md"; lineage = "l"; type = "idea"; status = "draft"; parent = "" }

abbrev requirement : Artifact
requirement = record {
  path = "r.md";
  lineage = "l";
  type = "requirement";
  status = "planning";
  parent = "i.md";
}

abbrev dropped : Artifact
dropped = record requirement { path = "x.md"; status = "abandoned" }

abbrev lineage : List Artifact
lineage = idea ∷ requirement ∷ dropped ∷ []

suggested_iff_example : (suggested lineage idea ≡ some "planning") ↔ IsStale lineage idea "planning"
suggested_iff_example = suggested_iff lineage idea "planning"

one_advance : Advances 1 lineage (record idea { status = "planning" } ∷ requirement ∷ dropped ∷ [])
unfolding suggested kaos_control.Common.has kaos_control.StatusCheck.status_rank
one_advance = advance [] idea (requirement ∷ dropped ∷ []) "planning" refl stop

advances_end_example : 1 ≤ 7 * length lineage
advances_end_example = advances_end one_advance
