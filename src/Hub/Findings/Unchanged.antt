-- ===== src/Hub/Findings/Unchanged.antt =====
-- What an insertion of a finding or of a report leaves as it is.
use git_agent.Base.{
  Text, Bool, true, false, Option, ◌∷◌, ◌≡◌, refl, ℕ, contains, if◌then◌else◌, nat_eq, list_eq,
}
use git_agent.Security.Report.{Reported, Structured}
use git_agent.Hub.Findings.{ResultTables, warn_schema_v1, add_finding, add_report}

-- The same tables, but for the warnings of the process.
abbrev pub Agrees : ResultTables → ResultTables → Type 0
Agrees s t =
    (s.findings ≡ t.findings)
    × (s.reports ≡ t.reports)
    × (s.has_v2 ≡ t.has_v2)
    × (s.has_structured ≡ t.has_structured)

warn_schema_v1-Agrees : (what : Text) (t : ResultTables) → Agrees (warn_schema_v1 what t) t
unfolding warn_schema_v1
warn_schema_v1-Agrees what t = either (contains what t.warned_schema)
  where
    either :
        (b : Bool) → Agrees (if b then t else record t { warned_schema = what ∷ t.warned_schema }) t
    either true = (refl, refl, refl, refl)
    either false = (refl, refl, refl, refl)

if_warned-Agrees :
    (b : Bool) (what : Text) (t : ResultTables) → Agrees (if b then t else warn_schema_v1 what t) t
if_warned-Agrees true what t = (refl, refl, refl, refl)
if_warned-Agrees false what t = warn_schema_v1-Agrees what t

pub add_finding-Agrees :
    (instance_id : ℕ) (r : Reported) (event_id : Option ℕ) (t : ResultTables)
    → let s = add_finding instance_id r event_id t in
      (s.reports ≡ t.reports) × (s.has_v2 ≡ t.has_v2) × (s.has_structured ≡ t.has_structured)
unfolding add_finding
add_finding-Agrees instance_id r event_id t =
    let same = if_warned-Agrees t.has_v2 _ t in (same.1, same.2, same.3)

pub add_report-Agrees :
    (instance_id : ℕ) (event_id : Option ℕ) (summary : Text) (x : Structured) (t : ResultTables)
    → let s = (add_report instance_id event_id summary x t).0 in
      (s.findings ≡ t.findings) × (s.has_v2 ≡ t.has_v2) × (s.has_structured ≡ t.has_structured)
unfolding add_report
add_report-Agrees instance_id event_id summary x t =
    let same = if_warned-Agrees t.has_structured _ t in (same.0, same.2, same.3)
