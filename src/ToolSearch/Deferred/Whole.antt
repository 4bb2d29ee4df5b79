-- ===== src/ToolSearch/Deferred/Whole.antt =====
-- The set-up is whole or empty.
use git_agent.Base.{
  Bool, true, false, Option, none, some, List, [], ◌∷◌, ◌++◌, ◌≡◌, refl, ◌&&◌, is_nil, any_by,
  filter_by, map, to_set, if◌then◌else◌, nat_eq, list_eq, arith,
}
use git_agent.ToolSearch.{Schemas, Tool, is_mcp_tool}
use git_agent.ToolSearch.Deferred.{
  DeferredToolSetup, Bound, candidate, searches, no_setup, catalog_hash_of, setup_for,
  build_deferred_tool_setup, with_search, assemble_deferred_tools,
}

-- Either nothing is deferred and all three fields are empty, or the three fields are about the
-- tools that are deferred.
abbrev pub IsWhole : Schemas → List Tool → DeferredToolSetup → Type 0
IsWhole schemas [] setup = setup ≡ no_setup
IsWhole schemas (t ∷ ts) setup =
    (setup.tool_search_tool ≡ some (t ∷ ts))
    × (setup.deferred_names ≡ to_set (map (λ u. u.name) (t ∷ ts)))
    × (is_nil setup.deferred_names ≡ false)
    × (setup.catalog_hash ≡ some (catalog_hash_of schemas (t ∷ ts)))

abbrev pub deferred_of : Bool → List Tool → List Tool
deferred_of true candidates = filter_by is_mcp_tool candidates
deferred_of false candidates = []

abbrev pub bound_of : List Tool → List Tool → List Bound
bound_of [] candidates = map candidate candidates
bound_of (t ∷ ts) candidates = map candidate candidates ++ searches (t ∷ ts) ∷ []

setup_for-IsWhole : (schemas : Schemas) (ts : List Tool) → IsWhole schemas ts (setup_for schemas ts)
unfolding setup_for to_set
setup_for-IsWhole schemas [] = refl
setup_for-IsWhole schemas (t ∷ ts) = (refl, refl, refl, refl)

any_by-filter_by : (p : Tool → Bool) (ts : List Tool) → filter_by p ts ≡ [] → any_by p ts ≡ false
any_by-filter_by p [] h = refl
any_by-filter_by p (t ∷ ts) h = ground (arith, any_by-filter_by p ts)

-- What is bound if some tools are deferred, and the check that then passes.
assembled :
    (schemas : Schemas) (candidates ts : List Tool)
    → (ts ≡ [] → any_by is_mcp_tool candidates ≡ false)
    → let setup = setup_for schemas ts in
      let result : Option (List Bound × DeferredToolSetup) =
        some (with_search setup.tool_search_tool (map candidate candidates), setup) in
      (if is_nil setup.deferred_names && any_by is_mcp_tool candidates then none else result)
      ≡ some (bound_of ts candidates, setup)
unfolding with_search no_setup setup_for to_set
assembled schemas candidates [] g = rw (g refl)
assembled schemas candidates (t ∷ ts) g = refl

-- No call ends in the `RuntimeError`. The tools are bound as they are, with the search after them
-- exactly if some are deferred: those of MCP if deferring is enabled, and else none. The three
-- fields of the set-up are empty together or filled together.
pub assemble_deferred_tools-IsWhole :
    (schemas : Schemas) (candidates : List Tool) (enabled : Bool)
    → let ts = deferred_of enabled candidates in
      (setup : DeferredToolSetup) × (assemble_deferred_tools schemas candidates enabled
        ≡ some (bound_of ts candidates, setup))
      × IsWhole schemas ts setup
unfolding assemble_deferred_tools build_deferred_tool_setup with_search no_setup
assemble_deferred_tools-IsWhole schemas candidates true =
    let ts = filter_by is_mcp_tool candidates in
    let whole = setup_for-IsWhole schemas ts in
    (
      setup_for schemas ts,
      assembled schemas candidates ts (any_by-filter_by is_mcp_tool candidates),
      whole,
    )
assemble_deferred_tools-IsWhole schemas candidates false = (no_setup, refl, refl)
