-- ===== src/ToolSearch/Deferred.antt =====
-- The set-up of the deferred tools (tool_search.py).
pub mod Whole
use git_agent.Base.{
  Text, codes, Bool, true, false, Option, none, some, List, [], ◌∷◌, ◌++◌, ℕ, ◌&&◌, not, is_nil,
  is_some, any_by, filter_by, map, join, text_leb, sorted, to_set, if◌then◌else◌, nat_eq, list_eq,
  ◌==◌,
}
use git_agent.ToolSearch.{Search, Schemas, Tool, is_mcp_tool}

-- `hash`: of the tools in the order of their names
unfoldable pub catalog_hash_of : Schemas → List Tool → Text
catalog_hash_of schemas tools = schemas.hash_of (sorted (λ a b. text_leb a.name b.name) tools)

-- The tool `tool_search` is known by its catalog.
pub record DeferredToolSetup : Type 0 where
  pub tool_search_tool : Option (List Tool)
  pub deferred_names : List Text
  pub catalog_hash : Option Text

unfoldable pub no_setup : DeferredToolSetup
no_setup = record { tool_search_tool = none; deferred_names = []; catalog_hash = none }

unfoldable pub setup_for : Schemas → List Tool → DeferredToolSetup
setup_for schemas [] = no_setup
setup_for schemas (t ∷ deferred) = record {
  tool_search_tool = some (t ∷ deferred);
  deferred_names = to_set (map (λ u. u.name) (t ∷ deferred));
  catalog_hash = some (catalog_hash_of schemas (t ∷ deferred));
}

unfoldable pub build_deferred_tool_setup : Schemas → List Tool → Bool → DeferredToolSetup
build_deferred_tool_setup schemas candidates enabled =
    if enabled then setup_for schemas (filter_by is_mcp_tool candidates) else no_setup

-- A tool that is bound: a candidate, or the search over a catalog.
pub data Bound : Type 0 where
  candidate : Tool → Bound
  searches : List Tool → Bound

unfoldable pub with_search : Option (List Tool) → List Bound → List Bound
with_search none final = final
with_search (some catalog) final = final ++ searches catalog ∷ []

-- `none` is the `RuntimeError`.
unfoldable pub assemble_deferred_tools :
    Schemas → List Tool → Bool → Option (List Bound × DeferredToolSetup)
assemble_deferred_tools schemas candidates enabled =
    let setup = build_deferred_tool_setup schemas candidates enabled in
    if enabled && (is_nil setup.deferred_names && any_by is_mcp_tool candidates)
    then none
    else some (with_search setup.tool_search_tool (map candidate candidates), setup)

-- `html.escape(s, quote=False)`
unfoldable pub escape : Text → Text
escape [] = []
escape (c ∷ s) =
    let rest = escape s in
    (if c == 38
      then codes "&amp;"
      else (if c == 60 then codes "&lt;" else (if c == 62 then codes "&gt;" else c ∷ [])))
    ++ rest

unfoldable pub get_deferred_tools_prompt_section : List Text → Text
get_deferred_tools_prompt_section [] = []
get_deferred_tools_prompt_section (name ∷ names) =
    codes "<available-deferred-tools>\n"
    ++ join (10 ∷ []) (map escape (sorted text_leb (name ∷ names)))
    ++ codes "\n</available-deferred-tools>"
