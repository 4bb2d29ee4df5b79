-- ===== src/ToolSearch/Tests.antt =====
-- The search among two tools.
use git_agent.Base.{
  Text, codes, true, false, some, List, [], ◌∷◌, ◌≡◌, refl, is_nil, strip, is_space, lstrip, rstrip,
  nat_eq, list_eq, list_beq, length, take,
}
use git_agent.Value.{end, field_get, field_put}
use git_agent.Subagents.Registry.{starts_with}
use git_agent.ToolSearch.{
  Search, Schemas, Tool, mcp_tool_metadata_key, tag_mcp_tool, is_mcp_tool, occurs, search,
  compile_catalog_regex,
}
use git_agent.ToolSearch.Found.{name_first, search-name_first}
use git_agent.ToolSearch.Deferred.{DeferredToolSetup, assemble_deferred_tools}
use git_agent.ToolSearch.Deferred.Whole.{
  IsWhole, bound_of, deferred_of, assemble_deferred_tools-IsWhole,
}

-- A pattern is a text, which is found where it occurs.
abbrev plain : Search
plain = record {
  Pattern = Text;
  compile = λ p. some p;
  compile_escaped = λ p. p;
  finds = occurs;
  count_found = λ p t. length t;
  lower = λ t. t;
}

abbrev tool : Text → Text → Tool
tool name description = record { name = name; description = description; metadata = end }

abbrev two_tools : List Tool
two_tools =
    tag_mcp_tool (tool (codes "read") (codes "list files"))
    ∷ tool (codes "list") (codes "names")
    ∷ []

abbrev schemas : Schemas
schemas = record { hash_of = λ ts. codes "h"; json_of = λ ts. codes "j" }

query_full : is_nil (strip (codes " list")) ≡ false
unfolding strip rstrip lstrip is_space codes
query_full = refl

not_select : starts_with (codes "select:") (strip (codes " list")) ≡ false
unfolding strip rstrip lstrip is_space codes starts_with
not_select = refl

not_plus : starts_with (codes "+") (strip (codes " list")) ≡ false
unfolding strip rstrip lstrip is_space codes starts_with
not_plus = refl

search-name_first_example :
    search plain two_tools (codes " list")
    ≡ take 5 (name_first plain (compile_catalog_regex plain (strip (codes " list"))) two_tools)
search-name_first_example =
    search-name_first plain two_tools (codes " list") query_full not_select not_plus

-- Tagging a tool makes it one of MCP.
tagged : is_mcp_tool (tag_mcp_tool (tool (codes "a") [])) ≡ true
unfolding is_mcp_tool tag_mcp_tool field_get field_put mcp_tool_metadata_key codes list_beq
tagged = refl

assemble_deferred_tools-IsWhole_example :
    (setup : DeferredToolSetup) × (assemble_deferred_tools schemas two_tools true
      ≡ some (bound_of (deferred_of true two_tools) two_tools, setup))
    × IsWhole schemas (deferred_of true two_tools) setup
assemble_deferred_tools-IsWhole_example = assemble_deferred_tools-IsWhole schemas two_tools true
