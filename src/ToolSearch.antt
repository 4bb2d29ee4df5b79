-- ===== src/ToolSearch.antt =====
-- core/tools/mcp/tool_search.py and metadata.py: the tools whose schemas the model does not see at
-- first, and the search among them.
pub mod Deferred
pub mod Found
mod Tests
use git_agent.Base.{
  Text, codes, Bool, true, false, Option, none, some, List, [], ◌∷◌, ◌++◌, ◌>>=◌, ℕ, ◌&&◌, ◌||◌,
  not, leb, length, take, drop, is_nil, is_some, any_by, filter_by, contains, map, strip, lstrip,
  is_space, split, join, text_leb, sorted, to_set, if◌then◌else◌, nat_eq, list_eq, ◌==◌,
}
use git_agent.Value.{Value, bool, Fields, end, field_get, field_put}
use git_agent.Subagents.Registry.{starts_with}

-- `re.compile` without regard to case, which may fail, and for an escaped text, which may not;
-- `search`, the number of results of `findall`, and `str.lower`.
pub record Search : Type 1 where
  pub Pattern : Type 0
  pub compile : Text → Option Pattern
  pub compile_escaped : Text → Pattern
  pub finds : Pattern → Text → Bool
  pub count_found : Pattern → Text → ℕ
  pub lower : Text → Text

pub record Tool : Type 0 where
  pub name : Text
  pub description : Text
  pub metadata : Fields

-- The hash of the schemas of a catalog in this order, and schemas as text.
pub record Schemas : Type 0 where
  pub hash_of : List Tool → Text
  pub json_of : List Tool → Text

unfoldable pub mcp_tool_metadata_key : Text
mcp_tool_metadata_key = codes "git_agent_mcp"

unfoldable pub tag_mcp_tool : Tool → Tool
tag_mcp_tool t = record t { metadata = field_put mcp_tool_metadata_key (bool true) t.metadata }

-- `value is True`
abbrev pub is_true : Option Value → Bool
is_true (some (bool b)) = b
is_true _ = false

unfoldable pub is_mcp_tool : Tool → Bool
is_mcp_tool t = is_true (field_get mcp_tool_metadata_key t.metadata)

unfoldable pub max_results : ℕ
max_results = 5

unfoldable pub compile_catalog_regex : (s : Search) → Text → s.Pattern
compile_catalog_regex s pattern = elim (s.compile pattern) [
  | some p ↦ p
  | none ↦ s.compile_escaped pattern
]

abbrev pub text_of : Tool → Text
text_of t = t.name ++ codes " " ++ t.description

-- `required in text`
unfoldable pub occurs : Text → Text → Bool
occurs part [] = is_nil part
occurs part (c ∷ s) = starts_with part (c ∷ s) || occurs part s

-- `text.split(None, 1)`, up to the first piece and, if there is one, the other
unfoldable pub first_word : Text → Text × Text
first_word [] = ([], [])
first_word (c ∷ s) =
    let (word, rest) = first_word s in if is_space c then ([], lstrip s) else (c ∷ word, rest)

-- `key(a) >= key(b)`, which keeps the order of equals
abbrev pub more_found : (s : Search) → s.Pattern → Tool → Tool → Bool
more_found s rx a b = leb (s.count_found rx (text_of b)) (s.count_found rx (text_of a))

unfoldable pub select_tools : List Tool → Text → List Tool
select_tools tools names =
    let wanted = map strip (split 44 names) in filter_by (λ t. contains t.name wanted) tools

unfoldable pub ranked : Search → Text → List Tool → List Tool
ranked s [] candidates = candidates
ranked s (c ∷ rest) candidates =
    sorted (more_found s (compile_catalog_regex s (c ∷ rest))) candidates

unfoldable pub require_tools : Search → List Tool → Text × Text → List Tool
require_tools s tools ([], rest) = []
require_tools s tools (c ∷ word, rest) =
    let required = s.lower (c ∷ word) in
    take max_results (ranked s rest (filter_by (λ t. occurs required (s.lower t.name)) tools))

-- `2 if regex.search(t.name) else 1`, greater first
abbrev pub by_name_first : (s : Search) → s.Pattern → Tool → Tool → Bool
by_name_first s rx a b = s.finds rx a.name || not (s.finds rx b.name)

unfoldable pub match_tools : Search → List Tool → Text → List Tool
match_tools s tools query =
    let rx = compile_catalog_regex s query in
    take max_results (sorted (by_name_first s rx) (filter_by (λ t. s.finds rx (text_of t)) tools))

unfoldable pub search_for : Search → List Tool → Text → List Tool
search_for s tools query =
    if is_nil query
    then []
    else (if starts_with (codes "select:") query
        then select_tools tools (drop 7 query)
        else (if starts_with (codes "+") query
            then require_tools s tools (first_word (lstrip (drop 1 query)))
            else match_tools s tools query))

unfoldable pub search : Search → List Tool → Text → List Tool
search s tools query = search_for s tools (strip query)

unfoldable pub tool_search : Search → Schemas → List Tool → Text → Text
tool_search s schemas tools query =
    let matched = search s tools query in
    if is_nil matched then codes "No tools found matching: " ++ query else schemas.json_of matched
