-- ===== src/Subagents/Registry.antt =====
-- core/subagents/registry.py: the types of subagents, and the type that a name means.
pub mod Resolve
use git_agent.Base.{
  Text, codes, Bool, true, false, Option, none, some, List, [], ◌∷◌, ◌++◌, ◌||◌, ◌&&◌, ℕ, map,
  filter_by, is_nil, if◌then◌else◌, strip, sorted, text_leb, nat_eq, list_eq, ◌==◌, HasEq,
}

-- The time-out is in seconds.
pub record SubagentConfig : Type 0 where
  pub name : Text
  pub description : Text
  pub system_prompt : Text
  pub max_turns : ℕ
  pub timeout_seconds : ℕ

unfoldable pub general_purpose_prompt : Text
general_purpose_prompt =
    codes
      "You are a subagent: a focused worker executing ONE delegated task inside an isolated context. You operate on a git repository cloned inside a sandbox; use your tools to investigate: list_dir, read_file (paged, with line numbers), grep_code (ripgrep with context), git_diff / git_blame, and sandbox_run (shell; analyzers like semgrep/bandit may be present — check `command -v` first). `web_search(query)` (when available) finds external facts — advisories, CVE/GHSA, known vulnerabilities of a dependency version; `browse(url)` fetches an external web page as text — use it for external facts only (advisories, CVE/NVD/GHSA, dependency docs); grep/read the repository code first, never browse the repo itself.\n\nRules:\n- You are a subagent — the `task` tool is NOT available to you; never attempt to delegate further. Do all the work yourself.\n- Stay strictly within the delegated task. Do not expand scope.\n- Your context is disposable; only your final report survives. Make it self-contained: the delegating agent sees nothing else.\n\nFinal report contract (5 points):\n1. Answer the delegated question directly, first.\n2. Cite receipt ids for every action claim (see report_contract below).\n3. Attach verifiable handles (absolute paths, exact commands) to findings.\n4. List what failed or remains uncertain.\n5. Be dense: facts over narration; the delegating agent pays for every token.\n\nConfirmed vulnerabilities go through `report_finding` with ALL fields you know: title, description (source→sink trace), impact, confidence (high/medium/low), category, severity, cwe/cve, file (required) + start_line/end_line, evidence, remediation, references (URLs). Never guess or pass blame/author/commit — the system resolves it from file and lines."

unfoldable pub general_purpose : SubagentConfig
general_purpose = record {
  name = codes "general-purpose";
  description =
      codes
        "General-purpose research worker with sandbox tools (list_dir, read_file, grep_code, git_diff, git_blame, sandbox_run, browse, web_search) for investigating the cloned repository. Use for self-contained research or analysis whose intermediate context you do not need — only its report returns. Do NOT use merely because work is complex or multi-step.";
  system_prompt = general_purpose_prompt;
  max_turns = 50;
  timeout_seconds = 600;
}

-- The values of the dictionary; its keys are their names.
unfoldable pub builtin_subagents : List SubagentConfig
builtin_subagents = general_purpose ∷ []

unfoldable pub config_in : List SubagentConfig → Text → Option SubagentConfig
config_in [] name = none
config_in (c ∷ cs) name = let rest = config_in cs name in if c.name == name then some c else rest

unfoldable pub get_subagent_config : Text → Option SubagentConfig
get_subagent_config name = config_in builtin_subagents name

unfoldable pub available_subagent_names : List Text
available_subagent_names = sorted text_leb (map (λ c. c.name) builtin_subagents)

-- `s.startswith(prefix)`
unfoldable pub starts_with : Text → Text → Bool
starts_with [] s = true
starts_with (c ∷ prefix) [] = false
starts_with (c ∷ prefix) (d ∷ s) = c == d && starts_with prefix s

-- `s.replace("_", "-").replace(" ", "-")`
unfoldable pub dashed : Text → Text
dashed [] = []
dashed (c ∷ s) = (if c == 95 || c == 32 then 45 else c) ∷ dashed s

-- `str.lower` is the parameter.
unfoldable pub normalized_name : (Text → Text) → Text → Text
normalized_name lower name = dashed (lower (strip name))

unfoldable pub is_candidate : Text → Text → Bool
is_candidate norm n = n == norm || (starts_with norm n || starts_with n norm)

unfoldable pub type_note : Text → Text → Text
type_note name chosen =
    codes "subagent_type '" ++ name ++ codes "' resolved to '" ++ chosen ++ codes "'"

-- The only registered type is taken under any name.
unfoldable pub only_one : List Text → List Text → List Text
only_one [] (n ∷ []) = n ∷ []
only_one found names = found

unfoldable pub chosen_of : Text → List Text → Option SubagentConfig × Option Text
chosen_of name (n ∷ []) = (get_subagent_config n, some (type_note name n))
chosen_of name _ = (none, none)

unfoldable pub resolve_name : (Text → Text) → Text → Option SubagentConfig × Option Text
resolve_name lower name =
    let names = map (λ c. c.name) builtin_subagents in
    let norm = normalized_name lower name in
    chosen_of name (only_one (filter_by (is_candidate norm) names) names)

unfoldable pub exact_or :
    Option SubagentConfig
    → Option SubagentConfig × Option Text
    → Option SubagentConfig × Option Text
exact_or none resolved = resolved
exact_or (some c) resolved = (some c, none)

unfoldable pub resolve_subagent_config : (Text → Text) → Text → Option SubagentConfig × Option Text
resolve_subagent_config lower name = exact_or (get_subagent_config name) (resolve_name lower name)
