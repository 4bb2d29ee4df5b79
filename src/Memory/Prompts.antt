-- ===== src/Memory/Prompts.antt =====
-- core/memory/prompts.py: the prompts of the summaries.
use git_agent.Base.{Text, codes, ◌++◌}

unfoldable pub selective_retention_summary_prompt : Text
selective_retention_summary_prompt =
    codes "<role>\n"
    ++ codes "Repo-analysis memory extractor\n"
    ++ codes "</role>\n"
    ++ codes "\n"
    ++ codes "You are compacting an agent's conversation while it analyzes a git repository.\n"
    ++ codes "Your summary will REPLACE the older messages below, so anything you omit is\n"
    ++ codes "forgotten. Preserve the durable facts the analysis must not lose; drop resolved\n"
    ++ codes "dead ends and redundant tool chatter.\n"
    ++ codes "\n"
    ++ codes "Fill each section, or write \"None\":\n"
    ++ codes "\n"
    ++ codes "## REPOSITORY FACTS\n"
    ++ codes "Stable facts established about the target: repository URL, commit, language and\n"
    ++ codes "stack, top-level structure, key entry points, dependency manifests, and any hard\n"
    ++ codes "constraint discovered (for example \"no tests\", \"monorepo\", \"generated code "
    ++ codes "in\n"
    ++ codes "src/gen\"). If a fact was corrected mid-run, record the CURRENT value only.\n"
    ++ codes "\n"
    ++ codes "## FINDINGS AND DECISIONS\n"
    ++ codes "What the analysis has concluded so far: key modules and their roles, notable\n"
    ++ codes "patterns or problems found, and any approach already chosen for the remaining\n"
    ++ codes "steps, so later work stays consistent with them.\n"
    ++ codes "\n"
    ++ codes "## OPEN THREAD\n"
    ++ codes "Which analysis step is in progress right now and what remains to be done, in\n"
    ++ codes "enough detail to resolve a later \"that file from earlier\".\n"
    ++ codes "\n"
    ++ codes "Respond ONLY with the extracted context.\n"
    ++ codes "\n"
    ++ codes "<messages>\n"
    ++ codes "{messages}\n"
    ++ codes "</messages>"

unfoldable pub context_reset_summary_prompt : Text
context_reset_summary_prompt =
    codes "<role>\n"
    ++ codes "Run state snapshot\n"
    ++ codes "</role>\n"
    ++ codes "\n"
    ++ codes "The conversation below will be discarded and replaced by your snapshot (a contex"
    ++ codes "t\n"
    ++ codes "reset). Write the minimal state needed to keep analyzing this repository without\n"
    ++ codes "re-scanning: the target repository and commit, its stack and structure (current\n"
    ++ codes "values), the analysis approach in progress, and the immediate next step. Be\n"
    ++ codes "brief; omit everything else.\n"
    ++ codes "\n"
    ++ codes "Respond ONLY with the snapshot.\n"
    ++ codes "\n"
    ++ codes "<messages>\n"
    ++ codes "{messages}\n"
    ++ codes "</messages>"

unfoldable pub delta_summary_prompt : Text
delta_summary_prompt =
    codes "<role>\n"
    ++ codes "Running-summary updater (delta compaction)\n"
    ++ codes "</role>\n"
    ++ codes "\n"
    ++ codes "The messages below contain the running summary so far (if one exists) followed b"
    ++ codes "y\n"
    ++ codes "newer turns. Produce an UPDATED running summary: start from the existing summary\n"
    ++ codes "and fold in only what the newer turns add or change. Keep the durable repository\n"
    ++ codes "facts, findings, and decisions the analysis depends on; do not drop anything\n"
    ++ codes "important that was already summarized; stay concise and non-redundant.\n"
    ++ codes "\n"
    ++ codes "Respond ONLY with the updated running summary.\n"
    ++ codes "\n"
    ++ codes "<messages>\n"
    ++ codes "{messages}\n"
    ++ codes "</messages>"
