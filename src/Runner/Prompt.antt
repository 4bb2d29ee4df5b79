-- ===== src/Runner/Prompt.antt =====
-- core/runner/executor.py: the task that an event gives to the lead, and the range of its changes.
use git_agent.Base.{
  Text, codes, Option, none, some, List, [], ◌∷◌, ◌++◌, ◌||◌, not, ℕ, leb, length, take,
  if◌then◌else◌, contains, join, strip, or_else, ℤ, pos, zero, nat_eq, list_eq, ◌==◌,
}
use git_agent.Runner.Terminal.{text_or}
use git_agent.Runner.Event.{Event, is_given}
use git_agent.Subagents.Ledger.{show_int}

-- What the task says of the repository; `repr` of a text is the parameter of the texts below.
pub record Repository : Type 0 where
  pub provider : Text
  pub owner : Text
  pub name : Text
  pub prompt : Option Text

unfoldable pub host_of : Text → Text
host_of provider =
    if provider == codes "github"
    then codes "github.com"
    else (if provider == codes "gitlab" then codes "gitlab.com" else provider)

unfoldable pub repo_url : Repository → Text
repo_url r =
    codes "https://"
    ++ host_of r.provider
    ++ codes "/"
    ++ r.owner
    ++ codes "/"
    ++ r.name
    ++ codes ".git"

unfoldable pub pr_actions : List Text
pr_actions = codes "pull_request" ∷ codes "merge_request" ∷ []

abbrev pub pr_body_max_chars : ℕ
pr_body_max_chars = 2000

unfoldable pub fix_tail : Text
fix_tail =
    codes
      "File every confirmed vulnerability with report_finding (file:lines from the diff); finish with write_report."

-- `a or b`
unfoldable pub either_text : Option Text → Option Text → Option Text
either_text a b = if is_given a then a else b

-- A text that is there and not empty.
unfoldable pub given_part : Option Text → (Text → Text) → List Text
given_part none f = []
given_part (some []) f = []
given_part (some (c ∷ s)) f = f (c ∷ s) ∷ []

unfoldable pub branch_note : Option Text → Text
branch_note ref = join [] (given_part ref (λ t. codes " (branch " ++ t ++ codes ")"))

unfoldable pub push_since : (Text → Text) → Event → Text → Text → Text
push_since repr e head before =
    codes "SCOPE — changes "
    ++ before
    ++ codes ".."
    ++ head
    ++ branch_note e.ref
    ++ codes ". Order: 1) git_diff(ref="
    ++ repr head
    ++ codes ", base="
    ++ repr before
    ++ codes
        ", stat=true) — the list of touched files; 2) commit messages: sandbox_run `git log --oneline "
    ++ before
    ++ codes ".."
    ++ head
    ++ codes
        "`; 3) audit ONLY the touched code: per-file patches git_diff(path=…), context of the changed lines via read_file/grep_code (callers, sinks, checks). Do not scan the whole repository; delegate file groups to subagents via task."

unfoldable pub push_latest : (Text → Text) → Text → Text
push_latest repr head =
    codes "SCOPE — changes of the latest commit "
    ++ head
    ++ codes
        " (the previous branch state is unknown: first push or force-push). Order: 1) git_diff(ref="
    ++ repr head
    ++ codes
        ", stat=true), then per-file patches; 2) audit ONLY the touched code, reading context via read_file/grep_code; do not scan the whole repository. State in the report that the comparison is against HEAD~1, not the pre-push state."

unfoldable pub scope_push : (Text → Text) → Event → Text
scope_push repr e =
    let head = text_or e.commit_sha (codes "HEAD") in
    if is_given e.before_sha
    then push_since repr e head (or_else e.before_sha [])
    else push_latest repr head

-- `f"PR #{event.pr_number}" if event.pr_number else "PR"`
unfoldable pub pr_title : Option ℤ → Text
pr_title none = codes "PR"
pr_title (some (pos zero)) = codes "PR"
pr_title (some n) = codes "PR #" ++ show_int n

unfoldable pub pr_heading : Text → Option Text → Text
pr_heading title none = title ++ codes " with no title."
pr_heading title (some []) = title ++ codes " with no title."
pr_heading title (some (c ∷ s)) = title ++ codes ": " ++ (c ∷ s)

unfoldable pub pr_body_part : Text → Text
pr_body_part text =
    let body = strip text in
    codes "PR description (author intent, context, not ground truth):\n"
    ++ (if leb (length body) pr_body_max_chars
        then body
        else take pr_body_max_chars body ++ codes "… [truncated]")

unfoldable pub pr_scope : (Text → Text) → Text → Option Text → Option Text → Text
pr_scope repr head merge_base base =
    let b = or_else base [] in
    if is_given base
    then codes "SCOPE — diff "
      ++ b
      ++ codes "..."
      ++ head
      ++ codes " ("
      ++ (if is_given merge_base then codes "merge-base with the base" else codes "PR base")
      ++ codes "): git_diff(ref="
      ++ repr head
      ++ codes ", base="
      ++ repr b
      ++ codes ", stat=true), then"
    else codes "SCOPE — changes on the PR head "
      ++ head
      ++ codes ": git_diff(ref="
      ++ repr head
      ++ codes ", stat=true), then"

unfoldable pub scope_pr : (Text → Text) → Event → Option Text → Text
scope_pr repr e merge_base =
    let head = text_or (either_text e.head_sha e.commit_sha) (codes "HEAD") in
    let scope = pr_scope repr head merge_base (either_text merge_base e.base_sha) in
    join (codes "\n") (
      (pr_heading (pr_title e.pr_number) e.pr_title ∷ given_part e.pr_body pr_body_part)
      ++ ((scope
            ++ codes
                " per-file patches git_diff(path=…). REVIEW MODE: findings must sit on diff lines, with the context of the changed lines read via read_file/grep_code; do not scan the whole repository, delegate file groups to subagents via task. Separately assess what the change breaks or widens in the attack surface (new inputs, weakened checks, new dependencies/permissions). The final write_report is a PR review: verdict, risks, findings.")
          ∷ []))

unfoldable pub scope_manual : (Text → Text) → Event → Text
scope_manual repr e =
    let head = text_or e.commit_sha (codes "HEAD") in
    codes "Manual run on commit "
    ++ head
    ++ codes
        ". If a previous commit has already been reviewed in this thread — SCOPE is the changes from it to "
    ++ head
    ++ codes ": git_diff(ref="
    ++ repr head
    ++ codes ", base=<that sha>, stat=true); otherwise the latest commit: git_diff(ref="
    ++ repr head
    ++ codes
        ", stat=true). Then per-file patches and an audit of ONLY the touched code, reading context via read_file/grep_code; do not scan the whole repository."

-- The last parts of the task, by the action.
unfoldable pub action_parts : (Text → Text) → Event → Option Text → List Text
action_parts repr e merge_base =
    if e.action == codes "full_scan"
    then codes
        "Run a FULL security audit of the repository at this commit: plan the areas (entry points, auth, data handling, dependencies, config/secrets), delegate each area to a subagent via task, collect and file every confirmed finding with report_finding, and finish with a summary write_report. Do not stop at the diff — cover the whole codebase."
      ∷ []
    else (if e.action == codes "push"
        then scope_push repr e ∷ fix_tail ∷ []
        else (if contains e.action pr_actions
            then scope_pr repr e merge_base ∷ []
            else (if e.action == codes "manual"
                then scope_manual repr e ∷ fix_tail ∷ []
                else codes
                    "Review this event in the context of what you already know about the repository (the thread accumulates across events). File confirmed vulnerabilities with report_finding and record the outcome with write_report at the end."
                  ∷ [])))

unfoldable pub files_part : List Text → List Text
files_part [] = []
files_part (f ∷ fs) =
    (codes "Changed files (as reported by the provider): " ++ join (codes ", ") (f ∷ fs)) ∷ []

unfoldable pub event_prompt : (Text → Text) → Repository → Event → Option Text → Text
event_prompt repr r e merge_base = join (codes "\n") (
    (codes "Event in repository "
      ++ r.owner
      ++ codes "/"
      ++ r.name
      ++ codes " ("
      ++ e.provider
      ++ codes "): "
      ++ e.action
      ++ codes ".")
    ∷ (given_part e.commit_sha (λ t. codes "Commit: " ++ t ++ codes ".")
        ++ (given_part e.ref (λ t. codes "Ref: " ++ t ++ codes ".")
            ++ (files_part e.changed_files
                ++ (given_part r.prompt (λ t. t) ++ action_parts repr e merge_base)))))

-- `(x or f"{head}^", head)`
unfoldable pub range_from : Option Text → Text → Text × Text
range_from base head = (text_or base (head ++ codes "^"), head)

unfoldable pub range_to : Event → Option Text → Text → Option (Text × Text)
range_to e merge_base head =
    if contains e.action pr_actions
    then some (range_from (either_text merge_base e.base_sha) head)
    else (if e.action == codes "push" || e.action == codes "manual"
        then some (range_from e.before_sha head)
        else none)

unfoldable pub scope_range : Event → Option Text → Option (Text × Text)
scope_range e merge_base =
    let head = either_text e.head_sha e.commit_sha in
    let range = range_to e merge_base (or_else head []) in
    if not (is_given head) || e.action == codes "full_scan" then none else range
