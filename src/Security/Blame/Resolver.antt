-- ===== src/Security/Blame/Resolver.antt =====
-- BlameResolver of core/tools/security/blame.py: the blame of some lines, and whether the event
-- brought their commit, with the caches of a turn. An exception that leaves `resolve` is `none`.
pub mod Cache
use git_agent.Base.{
  Text, codes, Bool, true, false, Option, none, some, List, [], ◌∷◌, ◌++◌, ◌>>=◌, ℕ, ◌&&◌, not, max,
  ℤ, pos, negsuc, int_eq, if◌then◌else◌, Dict, get, put, show, nat_eq, list_eq, pair_eq, option_eq,
  ◌==◌,
}
use git_agent.Runner.Terminal.{Shell, RunResult, printed, command_failed}
use git_agent.Security.Blame.{Clock, Blame, empty_blame, parse_blame_porcelain}

-- The sandbox, which does not change meanwhile, and the range of the event.
pub record Resolver : Type 0 where
  pub clock : Clock
  pub shell : Shell
  pub repo_dir : Text
  pub range : Option (Text × Text)
  pub run : Text → RunResult

abbrev pub Key : Type 0
Key = Text × (ℕ × ℕ)

pub record Caches : Type 0 where
  pub blame_cache : Dict Key Blame
  pub ancestry_cache : Dict Text (Option Text)

unfoldable pub no_caches : Caches
no_caches = record { blame_cache = []; ancestry_cache = [] }

-- `max(1, int(start))`
unfoldable pub first_line : ℤ → ℕ
first_line (pos n) = max 1 n
first_line (negsuc n) = 1

-- `max(start, int(end or start))`
unfoldable pub last_line : ℕ → Option ℤ → ℕ
last_line start none = start
last_line start (some (pos n)) = max start n
last_line start (some (negsuc n)) = start

unfoldable pub git : Resolver → Text
git r = codes "git -C " ++ r.shell.quote r.repo_dir

unfoldable pub parse_result : Clock → RunResult → Option Blame
parse_result k (printed text) = parse_blame_porcelain k text
parse_result k (command_failed stderr text code) = some empty_blame

unfoldable pub blame_lines : Resolver → Key → Option Blame
blame_lines r (file, (start, end)) = parse_result r.clock (
    r.run (
      git r
      ++ codes " blame -L "
      ++ show start
      ++ codes ","
      ++ show end
      ++ codes " --porcelain -- "
      ++ r.shell.quote file))

-- `none` is the exception, for another code than 1.
unfoldable pub ancestor_result : RunResult → Option Bool
ancestor_result (printed text) = some true
ancestor_result (command_failed stderr text code) =
    if code == some (pos 1) then some false else none

unfoldable pub is_ancestor : Resolver → Text → Text → Option Bool
is_ancestor r commit ref = ancestor_result (
    r.run (
      git r
      ++ codes " merge-base --is-ancestor "
      ++ r.shell.quote commit
      ++ codes " "
      ++ r.shell.quote ref))

-- The result of the check, `none` if a command fails.
unfoldable pub ancestry : Resolver → Text × Text → Text → Option Text
ancestry r (before, after) commit = is_ancestor r commit after >>= λ in_after.
    (if in_after then is_ancestor r commit before else some false) >>= λ in_before.
    some (if in_after && not in_before then codes "this_event" else codes "earlier")

abbrev pub cached_or : {V : Type 0} → Option V → V × Caches → Caches → V × Caches
cached_or none fresh c = fresh
cached_or (some v) fresh c = (v, c)

unfoldable pub introduced_by :
    Resolver → Option (Text × Text) → Text → Caches → Option Text × Caches
introduced_by r none commit c = (none, c)
introduced_by r (some range) commit c =
    let result = ancestry r range commit in
    cached_or (get commit c.ancestry_cache)
      (result, record c { ancestry_cache = put commit result c.ancestry_cache }) c

-- `if blame.get("blameCommit"): …`
unfoldable pub with_introduced : Resolver → Option Text → Blame → Caches → Blame × Caches
with_introduced r none blame c = (blame, c)
with_introduced r (some []) blame c = (blame, c)
with_introduced r (some (x ∷ commit)) blame c =
    let (by, d) = introduced_by r r.range (x ∷ commit) c in (record blame { introduced_by = by }, d)

unfoldable pub resolve_key : Resolver → Key → Option Blame → Caches → Option (Blame × Caches)
resolve_key r key (some blame) c = some (blame, c)
resolve_key r key none c = blame_lines r key >>= λ found.
    let (blame, d) = with_introduced r found.commit found c in
    some (blame, record d { blame_cache = put key blame d.blame_cache })

unfoldable pub resolve : Resolver → Text → ℤ → Option ℤ → Caches → Option (Blame × Caches)
resolve r file start end c =
    let first = first_line start in
    let key : Key = (file, (first, last_line first end)) in
    resolve_key r key (get key c.blame_cache) c
