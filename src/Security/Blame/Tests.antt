-- ===== src/Security/Blame/Tests.antt =====
-- The blame of a concrete output.
use git_agent.Base.{
  Text, codes, Bool, Option, none, some, [], ◌∷◌, ◌++◌, ◌≡◌, ℕ, ◌+◌, ◌*◌, ◌-◌, ◌&&◌, leb, all_by,
  replicate, if◌then◌else◌, refl, nat_eq, ap, pos, get, put, list_eq, list_beq, is_space, lstrip,
  rstrip, strip, text_leb, split,
}
use git_agent.Subagents.Registry.{starts_with}
use git_agent.Runner.Terminal.{printed, partition_space}
use git_agent.Security.Blame.{
  Clock, Blame, is_header, is_header_of, is_hex, parse_blame_porcelain, on_line, on_lines,
  on_header, on_other, on_field, blame_keys, start_state, candidates_of, candidate_leb, author_time,
  time_text, max_from, blame_of, chosen_blame, empty_blame, put_default, strip_brackets, iso,
  uncommitted,
}
use git_agent.Security.Blame.Resolver.{
  Resolver, Caches, first_line, last_line, blame_lines, parse_result, ancestry, is_ancestor,
  ancestor_result, resolve,
}
use git_agent.Security.Blame.Resolver.Cache.{completed, IsCurrent, Agrees, resolve-Agrees}
use git_agent.Security.Blame.Most.{IsMost, lines_of, parse_blame_porcelain-IsMost}

abbrev is_digit : ℕ → Bool
is_digit c = leb 48 c && leb c 57

abbrev value : ℕ → Text → Option ℕ
value n [] = some n
value n (c ∷ s) = if is_digit c then value (n * 10 + (c - 48)) s else none

abbrev clock : Clock
clock = record {
  splitlines = split 10;
  is_digits = all_by is_digit;
  int_of = value 0;
  iso_at = λ t west minutes. none;
}

abbrev sha_a : Text
sha_a = replicate 40 97

abbrev sha_b : Text
sha_b = replicate 40 98

abbrev output : Text
output =
    sha_a
    ++ codes " 1 1 1"
    ++ (10 ∷ codes "author Ann")
    ++ (10 ∷ codes "author-time 9")
    ++ (10 ∷ 9 ∷ codes "x")
    ++ (10 ∷ sha_b)
    ++ codes " 2 2 2"
    ++ (10 ∷ codes "author Bob")
    ++ (10 ∷ codes "author-time 5")
    ++ (10 ∷ 9 ∷ codes "y")
    ++ (10 ∷ sha_b)
    ++ codes " 3 3"
    ++ (10 ∷ 9 ∷ codes "z")

abbrev by_bob : Blame
by_bob = record {
  author = some (codes "Bob");
  email = none;
  commit = some sha_b;
  date = none;
  commit_message = none;
  introduced_by = none;
}

parsed : parse_blame_porcelain clock output ≡ some by_bob
unfolding parse_blame_porcelain is_header candidates_of on_lines codes on_line starts_with
    is_header_of split is_hex on_header put on_other on_field blame_keys list_beq partition_space
    start_state uncommitted get is_space lstrip rstrip strip text_leb author_time blame_of
    candidate_leb chosen_blame empty_blame iso max_from put_default strip_brackets time_text
parsed = refl

parse_blame_porcelain-IsMost_example :
    IsMost (λ sha. lines_of clock sha (split 10 output)) (some sha_b)
parse_blame_porcelain-IsMost_example = parse_blame_porcelain-IsMost clock output by_bob parsed

abbrev earlier : Blame
earlier = record by_bob { introduced_by = some (codes "earlier") }

-- Every command succeeds, and prints the same.
abbrev resolver : Resolver
resolver = record {
  clock = clock;
  shell = record { quote = λ t. t; int_of = λ t. none };
  repo_dir = codes "/r";
  range = some (codes "v1", codes "v2");
  run = λ command. printed output;
}

abbrev after_one : Caches
after_one = record {
  blame_cache = ((codes "a.py", (1, 3)), earlier) ∷ [];
  ancestry_cache = (sha_b, some (codes "earlier")) ∷ [];
}

blamed : blame_lines resolver (codes "a.py", (1, 3)) ≡ some by_bob
unfolding blame_lines parse_result
blamed = parsed

after_one-IsCurrent : IsCurrent resolver after_one
unfolding ancestry is_ancestor ancestor_result
after_one-IsCurrent = ((ap (completed resolver) blamed, tt), (refl, tt))

resolve-Agrees_example :
    Agrees resolver (codes "b.py", (1, 1)) (resolve resolver (codes "b.py") (pos 0) none after_one)
unfolding first_line last_line
resolve-Agrees_example =
    resolve-Agrees resolver (codes "b.py") (pos 0) none after_one after_one-IsCurrent
