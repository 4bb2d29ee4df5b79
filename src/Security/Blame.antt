-- ===== src/Security/Blame.antt =====
-- core/tools/security/blame.py: the commit that introduced the lines of a finding.
pub mod Chosen
pub mod Most
pub mod Resolver
mod Tests
use git_agent.Base.{
  Text, codes, Bool, true, false, Option, none, some, List, [], ◌∷◌, ◌++◌, ◌>>=◌, ℕ, ◌+◌, ◌&&◌,
  ◌||◌, not, leb, ltb, length, take, drop, is_nil, is_some, all_by, contains, filter_by, strip,
  if◌then◌else◌, or_else, Dict, get, put, text_leb, split, replicate, reverse, ◌*◌, nat_eq, list_eq,
  ◌==◌, HasEq,
}
use git_agent.Subagents.Registry.{starts_with}
use git_agent.Runner.Terminal.{partition_space}

-- `str.splitlines`, `str.isdigit`, `int` of a text with a number that is not negative, and the time
-- of a stamp at an offset (whether it is to the west, and its minutes) as text. `none` is the
-- `ValueError`.
pub record Clock : Type 0 where
  pub splitlines : Text → List Text
  pub is_digits : Text → Bool
  pub int_of : Text → Option ℕ
  pub iso_at : ℕ → Bool → ℕ → Option Text

pub record Blame : Type 0 where
  pub author : Option Text
  pub email : Option Text
  pub commit : Option Text
  pub date : Option Text
  pub commit_message : Option Text
  pub introduced_by : Option Text

unfoldable pub empty_blame : Blame
empty_blame = record {
  author = none;
  email = none;
  commit = none;
  date = none;
  commit_message = none;
  introduced_by = none;
}

unfoldable pub uncommitted : Text
uncommitted = replicate 40 48

abbrev pub or_other : Option Text → Option Text → Option Text
or_other none b = b
or_other (some a) b = some a

-- The time in the zone of the author, or in UTC if the zone or the time cannot be read.
unfoldable pub iso : Clock → Text → Text → Option Text
iso k author_time tz =
    let zoned = k.int_of (take 2 (drop 1 tz)) >>= λ hours.
    k.int_of (take 2 (drop 3 tz)) >>= λ minutes.
    k.int_of author_time >>= λ t. k.iso_at t (starts_with (codes "-") tz) (hours * 60 + minutes) in
    or_other zoned (k.int_of author_time >>= λ t. k.iso_at t false 0)

unfoldable pub is_hex : ℕ → Bool
is_hex c = (leb 48 c && leb c 57) || (leb 97 c && leb c 102)

unfoldable pub is_header_of : Clock → List Text → Bool
is_header_of k (sha ∷ orig ∷ final ∷ rest) =
    length sha == 40 && (all_by is_hex sha && (k.is_digits orig && k.is_digits final))
is_header_of k _ = false

unfoldable pub is_header : Clock → Text → Bool
is_header k line = is_header_of k (split 32 line)

pub record BlameState : Type 0 where
  pub commits : Dict Text (Dict Text Text)
  pub lines_by_commit : Dict Text ℕ
  pub current : Option Text

-- `d.setdefault(k, v)`
unfoldable pub put_default : {V : Type 0} → Text → V → Dict Text V → Dict Text V
put_default k v d = if is_some (get k d) then d else put k v d

unfoldable pub on_header : Text → BlameState → BlameState
on_header sha s = record {
  commits = put_default sha [] s.commits;
  lines_by_commit = put sha (or_else (get sha s.lines_by_commit) 0 + 1) s.lines_by_commit;
  current = some sha;
}

unfoldable pub blame_keys : List Text
blame_keys =
    codes "author"
    ∷ codes "author-mail"
    ∷ codes "author-time"
    ∷ codes "author-tz"
    ∷ codes "summary"
    ∷ []

unfoldable pub on_field : Text → Text × Text → BlameState → BlameState
on_field sha (key, value) s =
    if contains key blame_keys
    then record s {
      commits = put sha (put_default key (strip value) (or_else (get sha s.commits) [])) s.commits;
    }
    else s

unfoldable pub on_other : Option Text → Text → BlameState → BlameState
on_other none line s = s
on_other (some sha) line s = on_field sha (partition_space line) s

unfoldable pub on_line : Clock → Text → BlameState → BlameState
on_line k line s =
    if starts_with (9 ∷ []) line
    then s
    else (if is_header k line
        then on_header (partition_space line).0 s
        else on_other s.current line s)

unfoldable pub on_lines : Clock → List Text → BlameState → BlameState
on_lines k [] s = s
on_lines k (line ∷ lines) s = on_lines k lines (on_line k line s)

-- The lines, the time and the id of a commit, which are compared in this order.
abbrev pub Candidate : Type 0
Candidate = ℕ × ℕ × Text

-- `int(commits[sha].get("author-time") or 0)`
unfoldable pub time_text : Clock → Option Text → Option ℕ
time_text k none = some 0
time_text k (some []) = some 0
time_text k (some (c ∷ t)) = k.int_of (c ∷ t)

unfoldable pub author_time : Clock → Dict Text (Dict Text Text) → Text → Option ℕ
author_time k commits sha = time_text k (get (codes "author-time") (or_else (get sha commits) []))

unfoldable pub candidates_of :
    Clock → Dict Text (Dict Text Text) → Dict Text ℕ → Option (List Candidate)
candidates_of k commits [] = some []
candidates_of k commits ((sha, n) ∷ rest) =
    let others = candidates_of k commits rest in
    let here = author_time k commits sha >>= λ t. others >>= λ cs. some ((n, t, sha) ∷ cs) in
    if sha == uncommitted then others else here

-- `a <= b` of two tuples
unfoldable pub candidate_leb : Candidate → Candidate → Bool
candidate_leb (n, t, sha) (m, u, tha) =
    ltb n m || (n == m && (ltb t u || (t == u && text_leb sha tha)))

-- `max(candidates)`: the first of the greatest
unfoldable pub max_from : Candidate → List Candidate → Candidate
max_from best [] = best
max_from best (c ∷ cs) = max_from (if candidate_leb c best then best else c) cs

abbrev pub given_info : Option Text → Option Text
given_info none = none
given_info (some []) = none
given_info (some (c ∷ s)) = some (c ∷ s)

-- `s.strip("<>")`
unfoldable pub strip_brackets : Text → Text
strip_brackets s = reverse (lstrip_brackets (reverse (lstrip_brackets s)))
  where
    lstrip_brackets : Text → Text
    lstrip_brackets [] = []
    lstrip_brackets (c ∷ t) =
        let rest = lstrip_brackets t in if c == 60 || c == 62 then rest else c ∷ t

unfoldable pub blame_of : Clock → Text → Dict Text Text → Blame
blame_of k sha info = record {
  author = given_info (get (codes "author") info);
  email = given_info (some (strip_brackets (or_else (get (codes "author-mail") info) [])));
  commit = some sha;
  date =
      iso k (or_else (get (codes "author-time") info) [])
        (or_else (get (codes "author-tz") info) (codes "+0000"));
  commit_message = given_info (get (codes "summary") info);
  introduced_by = none;
}

unfoldable pub chosen_blame : Clock → Dict Text (Dict Text Text) → List Candidate → Blame
chosen_blame k commits [] = empty_blame
chosen_blame k commits (c ∷ cs) =
    let (n, t, sha) = max_from c cs in blame_of k sha (or_else (get sha commits) [])

unfoldable pub start_state : BlameState
start_state = record { commits = []; lines_by_commit = []; current = none }

-- `none` is the `ValueError` of an author time that is no number.
unfoldable pub parse_blame_porcelain : Clock → Text → Option Blame
parse_blame_porcelain k text =
    let s = on_lines k (k.splitlines text) start_state in
    candidates_of k s.commits s.lines_by_commit >>= λ cs. some (chosen_blame k s.commits cs)
