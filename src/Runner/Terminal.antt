-- ===== src/Runner/Terminal.antt =====
-- core/runner/executor.py: the commands of the streaming console, wrapped so that the output ends
-- with the exit code and the working directory.
pub mod RoundTrip
use git_agent.Base.{
  Text, codes, Bool, true, false, Option, none, some, List, [], ◌∷◌, ◌++◌, ◌&&◌, ℤ, if◌then◌else◌,
  is_nil, length, drop, ℕ, ◌+◌, nat_eq, ◌==◌,
}
use git_agent.Subagents.Registry.{starts_with}

unfoldable pub terminal_marker : Text
terminal_marker = codes "__GIT_AGENT_TERM__"

-- `shlex.quote`, and `int` of a text; `none` is the `ValueError`.
pub record Shell : Type 0 where
  pub quote : Text → Text
  pub int_of : Text → Option ℤ

unfoldable pub wrap_terminal_command : Shell → Text → Text → Text
wrap_terminal_command sh command cwd =
    codes "exec 2>&1\ncd "
    ++ sh.quote cwd
    ++ codes " 2>/dev/null\n"
    ++ command
    ++ codes "\nprintf \"\\n"
    ++ terminal_marker
    ++ codes " %d %s\" \"$?\" \"$PWD\""

-- `"\n" + TERMINAL_MARKER + " "`
unfoldable pub separator : Text
separator = 10 ∷ (terminal_marker ++ (32 ∷ []))

-- `s.rpartition(sep)` of a separator that is not empty; `none` is the empty `sep` of the result.
unfoldable pub found_or : Option (Text × Text) → Bool → ℕ → Text → Text → Option (Text × Text)
found_or (some (head, tail)) here c rest sep = some (c ∷ head, tail)
found_or none here c rest sep = if here then some ([], drop (length sep) (c ∷ rest)) else none

unfoldable pub rpartition : Text → Text → Option (Text × Text)
rpartition sep [] = none
rpartition sep (c ∷ s) = found_or (rpartition sep s) (starts_with sep (c ∷ s)) c s sep

-- `s.partition(" ")`, without the separator
unfoldable pub partition_space : Text → Text × Text
partition_space [] = ([], [])
partition_space (c ∷ s) =
    let rest : Text × Text = partition_space s in if c == 32 then ([], s) else (c ∷ rest.0, rest.1)

abbrev pub given_text : Text → Option Text
given_text [] = none
given_text (c ∷ s) = some (c ∷ s)

-- The output, the exit code and the new directory.
abbrev pub Parsed : Type 0
Parsed = Text × Option ℤ × Option Text

unfoldable pub with_code : Text → Text → Text → Option ℤ → Parsed
with_code raw head cwd none = (raw, none, none)
with_code raw head cwd (some code) = (head, some code, given_text cwd)

unfoldable pub parse_tail : Shell → Text → Text → Text → Parsed
parse_tail sh raw head tail =
    let (code_text, cwd) = partition_space tail in with_code raw head cwd (sh.int_of code_text)

-- Without a newline before it, the marker may still start the output.
unfoldable pub without_newline : Shell → Text → Parsed
without_newline sh raw =
    let marked = parse_tail sh raw [] (drop (length terminal_marker + 1) raw) in
    if starts_with (terminal_marker ++ (32 ∷ [])) raw then marked else (raw, none, none)

unfoldable pub parse_found : Shell → Text → Option (Text × Text) → Parsed
parse_found sh raw none = without_newline sh raw
parse_found sh raw (some (head, tail)) = parse_tail sh raw head tail

unfoldable pub parse_terminal_output : Shell → Text → Parsed
parse_terminal_output sh raw = parse_found sh raw (rpartition separator raw)

-- How `sandbox.run` ends: with the output, or with an exception, its standard error, text and code.
pub data RunResult : Type 0 where
  printed : Text → RunResult
  command_failed : Text → Text → Option ℤ → RunResult

-- `text or default`
unfoldable pub text_or : Option Text → Text → Text
text_or none default = default
text_or (some []) default = default
text_or (some (c ∷ s)) default = c ∷ s

-- `EventExecutor.terminal`: the output, the exit code and the directory for the next command.
unfoldable pub terminal :
    Shell → Text → Option Text → (Text → RunResult) → Text → Text × Option ℤ × Text
terminal sh repo_dir cwd run command =
    let start = text_or cwd repo_dir in
    elim (run (wrap_terminal_command sh command start)) [
      | printed raw ↦
          (let parsed = parse_terminal_output sh raw in
            (parsed.0, parsed.1, text_or parsed.2 start))
      | command_failed stderr text code ↦ (text_or (some stderr) text, code, start)
    ]
