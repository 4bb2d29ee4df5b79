-- ===== src/Middleware/LoopDetection.antt =====
-- core/middleware/loop_detection.py: the detector of repeated tool calls. `str` of an argument and
-- of a list of items, and the first 16 hexadecimal digits of SHA-256, are parameters.
pub mod Repeat
use git_agent.Base.{
  Text, codes, join, text_leb, sorted, Bool, true, false, Option, none, some, List, [], ◌∷◌, ◌++◌,
  ◌&&◌, ◌||◌, not, leb, ltb, length, drop, is_nil, contains, to_set, count, HasEq, nat_eq, list_eq,
  ◌==◌, if◌then◌else◌, map, ℕ, ◌-◌, max,
}
use git_agent.Value.{Value, Fields, field_get}
use git_agent.Message.{Message, AiMessage, ToolCall, last_ai}
use git_agent.Middleware.Clone.{strip_all_tool_calls, append_hidden_human}

unfoldable pub stop_reason_loop : Text
stop_reason_loop = codes "loop_capped"

unfoldable pub salient_arg_keys : List Text
salient_arg_keys =
    codes "command"
    ∷ codes "path"
    ∷ codes "url"
    ∷ codes "query"
    ∷ codes "pattern"
    ∷ codes "prompt"
    ∷ []

unfoldable pub loop_stop_note : Text
loop_stop_note =
    codes
      "\n\n[LOOP DETECTED] The same tool calls were repeated too many times; further tool calls were removed. Provide the final answer from what you already have."

unfoldable pub loop_warning : Text
loop_warning =
    codes
      "[loop warning] You have repeated the same tool call several times with identical arguments. Change your approach: use different arguments, a different tool, or synthesize an answer from the results you already have."

unfoldable pub freq_warning : Text → Text
freq_warning tool =
    codes "[loop warning] You are calling the tool '"
    ++ tool
    ++ codes "' very frequently. Step back, review what you already learned, and change strategy."

-- What the middleware takes from Python: `str` of a value, `str(sorted(args.items()))`, the digest.
pub record Host : Type 0 where
  pub str_value : Value → Text
  pub str_items : Fields → Text
  pub digest : Text → Text

unfoldable pub salient_parts : Host → Fields → List Text → List Text
salient_parts host args [] = []
salient_parts host args (key ∷ keys) =
    let rest = salient_parts host args keys in
    elim (field_get key args) [
      | none ↦ rest
      | some v ↦ (key ++ codes "=" ++ host.str_value v) ∷ rest
    ]

unfoldable pub salient : Host → ToolCall → Text
salient host call =
    let parts : List Text = salient_parts host call.args salient_arg_keys in
    join (codes ":") (call.name ∷ (if is_nil parts then host.str_items call.args ∷ [] else parts))

unfoldable pub hash_call_set : Host → List ToolCall → Text
hash_call_set host calls =
    host.digest (join (codes "\n") (sorted text_leb (map (salient host) calls)))

pub record Loop : Type 0 where
  pub window : ℕ
  pub identical_warn : ℕ
  pub identical_hard : ℕ
  pub freq_warn : ℕ
  pub freq_hard : ℕ
  pub history : List Text
  pub tool_history : List Text
  pub warned_hashes : List Text
  pub warned_tools : List Text
  pub pending_warnings : List Text
  pub stop_reason : Option Text

-- `LoopDetectionMiddleware(window=…, identical_warn=…, identical_hard=…, tool_freq_warn=…, …)`
unfoldable pub init : ℕ → ℕ → ℕ → ℕ → ℕ → Loop
init window identical_warn identical_hard tool_freq_warn tool_freq_hard = record {
  window = max (max window identical_hard) tool_freq_hard;
  identical_warn = identical_warn;
  identical_hard = identical_hard;
  freq_warn = tool_freq_warn;
  freq_hard = tool_freq_hard;
  history = [];
  tool_history = [];
  warned_hashes = [];
  warned_tools = [];
  pending_warnings = [];
  stop_reason = none;
}

unfoldable pub consume_stop_reason : Loop → Loop × Option Text
consume_stop_reason s = (record s { stop_reason = none }, s.stop_reason)

-- `deque(maxlen=window).append(x)`
unfoldable pub push : ℕ → List Text → Text → List Text
push window xs x = let ys = xs ++ x ∷ [] in drop (length ys - window) ys

unfoldable pub push_names : ℕ → List Text → List ToolCall → List Text
push_names window xs [] = xs
push_names window xs (c ∷ cs) = push_names window (push window xs c.name) cs

-- The first of the most frequent names, `Counter(names).most_common(1)[0]`, or `("", 0)`.
unfoldable pub most_common : List Text → List Text → Text × ℕ → Text × ℕ
most_common names [] best = best
most_common names (k ∷ keys) best =
    most_common names keys (if ltb best.1 (count k names) then (k, count k names) else best)

unfoldable pub hot : List Text → Text × ℕ
hot names = most_common names (to_set names) ([], 0)

-- The two warnings, each once for a set of calls or for a tool.
unfoldable pub warn : Loop → Text → ℕ → Text × ℕ → Loop
warn s set_hash identical_count hot_tool =
    if leb s.identical_warn identical_count && not (contains set_hash s.warned_hashes)
    then record s {
      warned_hashes = set_hash ∷ s.warned_hashes;
      pending_warnings = s.pending_warnings ++ loop_warning ∷ [];
    }
    else if leb s.freq_warn hot_tool.1 && not (contains hot_tool.0 s.warned_tools)
    then record s {
      warned_tools = hot_tool.0 ∷ s.warned_tools;
      pending_warnings = s.pending_warnings ++ freq_warning hot_tool.0 ∷ [];
    }
    else s

unfoldable pub observe : Host → Loop → List ToolCall → Loop
observe host s calls = record s {
  history = push s.window s.history (hash_call_set host calls);
  tool_history = push_names s.window s.tool_history calls;
}

unfoldable pub decide : Loop → Text → AiMessage → Loop × Option AiMessage
decide s set_hash last =
    let identical_count : ℕ = count set_hash s.history in
    let hot_tool : Text × ℕ = hot s.tool_history in
    if leb s.identical_hard identical_count || leb s.freq_hard hot_tool.1
    then (
      record s { stop_reason = some stop_reason_loop },
      some (strip_all_tool_calls last loop_stop_note),
    )
    else (warn s set_hash identical_count hot_tool, none)

unfoldable pub inspect : Host → Loop → AiMessage → Loop × Option AiMessage
inspect host s last =
    if is_nil last.tool_calls
    then (s, none)
    else decide (observe host s last.tool_calls) (hash_call_set host last.tool_calls) last

unfoldable pub after_model : Host → Loop → List Message → Loop × Option AiMessage
after_model host s messages = elim (last_ai messages) [
  | none ↦ (s, none)
  | some last ↦ inspect host s last
]

unfoldable pub drain : Loop → List Message → Loop × List Message
drain s request =
    if is_nil s.pending_warnings
    then (s, request)
    else (record s { pending_warnings = [] }, append_hidden_human request s.pending_warnings)

unfoldable pub wrap_model_call {ℓ} :
    {R : Type ℓ} → (List Message → R) → Loop → List Message → Loop × R
wrap_model_call handler s request = let (s', request') = drain s request in (s', handler request')
