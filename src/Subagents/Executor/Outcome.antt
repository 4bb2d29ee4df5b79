-- ===== src/Subagents/Executor/Outcome.antt =====
-- What a run returns.
use git_agent.Base.{
  Text, Bool, true, false, Option, none, some, List, [], ◌∷◌, ◌≡◌, refl, sym, ap, ◌∙◌, map,
  if◌then◌else◌, or_else, the_some, nat_eq, list_eq, ◌==◌, ℕ, ap₂, if_true, if_false,
}
use git_agent.Value.{Fields}
use git_agent.Message.{Message}
use git_agent.Security.Finding.{Finding}
use git_agent.Security.Collect.{collect_findings}
use git_agent.Subagents.Citations.{extract_tool_receipts}
use git_agent.Subagents.Ledger.{receipt_fields, extract_citing_turn_receipts}
use git_agent.Subagents.Registry.{SubagentConfig}
use git_agent.Subagents.Lifecycle.{
  SubagentResult, Answer, Terminal, running, is_terminal, update_opt, set_terminal,
  try_set_terminal, update_token_usage_records, update_tool_receipts, put_tool_receipts,
}
use git_agent.Subagents.Executor.{
  Env, Chunk, StreamEnd, finishes, recursion_limit, cancelled, fails, Progress, begin_run,
  observe_chunk, put_findings, on_chunk, stop_or, run_chunks, map_some, harvest_receipts, harvest,
  no_response, extract_final_result, capped, failure, success, end_run, arun,
}

-- The receipts of a conversation, as dictionaries.
abbrev pub receipts_in : List Message → List Fields
receipts_in messages = map receipt_fields (extract_tool_receipts messages)

-- While the stream runs, the holder is not terminal, and has the receipts of the last state.
abbrev IsLive : Progress → Type 0
IsLive p =
    (p.result.status ≡ running)
    × ((messages : List Message)
        → p.final_state ≡ some messages
        → p.result.tool_receipts ≡ some (receipts_in messages))

begin_run-IsLive : (e : Env) (task_id : Text) → IsLive (begin_run e task_id)
unfolding begin_run
begin_run-IsLive e task_id = (refl, λ ms h. cc)

put_tool_receipts-running :
    (receipts : List Fields) (r : SubagentResult)
    → r.status ≡ running
    → let q = update_tool_receipts (some receipts) r in
      (q.status ≡ running) × (q.tool_receipts ≡ some receipts)
unfolding update_tool_receipts put_tool_receipts is_terminal
put_tool_receipts-running receipts r h =
    let put = if_false _ _ (record r { tool_receipts = some receipts }) (ap is_terminal h) in
    (ap (λ q. q.status) put ∙ h, ap (λ q. q.tool_receipts) put)

update_token_usage_records-running :
    (records : List Fields) (r : SubagentResult)
    → r.status ≡ running
    → let q = update_token_usage_records records r in
      (q.status ≡ running) × (q.tool_receipts ≡ r.tool_receipts)
unfolding update_token_usage_records is_terminal
update_token_usage_records-running records r h =
    let put = if_false _ _ (record r { token_usage_records = records }) (ap is_terminal h) in
    (ap (λ q. q.status) put ∙ h, ap (λ q. q.tool_receipts) put)

observe_chunk-IsLive :
    (e : Env) (task_id : Text) (c : Chunk) (p : Progress)
    → IsLive p
    → IsLive (observe_chunk e task_id c p)
unfolding observe_chunk
observe_chunk-IsLive e task_id c p h =
    let (s1, r1) = put_tool_receipts-running (receipts_in c.messages) p.result h.0 in
    let (s2, r2) = update_token_usage_records-running c.records _ s1 in
    (s2, λ ms e. r2 ∙ r1 ∙ ap (λ m. some (receipts_in m)) (the_some e))

put_findings-IsLive :
    (why : Text) (o : Option (List Finding)) (p : Progress)
    → IsLive p
    → IsLive (put_findings why o p).0
unfolding put_findings
put_findings-IsLive why none p h = h
put_findings-IsLive why (some fs) p h = h

stop_or-IsLive :
    (o : Option Text) (p : Progress) (rest : Progress × StreamEnd)
    → IsLive p
    → IsLive rest.0
    → IsLive (stop_or o p rest).0
stop_or-IsLive none p rest hp hr = hr
stop_or-IsLive (some why) p rest hp hr = hp

run_chunks-IsLive :
    (e : Env) (task_id : Text) (cs : List Chunk) (ending : StreamEnd) (p : Progress)
    → IsLive p
    → IsLive (run_chunks e task_id cs ending p).0
unfolding run_chunks on_chunk
run_chunks-IsLive e task_id [] ending p h = h
run_chunks-IsLive e task_id (c ∷ cs) ending p h =
    let here =
      put_findings-IsLive e.bad_finding (collect_findings e.host c.messages) _
        (observe_chunk-IsLive e task_id c p h) in
    stop_or-IsLive _ _ _ here (run_chunks-IsLive e task_id cs ending _ here)

-- A live holder takes the terminal write.
try_set_terminal-running :
    (now : ℕ) (t : Terminal) (r : SubagentResult)
    → r.status ≡ running
    → is_terminal t.status ≡ true
    → (try_set_terminal now t r).0 ≡ set_terminal now t r
unfolding try_set_terminal is_terminal
try_set_terminal-running now t r h k =
    ap {A = SubagentResult × Answer} (λ x. x.0)
      (if_true _ _ _ k ∙ if_false _ _ _ (ap is_terminal h))

-- The end of a run: a terminal status, and the receipts of `harvest` if it has any.
abbrev Ends : Progress → SubagentResult → Type 0
Ends p r =
    (is_terminal r.status ≡ true)
    × (r.tool_receipts ≡ update_opt (harvest p.final_state) p.result.tool_receipts)

Ends-set_terminal :
    (now : ℕ) (t : Terminal) (p : Progress) (r : SubagentResult)
    → p.result.status ≡ running
    → is_terminal t.status ≡ true
    → t.tool_receipts ≡ harvest p.final_state
    → (try_set_terminal now t p.result).0 ≡ r
    → Ends p r
unfolding set_terminal
Ends-set_terminal now t p r h k e w =
    let done : set_terminal now t p.result ≡ r =
      sym (try_set_terminal-running now t p.result h k) ∙ w in
    (
      ap (λ q. is_terminal q.status) (sym done) ∙ k,
      ap (λ q. q.tool_receipts) (sym done) ∙ ap (λ o. update_opt o p.result.tool_receipts) e,
    )

capped_lem :
    (config : SubagentConfig) (partial : Text) (receipts : Option (List Fields))
    (records : List Fields)
    → (is_terminal (capped config partial receipts records).status ≡ true)
      × ((capped config partial receipts records).tool_receipts ≡ receipts)
unfolding capped is_terminal
capped_lem config partial receipts records =
    either (partial == no_response) _ _ (refl, refl) (refl, refl)
  where
    either :
        (b : Bool) (x y : Terminal)
        → (is_terminal x.status ≡ true) × (x.tool_receipts ≡ receipts)
        → (is_terminal y.status ≡ true) × (y.tool_receipts ≡ receipts)
        → (is_terminal (if◌then◌else◌ {A = Terminal} b x y).status ≡ true)
          × ((if◌then◌else◌ {A = Terminal} b x y).tool_receipts ≡ receipts)
    either true x y hx hy = hx
    either false x y hx hy = hy

end_run-Ends :
    (e : Env) (config : SubagentConfig) (records : List Fields) (p : Progress) (stop : StreamEnd)
    (r : SubagentResult)
    → p.result.status ≡ running
    → end_run e config records p stop ≡ some r
    → Ends p r
unfolding end_run success failure is_terminal
end_run-Ends e config records p finishes r h w =
    Ends-set_terminal e.now _ p r h refl refl (the_some w)
end_run-Ends e config records p recursion_limit r h w =
    let (k, t) =
      capped_lem config (extract_final_result e.text_of p.final_state) (harvest p.final_state)
        records in
    Ends-set_terminal e.now _ p r h k t (the_some w)
end_run-Ends e config records p cancelled r h w = cc
end_run-Ends e config records p (fails why) r h w =
    Ends-set_terminal e.now _ p r h refl refl (the_some w)

harvest-update :
    (messages : List Message)
    → update_opt (harvest (some messages)) (some (receipts_in messages))
      ≡ some (
          or_else
            (map_some (map receipt_fields) (extract_citing_turn_receipts messages))
            (receipts_in messages))
unfolding harvest harvest_receipts
harvest-update messages =
    by_snapshot (map_some (map receipt_fields) (extract_citing_turn_receipts messages))
      (receipts_in messages)
  where
    by_snapshot :
        (o : Option (List Fields)) (rs : List Fields)
        → update_opt (harvest_receipts o rs) (some rs) ≡ some (or_else o rs)
    by_snapshot (some snapshot) rs = refl
    by_snapshot none [] = refl
    by_snapshot none (r ∷ rs) = refl

-- Whatever chunks the stream has and however it ends, a holder that is returned is terminal. If there
-- was a chunk, the holder has receipts: those that the last citing turn saw, if that ledger can be
-- read back, and else all receipts of the conversation, so that a ledger that cannot be read does
-- not leave the holder without receipts.
pub arun-harvest :
    (e : Env) (config : SubagentConfig) (task_id : Text) (chunks : List Chunk) (ending : StreamEnd)
    (records : List Fields) (r : SubagentResult) (messages : List Message)
    → (arun e config task_id chunks ending records).1 ≡ some r
    → (arun e config task_id chunks ending records).0.final_state ≡ some messages
    → (is_terminal r.status ≡ true)
      × (r.tool_receipts
          ≡ some (
              or_else
                (map_some (map receipt_fields) (extract_citing_turn_receipts messages))
                (receipts_in messages)))
unfolding arun
arun-harvest e config task_id chunks ending records r messages h f =
    let run = run_chunks e task_id chunks ending (begin_run e task_id) in
    let live =
      run_chunks-IsLive e task_id chunks ending (begin_run e task_id)
        (begin_run-IsLive e task_id) in
    let ends = end_run-Ends e config records run.0 run.1 r live.0 h in
    (
      ends.0,
      ends.1
          ∙ ap₂ (λ s o. update_opt (harvest s) o) f (live.1 messages f)
          ∙ harvest-update messages,
    )
