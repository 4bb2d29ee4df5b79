-- ===== src/Middleware/LoopDetection/Repeat.antt =====
-- core/middleware/loop_detection.py: a repeated set of calls is stopped.
use git_agent.Base.{
  Text, false, some, List, [], ◌∷◌, ◌++◌, ◌≡◌, refl, sym, ap, ◌∙◌, arith, subst, ℕ, zero, suc, ◌+◌,
  ◌-◌, ◌≤◌, ◌<◌, length, length-append, drop, drop-append, replicate, length-replicate,
  replicate-append_one, append_assoc, append-nil, filter_by, filter_by-append, count, is_nil, All,
  nat_eq, list_eq, ◌==◌, ==_refl, le→leb,
}
use git_agent.Message.{Message, AiMessage, ToolCall, last_ai}
use git_agent.Middleware.Clone.{strip_all_tool_calls}
use git_agent.Middleware.TokenBudget.Stop.{tool_calls-strip}
use git_agent.Middleware.LoopDetection.{
  Host, Loop, hot, hash_call_set, push, observe, decide, warn, inspect, after_model, loop_stop_note,
}

-- The history ends with `k` copies of the hash.
abbrev EndsWith : ℕ → Text → List Text → Type 0
EndsWith k h xs = (front : List Text) × (xs ≡ front ++ replicate k h)

push-EndsWith :
    (window k : ℕ) (h : Text) (xs : List Text)
    → k < window
    → EndsWith k h xs
    → EndsWith (suc k) h (push window xs h)
unfolding push
push-EndsWith window k h xs lt (front, e) =
    let grown : xs ++ (h ∷ []) ≡ front ++ replicate (suc k) h =
      rw e (rw append_assoc (ap (λ r. front ++ r) (replicate-append_one k h))) in
    let size : length (front ++ replicate (suc k) h) ≡ length front + suc k =
      length-append front (replicate (suc k) h)
      ∙ ap (λ n. length front + n) (length-replicate (suc k) h) in
    (
      drop (length front + suc k - window) front,
      rw (grown, size)
          (drop-append (length front + suc k - window) front (replicate (suc k) h) (omega arith)),
    )

count-replicate : (k : ℕ) (h : Text) → count h (replicate k h) ≡ k
count-replicate zero h = refl
count-replicate (suc k) h = rw (==_refl h) (ap suc (count-replicate k h))

EndsWith-count : (k : ℕ) (h : Text) (xs : List Text) → EndsWith k h xs → k ≤ count h xs
EndsWith-count k h xs (front, e) =
    rw
      (
        e,
        filter_by-append (λ x. x == h) front (replicate k h),
        length-append (filter_by (λ x. x == h) front) (filter_by (λ x. x == h) (replicate k h)),
      )
      (omega (arith, count-replicate k h))

-- What the decision and the warnings leave alone.
record SameHistory (s t : Loop) : Type 0 where
  history : t.history ≡ s.history
  window : t.window ≡ s.window
  identical_hard : t.identical_hard ≡ s.identical_hard

warn-SameHistory :
    (s : Loop) (h : Text) (n : ℕ) (hot_tool : Text × ℕ) → SameHistory s (warn s h n hot_tool)
unfolding warn
warn-SameHistory s h n hot_tool = ground arith

decide-SameHistory : (s : Loop) (h : Text) (last : AiMessage) → SameHistory s (decide s h last).0
unfolding decide
decide-SameHistory s h last =
    ground (arith, warn-SameHistory s h (count h s.history) (hot s.tool_history))

-- The conversation ends with a call set of hash `h`.
abbrev pub Repeats : Host → Text → AiMessage → List Message → Type 0
Repeats host h last messages =
    (last_ai messages ≡ some last)
    × (is_nil last.tool_calls ≡ false)
    × (hash_call_set host last.tool_calls ≡ h)

unfoldable pub run : Host → Loop → List (List Message) → Loop
run host s [] = s
run host s (messages ∷ rest) = run host (after_model host s messages).0 rest

-- `k` copies of `h` at the end, and the settings of `s`.
record Tracks (s : Loop) (h : Text) (k : ℕ) (t : Loop) : Type 0 where
  front : List Text
  ends : t.history ≡ front ++ replicate k h
  window : t.window ≡ s.window
  identical_hard : t.identical_hard ≡ s.identical_hard

observe-Tracks :
    (host : Host) (s t : Loop) (h : Text) (k : ℕ) (calls : List ToolCall)
    → k < s.window
    → hash_call_set host calls ≡ h
    → Tracks s h k t
    → Tracks s h (suc k) (observe host t calls)
unfolding observe
observe-Tracks host s t h k calls lt e r =
    let (front, ends) = push-EndsWith t.window k h t.history (rw r.window lt) (r.front, r.ends) in
    record { front = front; ends = rw e ends; window = r.window; identical_hard = r.identical_hard }

after_model-Tracks :
    (host : Host) (s t : Loop) (h : Text) (k : ℕ) (last : AiMessage) (messages : List Message)
    → k < s.window
    → Repeats host h last messages
    → Tracks s h k t
    → Tracks s h (suc k) (after_model host t messages).0
unfolding after_model inspect
after_model-Tracks host s t h k last messages lt (e, busy, same) r =
    let seen = observe-Tracks host s t h k last.tool_calls lt same r in
    let kept =
      decide-SameHistory (observe host t last.tool_calls) (hash_call_set host last.tool_calls)
        last in
    rw (e, after_model)
      (rw busy (record {
        front = seen.front;
        ends = kept.history ∙ seen.ends;
        window = kept.window ∙ seen.window;
        identical_hard = kept.identical_hard ∙ seen.identical_hard;
      }))

run-Tracks :
    (host : Host) (s t : Loop) (h : Text) (k n : ℕ) (convs : List (List Message))
    → length convs + k ≡ n
    → n ≤ s.window
    → All (λ messages. (last : AiMessage) × Repeats host h last messages) convs
    → Tracks s h k t
    → Tracks s h n (run host t convs)
unfolding run
run-Tracks host s t h k n [] e fits all r = subst (λ j. Tracks s h j t) (omega arith) r
run-Tracks host s t h k n (messages ∷ rest) e fits all r =
    run-Tracks host s (after_model host t messages).0 h (suc k) n rest (omega arith) fits all.1
      (after_model-Tracks host s t h k all.0.0 messages (omega arith) all.0.1 r)

decide-stops :
    (s : Loop) (h : Text) (last : AiMessage)
    → s.identical_hard ≤ count h s.history
    → (decide s h last).1 ≡ some (strip_all_tool_calls last loop_stop_note)
unfolding decide
decide-stops s h last le = rw (le→leb s.identical_hard (count h s.history) le)

-- From any state whose window holds `identical_hard` call sets: when `identical_hard` conversations
-- in a row end with call sets of one hash, the last of them is stopped, that is `after_model`
-- replaces its message by one that has no tool call.
pub repeated_calls_stop :
    (host : Host) (s : Loop) (h : Text) (convs : List (List Message)) (messages : List Message)
    (last : AiMessage)
    → suc (length convs) ≡ s.identical_hard
    → s.identical_hard ≤ s.window
    → All (λ ms. (m : AiMessage) × Repeats host h m ms) convs
    → Repeats host h last messages
    → (m : AiMessage) × ((after_model host (run host s convs) messages).1 ≡ some m)
      × (m.tool_calls ≡ [])
repeated_calls_stop host s h convs messages last size fits all (e, busy, same) =
    let fresh : Tracks s h 0 s = record {
      front = s.history;
      ends = sym (append-nil s.history);
      window = refl;
      identical_hard = refl;
    } in
    let before =
      run-Tracks host s s h 0 (length convs) convs (omega arith) (omega arith) all fresh in
    let t : Loop = run host s convs in
    let seen = observe-Tracks host s t h (length convs) last.tool_calls (omega arith) same before in
    let often =
      EndsWith-count (suc (length convs)) h (observe host t last.tool_calls).history
        (seen.front, seen.ends) in
    let hard : (observe host t last.tool_calls).identical_hard
        ≤ count h (observe host t last.tool_calls).history =
      omega (arith, seen.identical_hard) in
    (
      strip_all_tool_calls last loop_stop_note,
      unfold after_model inspect in
          rw (e, after_model)
            (rw (busy, same) (decide-stops (observe host t last.tool_calls) h last hard)),
      tool_calls-strip last loop_stop_note,
    )
