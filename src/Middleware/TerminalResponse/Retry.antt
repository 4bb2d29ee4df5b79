-- ===== src/Middleware/TerminalResponse/Retry.antt =====
-- However a run goes on, it jumps back to the model at most once.
use git_agent.Base.{
  Text, Bool, true, false, Option, none, some, List, [], ◌∷◌, ◌≡◌, ℕ, ◌+◌, ◌≤◌, ◌&&◌, if◌then◌else◌,
  any_by, length, arith,
}
use git_agent.Message.{Message, AiMessage, is_tool, last_ai}
use git_agent.Middleware.TerminalResponse.{
  Terminal, init, Update, remove_and_retry, recover, inspect, inspect_last, after_model, drain,
  is_empty_final,
}

-- One hook call: the model has answered, or is about to be called.
pub data Hook : Type 0 where
  answered : List Message → Hook
  calling : Hook

abbrev pub retries : Update → ℕ
retries (remove_and_retry id) = 1
retries _ = 0

module _ (text_of : AiMessage → Text) where
  abbrev pub after : Terminal → Hook → Terminal
  after s (answered messages) = (after_model text_of s messages).0
  after s calling = (drain s).0

  -- How often a run jumps back to the model.
  abbrev pub jumps : Terminal → List Hook → ℕ
  jumps s [] = 0
  jumps s (answered messages ∷ hs) =
      retries (after_model text_of s messages).1 + jumps (after s (answered messages)) hs
  jumps s (calling ∷ hs) = jumps (after s calling) hs

  -- How many recovery prompts it sends.
  abbrev pub prompts : Terminal → List Hook → ℕ
  prompts s [] = 0
  prompts s (answered messages ∷ hs) = prompts (after s (answered messages)) hs
  prompts s (calling ∷ hs) = length (drain s).1 + prompts (after s calling) hs

-- The jumps that are left to a run, and the prompts that it still has to send.
abbrev left : Terminal → ℕ
left s = if s.retried then 0 else 1

abbrev owed : Terminal → ℕ
owed s = if s.pending_recovery then 1 else 0

-- A step takes its jumps from those that are left, and owes a prompt for each.
abbrev Pays : Terminal → Terminal × Update → Type 0
Pays s r = (retries r.1 + left r.0 ≡ left s) × (owed r.0 ≤ owed s + retries r.1)

recover-Pays : (s : Terminal) (last : AiMessage) → Pays s (recover s last)
unfolding recover
recover-Pays s last = ground arith

either-Pays :
    (s : Terminal) (b : Bool) (x y : Terminal × Update)
    → Pays s x
    → Pays s y
    → Pays s (if b then x else y)
either-Pays s true x y hx hy = hx
either-Pays s false x y hx hy = hy

inspect-Pays :
    (text_of : AiMessage → Text) (s : Terminal) (messages : List Message) (last : AiMessage)
    → Pays s (inspect text_of s messages last)
unfolding inspect
inspect-Pays text_of s messages last =
    either-Pays s (is_empty_final text_of last && any_by is_tool messages) _ _ (recover-Pays s last)
      (omega arith, omega arith)

inspect_last-Pays :
    (text_of : AiMessage → Text) (s : Terminal) (messages : List Message) (o : Option AiMessage)
    → Pays s (inspect_last text_of s messages o)
unfolding inspect_last
inspect_last-Pays text_of s messages none = (omega arith, omega arith)
inspect_last-Pays text_of s messages (some last) = inspect-Pays text_of s messages last

after_model-Pays :
    (text_of : AiMessage → Text) (s : Terminal) (messages : List Message)
    → Pays s (after_model text_of s messages)
unfolding after_model
after_model-Pays text_of s messages = inspect_last-Pays text_of s messages (last_ai messages)

drain-owed :
    (s : Terminal)
    → (length (drain s).1 ≡ owed s) × (owed (drain s).0 ≡ 0) × (left (drain s).0 ≡ left s)
unfolding drain
drain-owed s = ground arith

module _ (text_of : AiMessage → Text) where
  jumps-left : (s : Terminal) (hs : List Hook) → jumps text_of s hs ≤ left s
  jumps-left s [] = omega arith
  jumps-left s (answered messages ∷ hs) = omega (
    arith,
    (after_model-Pays text_of s messages).0,
    jumps-left (after_model text_of s messages).0 hs,
  )
  jumps-left s (calling ∷ hs) = omega (arith, drain-owed s, jumps-left (drain s).0 hs)

  prompts-owed :
      (s : Terminal) (hs : List Hook) → prompts text_of s hs ≤ owed s + jumps text_of s hs
  prompts-owed s [] = omega arith
  prompts-owed s (answered messages ∷ hs) = omega (
    arith,
    (after_model-Pays text_of s messages).1,
    prompts-owed (after_model text_of s messages).0 hs,
  )
  prompts-owed s (calling ∷ hs) = omega (arith, drain-owed s, prompts-owed (drain s).0 hs)

  -- In whatever order the hooks are called, a run jumps back to the model at most once, and sends
  -- no more recovery prompts than it jumps.
  pub jumps-le_one :
      (hs : List Hook)
      → (jumps text_of init hs ≤ 1) × (prompts text_of init hs ≤ jumps text_of init hs)
  unfolding init
  jumps-le_one hs = (omega (arith, jumps-left init hs), omega (arith, prompts-owed init hs))
