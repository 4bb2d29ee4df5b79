-- ===== src/Message.antt =====
-- The conversation that the middleware, the runner and the subagents read and rewrite: the fields
-- of LangChain's messages that the program uses, as data.
use native.Mathlib.Decide.{ℕ_discrete}
use git_agent.Base.{
  Text, Bool, true, false, Option, none, some, List, ℤ, get_last?, HasEq, eq_of_discrete,
}
use git_agent.Value.{Value, Fields}

-- One entry of `tool_calls`.
pub record ToolCall : Type 0 where
  pub id : Option Text
  pub name : Text
  pub args : Fields

-- `usage_metadata`
pub record Usage : Type 0 where
  pub input_tokens : ℤ
  pub output_tokens : ℤ
  pub total_tokens : ℤ

pub record AiMessage : Type 0 where
  pub id : Option Text
  pub content : Value
  pub tool_calls : List ToolCall
  pub invalid_tool_calls : List ToolCall
  pub additional_kwargs : Fields
  pub response_metadata : Fields
  pub usage_metadata : Option Usage

pub record ToolMessage : Type 0 where
  pub id : Option Text
  pub content : Value
  pub tool_call_id : Option Text
  pub name : Option Text
  pub status : Text
  pub additional_kwargs : Fields

pub record PlainMessage : Type 0 where
  pub id : Option Text
  pub content : Value
  pub additional_kwargs : Fields

pub data Message : Type 0 where
  ai : AiMessage → Message
  tool : ToolMessage → Message
  human : PlainMessage → Message
  system : PlainMessage → Message

-- `messages[-1]` if it is an `AIMessage`
unfoldable pub last_ai : List Message → Option AiMessage
last_ai ms = elim (get_last? ms) [ some (ai m) ↦ some m | _ ↦ none ]

-- `isinstance(m, ToolMessage)`
abbrev pub is_tool : Message → Bool
is_tool (tool m) = true
is_tool _ = false

pub Message-discrete : Discrete Message
Message-discrete = hlevel ℕ_discrete

-- `m == n` of two messages, field by field.
instance abbrev pub message_eq : HasEq Message
message_eq = eq_of_discrete Message-discrete
