-- ===== src/Errors.antt =====
-- pkg/errors.py: the description of an exception with the chain of its causes.
pub mod Chain
mod Tests
use git_agent.Base.{
  Text, codes, Bool, true, false, Option, none, some, List, [], ◌∷◌, ◌++◌, ◌>>=◌, ℕ, zero, suc, ◌-◌,
  ◌||◌, not, if◌then◌else◌, leb, ltb, length, take, is_nil, contains, strip, join, is_some, nat_eq,
}

-- An exception object: the name of its class, its text, and what it refers to.
pub record Exc : Type 0 where
  pub class_name : Text
  pub text : Text
  pub cause : Option ℕ
  pub context : Option ℕ
  pub suppress_context : Bool

-- The objects by their `id`. They may refer to each other in circles.
abbrev pub Heap : Type 0
Heap = ℕ → Exc

abbrev pub max_chain : ℕ
max_chain = 4

-- `cur.__cause__ or (None if cur.__suppress_context__ else cur.__context__)`
unfoldable pub next_exc : Exc → Option ℕ
next_exc x = if is_some x.cause then x.cause else (if x.suppress_context then none else x.context)

unfoldable pub exc_part : Exc → Text
exc_part x =
    let text = strip x.text in
    if is_nil text then x.class_name else x.class_name ++ codes ": " ++ text

-- The loop; `none` is a run that is out of fuel.
unfoldable pub chain_from : ℕ → Heap → Option ℕ → List ℕ → List Text → Option (List Text)
chain_from zero heap cur seen parts = none
chain_from (suc fuel) heap none seen parts = some parts
chain_from (suc fuel) heap (some cur) seen parts =
    let rest =
      chain_from fuel heap (next_exc (heap cur)) (cur ∷ seen)
        (parts ++ (exc_part (heap cur) ∷ [])) in
    if contains cur seen || not (ltb (length parts) max_chain) then some parts else rest

-- `out if len(out) <= limit else out[: limit - 1] + "…"`, for a limit of at least one
unfoldable pub cut_description : ℕ → Text → Text
cut_description limit out =
    if leb (length out) limit then out else take (limit - 1) out ++ codes "…"

unfoldable pub describe : ℕ → Heap → ℕ → ℕ → Option Text
describe fuel heap exc limit = chain_from fuel heap (some exc) [] [] >>= λ parts.
    some (cut_description limit (join (codes " ← caused by: ") parts))
