-- ===== src/Errors/Tests.antt =====
-- The description of concrete exceptions.
use git_agent.Base.{Text, codes, false, none, some, ◌≡◌, suc, ◌≤◌, length, arith}
use git_agent.Errors.{Heap, max_chain, describe}
use git_agent.Errors.Chain.{describe_ends}

-- One exception that is its own cause.
abbrev circle : Heap
circle id = record {
  class_name = codes "OSError";
  text = codes "gone";
  cause = some id;
  context = none;
  suppress_context = false;
}

describe_ends_example :
    (out : Text) × (describe (suc max_chain) circle 3 500 ≡ some out) × (length out ≤ 500)
describe_ends_example = describe_ends circle 3 500 (omega arith)
