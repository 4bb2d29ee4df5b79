-- ===== src/Middleware/Clone/Hygiene.antt =====
-- What every clone of a message guarantees, whatever calls are kept.
use git_agent.Base.{
  Text, codes, Bool, true, false, Option, none, some, List, [], ◌∷◌, ◌≡◌, ◌≢◌, refl, arith, All,
  contains, filter_by, is_nil, nat_eq, list_eq, option_eq, ◌==◌, ==_ne, ==_refl, sym, list_beq,
  Bool-cases, inl, inr,
}
use git_agent.Value.{
  Value, Values, Fields, AllValues, null, bool, int, obj, other, str, arr, nil, cons, field_get,
  field_put, field_pop, field_get-put, field_get-pop, filter_values, filter_values-All,
}
use git_agent.Message.{AiMessage, ToolCall}
use git_agent.Middleware.Clone.{
  kept_calls, cloned_kwargs, cloned_metadata, raw_kept, filter_raw_calls, is_str_of,
  clone_ai_message_with_tool_calls, key_tool_calls, key_function_call, key_finish_reason,
}

-- The raw calls of a clone: no list at all, or a list that is not empty and holds kept calls only.
abbrev pub RawCallsKept : List (Option Text) → Option Value → Type 0
RawCallsKept kept (some (arr nil)) = ⊥
RawCallsKept kept (some (arr vs)) = AllValues (λ v. raw_kept kept v ≡ true) vs
RawCallsKept kept _ = Unit

pub record IsHygienic (kept : List (Option Text)) (message clone : AiMessage) : Type 0 where
  pub calls : All (λ (c : ToolCall). contains c.id kept ≡ true) clone.tool_calls
  pub raw_calls : RawCallsKept kept (field_get key_tool_calls clone.additional_kwargs)
  pub function_call :
      clone.tool_calls ≡ [] → field_get key_function_call clone.additional_kwargs ≡ none
  pub finish_reason :
      clone.tool_calls ≡ []
      → is_str_of (codes "tool_calls") (field_get key_finish_reason clone.response_metadata) ≡ false
  pub other_kwargs :
      (k : Text)
      → k ≢ key_tool_calls
      → k ≢ key_function_call
      → field_get k clone.additional_kwargs ≡ field_get k message.additional_kwargs
  pub same_id : clone.id ≡ message.id

filter_by-All {ℓ} :
    {A : Type ℓ} (p : A → Bool) (xs : List A) → All (λ x. p x ≡ true) (filter_by p xs)
filter_by-All p [] = tt
filter_by-All p (x ∷ xs) = ground (arith, filter_by-All p xs)

function_call-ne-tool_calls : (key_function_call == key_tool_calls) ≡ false
unfolding codes list_beq
function_call-ne-tool_calls = refl

stop-ne-tool_calls : (codes "stop" == codes "tool_calls") ≡ false
unfolding codes list_beq
stop-ne-tool_calls = refl

raw_list-RawCallsKept :
    (kept : List (Option Text)) (vs kept_vs : Values) (kwargs : Fields)
    → filter_values (raw_kept kept) vs ≡ kept_vs
    → RawCallsKept kept (
        field_get key_tool_calls (elim kept_vs as (λ _. Fields) [
          | nil ↦ field_pop key_tool_calls kwargs
          | cons v vs' ↦ field_put key_tool_calls (arr (cons v vs')) kwargs
        ]))
raw_list-RawCallsKept kept vs nil kwargs e =
    rw (field_get-pop key_tool_calls key_tool_calls kwargs, ==_refl key_tool_calls) tt
raw_list-RawCallsKept kept vs (cons v vs') kwargs e =
    rw
      (
        field_get-put key_tool_calls key_tool_calls (arr (cons v vs')) kwargs,
        ==_refl key_tool_calls,
      )
      (rw e at (filter_values-All (raw_kept kept) vs))

filter_raw_calls-RawCallsKept :
    (kept : List (Option Text)) (raw : Option Value) (kwargs : Fields)
    → field_get key_tool_calls kwargs ≡ raw
    → RawCallsKept kept (field_get key_tool_calls (filter_raw_calls kept raw kwargs))
unfolding filter_raw_calls
filter_raw_calls-RawCallsKept kept (some (arr vs)) kwargs e =
    raw_list-RawCallsKept kept vs (filter_values (raw_kept kept) vs) kwargs refl
filter_raw_calls-RawCallsKept kept none kwargs e = rw e tt
filter_raw_calls-RawCallsKept kept (some null) kwargs e = rw e tt
filter_raw_calls-RawCallsKept kept (some (bool b)) kwargs e = rw e tt
filter_raw_calls-RawCallsKept kept (some (int n)) kwargs e = rw e tt
filter_raw_calls-RawCallsKept kept (some (str t)) kwargs e = rw e tt
filter_raw_calls-RawCallsKept kept (some (obj d)) kwargs e = rw e tt
filter_raw_calls-RawCallsKept kept (some (other t)) kwargs e = rw e tt

-- Filtering the raw calls changes no other key.
get-filter_raw_calls :
    (kept : List (Option Text)) (raw : Option Value) (kwargs : Fields) (k : Text)
    → (key_tool_calls == k) ≡ false
    → field_get k (filter_raw_calls kept raw kwargs) ≡ field_get k kwargs
unfolding filter_raw_calls
get-filter_raw_calls kept (some (arr vs)) kwargs k ne =
    by_filtered (filter_values (raw_kept kept) vs)
  where
    by_filtered :
        (kept_vs : Values)
        → field_get k (elim kept_vs as (λ _. Fields) [
          | nil ↦ field_pop key_tool_calls kwargs
          | cons v vs' ↦ field_put key_tool_calls (arr (cons v vs')) kwargs
        ])
          ≡ field_get k kwargs
    by_filtered nil = rw (field_get-pop key_tool_calls k kwargs, ne)
    by_filtered (cons v vs') = rw (field_get-put key_tool_calls k (arr (cons v vs')) kwargs, ne)
get-filter_raw_calls kept _ kwargs k ne = refl

module _ (message : AiMessage) (kept : List (Option Text)) where
  cloned_kwargs-RawCallsKept :
      RawCallsKept kept (field_get key_tool_calls (cloned_kwargs message kept))
  unfolding cloned_kwargs
  cloned_kwargs-RawCallsKept = elim (Bool-cases (is_nil (kept_calls message kept))) [
    | inl e ↦ rw e (
        rw (field_get-pop key_function_call key_tool_calls _, function_call-ne-tool_calls)
          (filter_raw_calls-RawCallsKept kept (field_get key_tool_calls message.additional_kwargs)
            message.additional_kwargs refl))
    | inr e ↦ rw e (
        filter_raw_calls-RawCallsKept kept (field_get key_tool_calls message.additional_kwargs)
          message.additional_kwargs refl)
  ]

  function_call-cloned_kwargs :
      kept_calls message kept ≡ [] → field_get key_function_call (cloned_kwargs message kept) ≡ none
  unfolding cloned_kwargs
  function_call-cloned_kwargs e =
      rw e (rw (field_get-pop key_function_call key_function_call _, ==_refl key_function_call))

  get-cloned_kwargs :
      (k : Text)
      → k ≢ key_tool_calls
      → k ≢ key_function_call
      → field_get k (cloned_kwargs message kept) ≡ field_get k message.additional_kwargs
  unfolding cloned_kwargs
  get-cloned_kwargs k h f = elim (Bool-cases (is_nil (kept_calls message kept))) [
    | inl e ↦ rw e (
        rw (field_get-pop key_function_call k _, ==_ne key_function_call k (λ p. f (sym p)))
          (get-filter_raw_calls kept _ message.additional_kwargs k
            (==_ne key_tool_calls k (λ p. h (sym p)))))
    | inr e ↦ rw e (
        get-filter_raw_calls kept _ message.additional_kwargs k
          (==_ne key_tool_calls k (λ p. h (sym p))))
  ]

  finish_reason-cloned_metadata :
      kept_calls message kept ≡ []
      → is_str_of (codes "tool_calls") (field_get key_finish_reason (cloned_metadata message kept))
        ≡ false
  unfolding cloned_metadata
  finish_reason-cloned_metadata e =
      let finish : Option Value = field_get key_finish_reason message.response_metadata in
      elim (Bool-cases (is_str_of (codes "tool_calls") finish)) [
        | inl p ↦
            rw (e, p)
              (rw
                (
                  field_get-put key_finish_reason key_finish_reason (str (codes "stop"))
                      message.response_metadata,
                  ==_refl key_finish_reason,
                )
                (unfold is_str_of in stop-ne-tool_calls))
        | inr p ↦ rw (e, p) p
      ]

-- Whatever calls are kept and whatever note is given, every call of the clone has a kept id; its raw
-- provider calls are no list, or a non-empty list of kept calls; with no call left it has no
-- `function_call` and does not finish by "tool_calls"; other metadata keys and the id are the
-- message's.
pub clone-IsHygienic :
    (message : AiMessage) (kept : List (Option Text)) (stop_note : Option Text)
    → IsHygienic kept message (clone_ai_message_with_tool_calls message kept stop_note)
unfolding clone_ai_message_with_tool_calls
clone-IsHygienic message kept stop_note = record {
  calls = unfold kept_calls in filter_by-All (λ c. contains c.id kept) message.tool_calls;
  raw_calls = cloned_kwargs-RawCallsKept message kept;
  function_call = function_call-cloned_kwargs message kept;
  finish_reason = finish_reason-cloned_metadata message kept;
  other_kwargs = get-cloned_kwargs message kept;
  same_id = refl;
}
