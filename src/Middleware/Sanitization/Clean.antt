-- ===== src/Middleware/Sanitization/Clean.antt =====
-- What is left of framework tags after the sanitization.
use git_agent.Base.{
  Text, codes, All, true, false, List, [], ◌∷◌, ◌≡◌, refl, ap, ap₂, sym, ◌∙◌, ℕ, zero, suc, ◌&&◌,
  ◌||◌, not, arith, contains, nat_eq, list_eq, option_eq, ◌==◌, subst, Bool-cases, inl, inr, ◌⊎◌,
  if_true, if_false, &&-eq_true, ==-iff_eq,
}
use git_agent.Value.{str}
use git_agent.Message.{ToolCall, ToolMessage}
use git_agent.Middleware.ToolReceipts.{ToolResult, message}
use git_agent.Middleware.Sanitization.{
  Chars, at_boundary, starts_with_tag, starts_with_any, framework_tags, tag_follows,
  neutralize_framework_tags, clean_message, sanitize_message, sanitize, wrap_tool_call,
  sanitize_content, sanitize_result,
}

-- No character of this tag matches `<` or `&`.
abbrev pub IsMarkless : Chars → Text → Type 0
IsMarkless k tag = All (λ t. (k.matches t 60 ≡ false) × (k.matches t 38 ≡ false)) tag

-- `<` and `&` are no letters: they are not of `\w`, and no character of a framework tag matches them.
abbrev pub HasPlainMarks : Chars → Type 0
HasPlainMarks k =
    (k.is_word 60 ≡ false) × (k.is_word 38 ≡ false) × All (IsMarkless k) framework_tags

-- At no `<` of the text a framework tag follows.
abbrev pub TagFree : Chars → Text → Type 0
TagFree k [] = Unit
TagFree k (c ∷ s) = ((c == 60 && tag_follows k s) ≡ false) × TagFree k s

-- `n` has a text without tags, and answers the call of `m` with its status.
abbrev pub IsSanitized : Chars → ToolMessage → ToolMessage → Type 0
IsSanitized k m n =
    (s : Text) × (n.content ≡ str s)
    × TagFree k s
    × (n.tool_call_id ≡ m.tool_call_id)
    × (n.status ≡ m.status)

suc_is_not_zero : {n : ℕ} → suc n ≡ 0 → ⊥
suc_is_not_zero h = omega (arith, h)

module _ (k : Chars) (plain : HasPlainMarks k) where
  -- The text with its tags neutralized.
  abbrev out : Text → Text
  out s = (neutralize_framework_tags k s).0

  starts_with_tag-mark :
      (ts s s' : Text)
      → IsMarkless k ts
      → starts_with_tag k ts (38 ∷ s') ≡ starts_with_tag k ts (60 ∷ s)
  unfolding starts_with_tag at_boundary
  starts_with_tag-mark [] s s' h = rw (plain.0, plain.1)
  starts_with_tag-mark (t ∷ ts) s s' h = rw (h.0.0, h.0.1)

  -- A character is the `<` of a tag, or is copied.
  out-cases :
      (c : ℕ) (s : Text)
      → ((c ≡ 60)
          × (neutralize_framework_tags k (c ∷ s)
              ≡ (38 ∷ 108 ∷ 116 ∷ 59 ∷ out s, suc (neutralize_framework_tags k s).1)))
        ⊎ (((c == 60 && tag_follows k s) ≡ false)
            × (neutralize_framework_tags k (c ∷ s)
                ≡ (c ∷ out s, (neutralize_framework_tags k s).1)))
  unfolding neutralize_framework_tags codes
  out-cases c s = elim (Bool-cases (c == 60 && tag_follows k s)) [
    | inl e ↦ inl ((==-iff_eq c 60).0 (&&-eq_true (c == 60) _ e).0, if_true _ _ _ e)
    | inr e ↦ inr (e, if_false _ _ _ e)
  ]

  starts_with_tag-out :
      (ts s : Text) → IsMarkless k ts → starts_with_tag k ts (out s) ≡ starts_with_tag k ts s
  unfolding neutralize_framework_tags starts_with_tag at_boundary
  starts_with_tag-out ts [] h = refl
  starts_with_tag-out [] (c ∷ s) mark = elim (out-cases c s) [
    | inl h ↦
        ap (λ r. starts_with_tag k [] r.0) h.1
        ∙ starts_with_tag-mark [] s (108 ∷ 116 ∷ 59 ∷ out s) mark
        ∙ ap (λ d. starts_with_tag k [] (d ∷ s)) (sym h.0)
    | inr h ↦ ap (λ r. starts_with_tag k [] r.0) h.1
  ]
  starts_with_tag-out (t ∷ ts) (c ∷ s) mark = elim (out-cases c s) [
    | inl h ↦
        ap (λ r. starts_with_tag k (t ∷ ts) r.0) h.1
        ∙ starts_with_tag-mark (t ∷ ts) s _ mark
        ∙ ap (λ d. starts_with_tag k (t ∷ ts) (d ∷ s)) (sym h.0)
    | inr h ↦
        ap (λ r. starts_with_tag k (t ∷ ts) r.0) h.1
        ∙ ap (λ b. k.matches t c && b) (starts_with_tag-out ts s mark.1)
  ]

  starts_with_any-out :
      (tags : List Text) (s : Text)
      → All (IsMarkless k) tags
      → starts_with_any k tags (out s) ≡ starts_with_any k tags s
  unfolding starts_with_any
  starts_with_any-out [] s h = refl
  starts_with_any-out (t ∷ tags) s h =
      ap₂ ◌||◌ (starts_with_tag-out t s h.0) (starts_with_any-out tags s h.1)

  starts_with_any-mark :
      (tags : List Text) (s s' : Text)
      → All (IsMarkless k) tags
      → starts_with_any k tags (38 ∷ s') ≡ starts_with_any k tags (60 ∷ s)
  unfolding starts_with_any
  starts_with_any-mark [] s s' h = refl
  starts_with_any-mark (t ∷ tags) s s' h =
      ap₂ ◌||◌ (starts_with_tag-mark t s s' h.0) (starts_with_any-mark tags s s' h.1)

  tag_follows-out : (s : Text) → tag_follows k (out s) ≡ tag_follows k s
  unfolding neutralize_framework_tags tag_follows
  tag_follows-out [] = refl
  tag_follows-out (c ∷ s) = elim (out-cases c s) [
    | inl h ↦
        ap (λ r. tag_follows k r.0) h.1
        ∙ starts_with_any-mark framework_tags s _ plain.2
        ∙ ap (λ d. tag_follows k (d ∷ s)) (sym h.0)
    | inr h ↦
        ap (λ r. tag_follows k r.0) h.1
        ∙ ap₂ (λ a b. (c == 47 && a) || b) (starts_with_any-out framework_tags s plain.2)
            (ap (λ r. starts_with_any k framework_tags r.0) (sym h.1)
              ∙ starts_with_any-out framework_tags (c ∷ s) plain.2)
  ]

  out-TagFree : (s : Text) → TagFree k (out s)
  unfolding neutralize_framework_tags
  out-TagFree [] = tt
  out-TagFree (c ∷ s) = elim (out-cases c s) [
    | inl h ↦ subst (λ r. TagFree k r.0) (sym h.1) (refl, (refl, (refl, (refl, out-TagFree s))))
    | inr h ↦
        subst (λ r. TagFree k r.0) (sym h.1)
          (ap (λ b. c == 60 && b) (tag_follows-out s) ∙ h.0, out-TagFree s)
  ]

  -- A text without hits is left as it is.
  no_hits-TagFree : (s : Text) → (neutralize_framework_tags k s).1 ≡ 0 → TagFree k s
  unfolding neutralize_framework_tags
  no_hits-TagFree [] h = tt
  no_hits-TagFree (c ∷ s) h = elim (out-cases c s) [
    | inl e ↦ absurd (suc_is_not_zero (sym (ap (λ r. r.1) e.1) ∙ h))
    | inr e ↦ (e.0, no_hits-TagFree s (sym (ap (λ r. r.1) e.1) ∙ h))
  ]

  clean_message-IsSanitized :
      (m : ToolMessage) (s : Text) (r : Text × ℕ)
      → m.content ≡ str s
      → neutralize_framework_tags k s ≡ r
      → IsSanitized k m (clean_message m r)
  unfolding clean_message
  clean_message-IsSanitized m s (cleaned, zero) e h =
      (s, e, no_hits-TagFree s (ap (λ r. r.1) h), refl, refl)
  clean_message-IsSanitized m s (cleaned, suc hits) e h =
      (cleaned, refl, subst (TagFree k) (ap (λ r. r.0) h) (out-TagFree s), refl, refl)

  -- The answer of an untrusted tool is passed on with a text in which no framework tag is left,
  -- opening or closing, in any case of letters, for the same call and with the same status. The
  -- answer is a message whose content is a text.
  pub wrap_tool_call-IsSanitized :
      (untrusted : List Text) (handler : ToolCall → ToolResult) (call : ToolCall) (m : ToolMessage)
      (s : Text)
      → contains call.name untrusted ≡ true
      → handler call ≡ message m
      → m.content ≡ str s
      → (n : ToolMessage) × (wrap_tool_call k untrusted handler call ≡ message n)
        × IsSanitized k m n
  unfolding wrap_tool_call sanitize sanitize_result sanitize_message sanitize_content
  wrap_tool_call-IsSanitized untrusted handler call m s h answer text = (
    sanitize_message k m,
    if_false _ _ _ (ap not h) ∙ ap (sanitize_result k call) answer,
    subst (IsSanitized k m) (ap (sanitize_content k m) (sym text))
        (clean_message-IsSanitized m s _ text refl),
  )
