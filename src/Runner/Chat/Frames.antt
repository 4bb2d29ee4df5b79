-- ===== src/Runner/Chat/Frames.antt =====
-- What a chat leaves behind: its frames, and nothing in the journal.
use git_agent.Base.{
  Text, Bool, true, false, Option, none, some, List, ◌++◌, ◌≡◌, ◌⊎◌, refl, ◌+◌, map, if◌then◌else◌,
  inl, inr, arith,
}
use git_agent.Runner.Slots.{ClaimResult}
use git_agent.Runner.Turn.{chunk, Effect, emitted}
use git_agent.Runner.Turn.Frames.{
  number, is_marked, is_executed, is_opened, is_closed, is_start, is_end, one_if, number-append,
  number-chunks,
}
use git_agent.Runner.Chat.{
  ChatEnd, replied, chat_cancelled, chat_failed, ChatWorld, ChatOutcome, raises_cancel,
  reply_frames, end_chat, chat_start, chat_locked, chat_raised, chat,
}

abbrev pub is_cancel : ChatOutcome → Bool
is_cancel raises_cancel = true
is_cancel _ = false

-- The books of one chat: no mark; and a turn that opens starts once, runs once, closes once and
-- ends once, unless it is cancelled.
abbrev pub IsChatOrderly : List Effect × ChatOutcome → Type 0
IsChatOrderly r =
    (number is_marked r.0 ≡ 0)
    × (number is_opened r.0 ≡ number is_executed r.0)
    × (number is_start r.0 ≡ number is_executed r.0)
    × (number is_closed r.0 ≡ number is_executed r.0)
    × (number is_end r.0 + one_if (is_cancel r.1) ≡ number is_executed r.0)
    × ((number is_executed r.0 ≡ 0) ⊎ (number is_executed r.0 ≡ 1))

abbrev EndsChat : List Effect × ChatOutcome → Type 0
EndsChat r =
    (number is_marked r.0 ≡ 0)
    × (number is_opened r.0 ≡ 0)
    × (number is_start r.0 ≡ 0)
    × (number is_closed r.0 ≡ 1)
    × (number is_end r.0 + one_if (is_cancel r.1) ≡ 1)
    × (number is_executed r.0 ≡ 0)

end_chat-EndsChat : (e : ChatEnd) → EndsChat (end_chat e)
unfolding end_chat reply_frames
end_chat-EndsChat (replied none) = (refl, refl, refl, refl, refl, refl)
end_chat-EndsChat (replied (some t)) = (refl, refl, refl, refl, refl, refl)
end_chat-EndsChat chat_cancelled = (refl, refl, refl, refl, refl, refl)
end_chat-EndsChat (chat_failed why) = (refl, refl, refl, refl, refl, refl)

module _ (message : Text) (w : ChatWorld) where
  abbrev chat_effects : List Effect
  chat_effects =
      chat_start message ++ (map (λ t. emitted (chunk t)) w.chunks ++ (end_chat w.chat_end).0)

  chat_books :
      (p : Effect → Bool)
      → ((t : Text) → p (emitted (chunk t)) ≡ false)
      → number p chat_effects ≡ number p (chat_start message) + number p (end_chat w.chat_end).0
  chat_books p h =
      let chunks : List Effect = map (λ t. emitted (chunk t)) w.chunks in
      let end : List Effect = (end_chat w.chat_end).0 in
      omega (
        arith,
        number-append p (chat_start message) (chunks ++ end),
        number-append p chunks end,
        number-chunks p w.chunks h,
      )

  chat_effects-IsChatOrderly : IsChatOrderly (chat_effects, (end_chat w.chat_end).1)
  chat_effects-IsChatOrderly =
      let (m, o, s, c, e, x) = end_chat-EndsChat w.chat_end in
      let runs : number is_executed chat_effects ≡ 1 =
        omega (arith, chat_books is_executed (λ t. refl), x) in
      (
        omega (arith, chat_books is_marked (λ t. refl), m),
        omega (arith, runs, chat_books is_opened (λ t. refl), o),
        omega (arith, runs, chat_books is_start (λ t. refl), s),
        omega (arith, runs, chat_books is_closed (λ t. refl), c),
        omega (arith, runs, chat_books is_end (λ t. refl), e),
        inr runs,
      )

either-IsChatOrderly :
    (b : Bool) (r q : List Effect × ChatOutcome)
    → IsChatOrderly r
    → IsChatOrderly q
    → IsChatOrderly (if b then r else q)
either-IsChatOrderly true r q hr hq = hr
either-IsChatOrderly false r q hr hq = hq

chat_locked-IsChatOrderly : (message : Text) (w : ChatWorld) → IsChatOrderly (chat_locked message w)
unfolding chat_locked
chat_locked-IsChatOrderly message w =
    either-IsChatOrderly w.has_context _ _ (chat_effects-IsChatOrderly message w)
      (refl, refl, refl, refl, refl, inl refl)

chat_raised-IsChatOrderly :
    (message : Text) (w : ChatWorld) (o : Option ClaimResult)
    → IsChatOrderly (chat_raised message w o)
unfolding chat_raised
chat_raised-IsChatOrderly message w none = chat_locked-IsChatOrderly message w
chat_raised-IsChatOrderly message w (some c) = (refl, refl, refl, refl, refl, inl refl)

-- However a chat goes, it marks no event in the journal, runs at most one turn, and a turn that it
-- runs is opened, started and closed once and has one final frame, which only a cancellation takes
-- away.
pub chat-IsChatOrderly : (message : Text) (w : ChatWorld) → IsChatOrderly (chat message w)
unfolding chat
chat-IsChatOrderly message w = chat_raised-IsChatOrderly message w w.refusal
