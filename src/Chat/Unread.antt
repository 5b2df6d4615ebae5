-- ===== src/Chat/Unread.antt =====
-- The badge of the closed drawer: the effect on `[messages, isChatOpen]` of
-- frontend/src/components/ChatDrawer.tsx.
use drishtiscope_oss.Common.{
  ℕ, String, suc, ◌+◌, ◌≡◌, refl, ap, ◌∙◌, false, true, Option, some, List, [], ◌∷◌, last, length,
  last-append, arith,
}
use drishtiscope_oss.Chat.{
  counted, count_last, Chat, assistant, Message, Request, Outcome, unread_effect, on_outcome,
  answer,
}

counted-answer :
    (later : ℕ) (t : Option String) (o : Outcome) (n : ℕ)
    → counted (answer later t o).role n ≡ suc n
counted-answer later t (Outcome.reply _ _ _ _) n = refl
counted-answer later t Outcome.failure n = refl

-- Answers that arrive while the drawer is closed, each followed by the effect.
unfoldable pub arrivals : List (ℕ × (Request × Outcome)) → Chat → Chat
unfolding on_outcome unread_effect
arrivals [] c = c
arrivals ((t, (r, o)) ∷ as') c = arrivals as' (unread_effect false (on_outcome t r o c))

-- Every answer that arrives while the drawer is closed is counted once.
pub arrivals_counted :
    (as' : List (ℕ × (Request × Outcome))) (c : Chat)
    → (arrivals as' c).unread_count ≡ c.unread_count + length as'
unfolding arrivals on_outcome unread_effect
arrivals_counted [] c = omega arith
arrivals_counted ((t, (r, o)) ∷ as') c =
    arrivals_counted as' (unread_effect false (on_outcome t r o c))
    ∙ ap (λ n. n + length as')
        (ap (λ m. count_last m c.unread_count) (last-append c.messages (answer t r.graph_title o))
          ∙ counted-answer t r.graph_title o c.unread_count)
    ∙ omega arith

-- Closing the drawer right after it was opened, and so after everything was read, shows one unread
-- message whenever the last message is an answer, though none arrived.
pub closing_counts_read :
    (c : Chat) (m : Message)
    → last c.messages ≡ some m
    → m.role ≡ assistant
    → (unread_effect false (unread_effect true c)).unread_count ≡ 1
unfolding unread_effect
closing_counts_read c m h k = ap (λ l. count_last l 0) h ∙ ap (λ r. counted r 0) k
