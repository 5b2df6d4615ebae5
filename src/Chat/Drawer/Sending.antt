-- ===== src/Chat/Drawer/Sending.antt =====
-- What the buttons of the chat start.
use drishtiscope_oss.Common.{
  ℕ, zero, suc, ◌≡◌, refl, ◌∙◌, Bool, true, false, not, ◌||◌, some, List, [], ◌∷◌, All, map, arith,
  if◌then◌else◌, Bool-cases, inl, inr, take,
}
use drishtiscope_oss.Common.Text.{codes, trim}
use drishtiscope_oss.Chat.{Chat, Message, send_message, is_blank, spoken, user}
use drishtiscope_oss.Chat.Prompts.{Prompt, quick_prompts}
use drishtiscope_oss.Chat.Turns.{Event, run, turn, awaited, is_pending, start, turns_alternate}
use drishtiscope_oss.Chat.View.{offered_prompts}
use drishtiscope_oss.Chat.Drawer.{send_disabled, on_send, on_prompt}
use drishtiscope_oss.Store.Types.{ScopeStore}

starts :
    (now : ℕ) (text : List ℕ) (c : Chat) (st : ScopeStore)
    → is_pending (send_message now text c st).1 ≡ not (c.loading || is_blank (trim text))
unfolding send_message
starts now text c st = ground arith

-- The send button is enabled exactly when what it does starts a request.
pub send-starts :
    (now : ℕ) (c : Chat) (st : ScopeStore) → is_pending (on_send now c st).1 ≡ not (send_disabled c)
unfolding on_send send_disabled
send-starts now c st = starts now c.input_value c st

prompt_text : All (λ (p : Prompt). is_blank (trim (codes p.query)) ≡ false) quick_prompts
unfolding trim
prompt_text = (refl, (refl, (refl, (refl, (refl, (refl, (refl, (refl, tt))))))))

All-take {ℓ κ} : {A : Type ℓ} (P : A → Type κ) (n : ℕ) (xs : List A) → All P xs → All P (take n xs)
All-take P zero xs h = tt
All-take P (suc n) [] h = tt
All-take P (suc n) (x ∷ xs) (h, hs) = (h, All-take P n xs hs)

module _ (now : ℕ) (c : Chat) (st : ScopeStore) where
  abbrev Starts : Prompt → Type 0
  Starts p = is_pending (on_prompt now p c st).1 ≡ true

  prompts_of :
      (ps : List Prompt)
      → c.loading ≡ false
      → All (λ (p : Prompt). is_blank (trim (codes p.query)) ≡ false) ps
      → All Starts ps
  unfolding on_prompt
  prompts_of [] l h = tt
  prompts_of (p ∷ ps) l (h, hs) =
      (starts now (codes p.query) c st ∙ ground (arith, l, h), prompts_of ps l hs)

  All-prompts : c.loading ≡ false → All Starts quick_prompts
  All-prompts l = prompts_of quick_prompts l prompt_text

  -- Before the first message nothing is awaited.
  fresh-idle :
      turn user (map spoken c.messages) ≡ some (awaited c.loading)
      → c.messages ≡ []
      → c.loading ≡ false
  fresh-idle h e = elim (Bool-cases c.loading) [ inl l ↦ absurd (cc (h, l, e)) | inr l ↦ l ]

  four_unless : (b : Bool) → c.loading ≡ b → All Starts (if b then [] else take 4 quick_prompts)
  four_unless true l = tt
  four_unless false l = All-take Starts 4 quick_prompts (All-prompts l)

  offered-start :
      turn user (map spoken c.messages) ≡ some (awaited c.loading) → All Starts (offered_prompts c)
  unfolding offered_prompts
  offered-start h = go c.messages refl
    where
      go :
          (ms : List Message)
          → c.messages ≡ ms
          → All Starts (elim ms [
            | [] ↦ quick_prompts
            | m ∷ ms ↦ if c.loading then [] else take 4 quick_prompts
          ])
      go [] e = All-prompts (fresh-idle h e)
      go (m ∷ ms) e = four_unless c.loading refl

-- At every point of a conversation, each prompt that is offered starts a request when it is clicked.
pub prompts-start :
    (es : List Event) (st : ScopeStore) (now : ℕ)
    → let s = run es (start st) in
      All
        (λ (p : Prompt). is_pending (on_prompt now p s.chat s.store).1 ≡ true)
        (offered_prompts s.chat)
prompts-start es st now =
    let s = run es (start st) in offered-start now s.chat s.store (turns_alternate es st)
