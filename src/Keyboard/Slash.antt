-- ===== src/Keyboard/Slash.antt =====
-- What becomes of a text that is typed in the chat.
use drishtiscope_oss.Common.{
  ℕ, ◌≡◌, refl, ap, subst, sym, ◌∙◌, Bool, true, false, Option, none, List, [], ◌∷◌, ◌++◌, nat_eq,
  All, arith, ◌==◌, Bool-cases, inl, inr,
}
use mathlib.Core.List.{append_assoc, append-nil}
use drishtiscope_oss.Protocol.{ProcessRow}
use drishtiscope_oss.Store.Types.{ScopeStore}
use drishtiscope_oss.Omnibox
use drishtiscope_oss.Omnibox.{Omnibox, type_query}
use drishtiscope_oss.Omnibox.Keys.{handle_search_key_down, open_key}
use drishtiscope_oss.Chat
use drishtiscope_oss.Help
use drishtiscope_oss.Keyboard.{
  Desk, Focus, search_box, chat_box, char, key_name, element_listener, search_listener,
  chat_listener, help_listener, slash_listener, focus_search, is_prevented, press, typed, selector,
  nowhere, focus_now, with_one, is_slash_elsewhere, type_text,
}

abbrev pub is_slash : ℕ → Bool
is_slash c = nat_eq c b'/'

not_named :
    (c : ℕ) → ((key_name (char c) == "Escape") ≡ false) × ((key_name (char c) == "Enter") ≡ false)
not_named c = elim (Bool-cases (nat_eq c b'/')) [
  | inl e ↦ rw e (refl, refl)
  | inr e ↦ rw e (refl, refl)
]

help_deaf : (c : ℕ) (d : Desk) → help_listener (char c) d ≡ d
unfolding help_listener Help.handle_key_down
help_deaf c d = ap (λ st. record d { store = st }) same
  where
    same : Help.handle_key_down (key_name (char c)) d.store ≡ d.store
    same = ground (arith, (not_named c).0)

search_deaf : (rows : List ProcessRow) (c : ℕ) (d : Desk) → search_listener rows (char c) d ≡ d
unfolding search_listener
search_deaf rows c d =
    ap
      (λ (r : Omnibox × Option Omnibox.Target). record d {
        search = r.0;
        targets = with_one r.1 d.targets;
      })
      same
  where
    same : handle_search_key_down Omnibox.Keys.Key.other rows d.search ≡ (d.search, none)
    same = unfold handle_search_key_down open_key in ground arith

chat_deaf : (now : ℕ) (c : ℕ) (d : Desk) → chat_listener now false (char c) d ≡ d
unfolding chat_listener
chat_deaf now c d =
    ap
      (λ (r : (Chat.Chat × ScopeStore) × Option Chat.Request). record d {
        chat = r.0.0;
        store = r.0.1;
        requests = with_one r.1 d.requests;
      })
      same
  where
    same :
        Chat.handle_key_down (key_name (char c)) false now d.chat d.store
        ≡ ((d.chat, d.store), none)
    same = ground (arith, (not_named c).1)

-- No listener of an element asks for a character.
element_deaf :
    (f : Focus) (rows : List ProcessRow) (now c : ℕ) (d : Desk)
    → element_listener f rows now false (char c) d ≡ d
unfolding element_listener
element_deaf search_box rows now c d = search_deaf rows c d
element_deaf chat_box rows now c d = chat_deaf now c d
element_deaf selector rows now c d = refl
element_deaf nowhere rows now c d = refl

slash_deaf :
    (f : Focus) (c : ℕ) (d : Desk)
    → is_slash_elsewhere f (char c) ≡ false
    → slash_listener f (char c) d ≡ d
unfolding slash_listener
slash_deaf f c d h = rw h refl

not_prevented :
    (f : Focus) (c : ℕ) (d : Desk)
    → is_slash_elsewhere f (char c) ≡ false
    → is_prevented f false (char c) d ≡ false
unfolding is_prevented
not_prevented search_box c d h = rw h refl
not_prevented chat_box c d h = rw h refl
not_prevented selector c d h = rw h refl
not_prevented nowhere c d h = rw h refl

own_slash : (c : ℕ) → is_slash_elsewhere search_box (char c) ≡ false
own_slash c = elim (Bool-cases (nat_eq c b'/')) [ inl e ↦ rw e refl | inr e ↦ rw e refl ]

no_slash : (c : ℕ) → is_slash c ≡ false → is_slash_elsewhere chat_box (char c) ≡ false
no_slash c h = rw h refl

slash_prevented : (d : Desk) → is_prevented chat_box false (char b'/') d ≡ true
unfolding is_prevented
slash_prevented d = refl

slash_moves :
    (d : Desk)
    → d.search.busy ≡ false
    → slash_listener chat_box (char b'/') d
      ≡ record d { focus = search_box; search = Omnibox.focus d.search }
unfolding slash_listener focus_search
slash_moves d h = rw h refl

at_search : (d : Desk) → d.focus ≡ search_box → d.search.busy ≡ false → focus_now d ≡ search_box
unfolding focus_now
at_search d h k = rw (h, k) refl

at_chat : (d : Desk) → d.focus ≡ chat_box → d.chat.loading ≡ false → focus_now d ≡ chat_box
unfolding focus_now
at_chat d h k = rw (h, k) refl

-- The text b is in the search box, after what was there.
pub record LandsInSearch (d : Desk) (b : List ℕ) (e : Desk) : Type 0 where
  pub query : e.search.search_query ≡ d.search.search_query ++ b
  pub same_chat : e.chat ≡ d.chat
  pub focused : e.focus ≡ search_box
  pub unsent : e.requests ≡ d.requests

-- The text a is in the chat, the text b in the search box, which has the focus.
pub record Diverted (d : Desk) (a b : List ℕ) (e : Desk) : Type 0 where
  pub chat_text : e.chat.input_value ≡ d.chat.input_value ++ a
  pub query : e.search.search_query ≡ d.search.search_query ++ b
  pub focused : e.focus ≡ search_box
  pub unsent : e.requests ≡ d.requests

module _ (rows : List ProcessRow) (now : ℕ) where
  -- A character that is no slash elsewhere is typed.
  press_plain :
      (f : Focus) (c : ℕ) (d : Desk)
      → focus_now d ≡ f
      → is_slash_elsewhere f (char c) ≡ false
      → press rows now false (char c) d ≡ typed f (char c) d
  unfolding press
  press_plain f c d h k =
      rw (h, element_deaf f rows now c d, help_deaf c d, slash_deaf f c d k, not_prevented f c d k)
        refl

  press_slash :
      (d : Desk)
      → focus_now d ≡ chat_box
      → d.search.busy ≡ false
      → press rows now false (char b'/') d
        ≡ record d { focus = search_box; search = Omnibox.focus d.search }
  unfolding press
  press_slash d h k =
      rw
        (
          h,
          element_deaf chat_box rows now b'/' d,
          help_deaf b'/' d,
          slash_prevented d,
          slash_moves d k,
        )
        refl

  in_search :
      (b : List ℕ) (d : Desk)
      → d.focus ≡ search_box
      → d.search.busy ≡ false
      → LandsInSearch d b (type_text rows now b d)
  unfolding type_text
  in_search [] d h k = record {
    query = sym (append-nil d.search.search_query);
    same_chat = refl;
    focused = h;
    unsent = refl;
  }
  in_search (c ∷ cs) d h k =
      let q = d.search.search_query in
      let d' = record d { search = type_query (q ++ c ∷ []) d.search } in
      let ih = in_search cs d' h k in
      subst (λ e. LandsInSearch d (c ∷ cs) (type_text rows now cs e))
        (sym (press_plain search_box c d (at_search d h k) (own_slash c)))
        (record {
          query = ih.query ∙ append_assoc q (c ∷ []) cs;
          same_chat = ih.same_chat;
          focused = ih.focused;
          unsent = ih.unsent;
        })

  -- The texts that the chat and the search box have after a text with a slash in it was typed in the chat.
  pub slash_diverts :
      (a b : List ℕ) (d : Desk)
      → All (λ c. is_slash c ≡ false) a
      → d.focus ≡ chat_box
      → d.chat.loading ≡ false
      → d.search.busy ≡ false
      → Diverted d a b (type_text rows now (a ++ b'/' ∷ b) d)
  unfolding type_text
  slash_diverts [] b d h f l k =
      let q = d.search.search_query in
      let ih =
        in_search b (record d { focus = search_box; search = Omnibox.focus d.search }) refl k in
      subst (λ e. Diverted d [] b (type_text rows now b e)) (sym (press_slash d (at_chat d f l) k))
        (record {
          chat_text =
              ap (λ (c : Chat.Chat). c.input_value) ih.same_chat
              ∙ sym (append-nil d.chat.input_value);
          query = ih.query;
          focused = ih.focused;
          unsent = ih.unsent;
        })
  slash_diverts (c ∷ cs) b d (p, h) f l k =
      let v = d.chat.input_value in
      let ih =
        slash_diverts cs b (record d { chat = record (d.chat) { input_value = v ++ c ∷ [] } }) h f l
          k in
      subst (λ e. Diverted d (c ∷ cs) b (type_text rows now (cs ++ b'/' ∷ b) e))
        (sym (press_plain chat_box c d (at_chat d f l) (no_slash c p)))
        (record {
          chat_text = ih.chat_text ∙ append_assoc v (c ∷ []) cs;
          query = ih.query;
          focused = ih.focused;
          unsent = ih.unsent;
        })
