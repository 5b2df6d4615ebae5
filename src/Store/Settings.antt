-- ===== src/Store/Settings.antt =====
-- The settings that outlive the page: the theme, the refresh rate and the anti-flicker switch are
-- always what `localStorage` says, and the document shows the classes of the current theme only.
use drishtiscope_oss.Common.{
  ◌≡◌, refl, sym, ap, ◌∙◌, String, Bool, true, false, not, ◌&&◌, ◌||◌, some, List, [], ◌∷◌, ◌++◌,
  ◌≢◌, map, ◌==◌, arith, eq_iff, filter, if◌then◌else◌,
}
use drishtiscope_oss.Browser.{Browser, get_item, set_item, contains, add_class}
use drishtiscope_oss.Store
use drishtiscope_oss.Store.{
  create, all_themes, parse_theme, saved_theme, theme_or_light, rate_or_default, flicker_on,
  apply_theme_classes, next_theme,
}
use drishtiscope_oss.Store.Types.{
  ScopeStore, ThemeMode, light, dark, ubuntu, unix, purple, theme_name, RefreshRate, rate_name,
  r500, r1000, r2000, r5000, manual,
}
use drishtiscope_oss.Store.Actions.{Action, Page, step, run}

pub get_item-set_item :
    (k j v : String) (m : List (String × String))
    → get_item j (set_item k v m) ≡ (if k == j then some v else get_item j m)
unfolding get_item set_item
get_item-set_item k j v [] = refl
get_item-set_item k j v ((i, w) ∷ m) =
    ground (arith, eq_iff k j, eq_iff i k, eq_iff i j, get_item-set_item k j v m)

contains-filter :
    (c : String) (p : String → Bool) (l : List String)
    → contains c (filter p l) ≡ (contains c l && p c)
contains-filter c p [] = refl
contains-filter c p (d ∷ l) = ground (arith, eq_iff d c, contains-filter c p l)

contains-append :
    (c d : String) (l : List String) → contains c (l ++ d ∷ []) ≡ ((d == c) || contains c l)
contains-append c d [] = ground arith
contains-append c d (e ∷ l) = ground (arith, contains-append c d l)

contains-add_class :
    (c d : String) (l : List String) → contains c (add_class d l) ≡ ((d == c) || contains c l)
unfolding add_class
contains-add_class c d l = ground (arith, contains-append c d l, eq_iff d c)

-- The class of the theme is there, the other theme classes are not, and any other class is kept.
pub contains-apply_theme_classes :
    (c : String) (t : ThemeMode) (b : Browser)
    → contains c (apply_theme_classes t b).class_list ≡ (
        (theme_name t == c)
        || (contains c b.class_list && not (contains c (map theme_name all_themes))))
unfolding apply_theme_classes
contains-apply_theme_classes c t b =
    contains-add_class c (theme_name t) _
    ∙ ap (λ x. (theme_name t == c) || x) (contains-filter c _ b.class_list)

pub record IsSettled (p : Page) : Type 0 where
  pub saved : theme_or_light (saved_theme (get_item "drishti_theme" p.1.local_storage)) ≡ p.0.theme
  pub shown :
      (u : ThemeMode)
      → contains (theme_name u) p.1.class_list ≡ (theme_name p.0.theme == theme_name u)
  pub rate : rate_or_default (get_item "drishti_refresh" p.1.local_storage) ≡ p.0.refresh_rate
  pub flicker : flicker_on (get_item "drishti_antiflicker" p.1.local_storage) ≡ p.0.anti_flicker

or_and_false : (x y z : Bool) → z ≡ false → (x || (y && z)) ≡ x
or_and_false x y z h = ground arith

-- A theme's own name is among the theme names.
listed : (u : ThemeMode) → not (contains (theme_name u) (map theme_name all_themes)) ≡ false
listed light = refl
listed dark = refl
listed ubuntu = refl
listed unix = refl
listed purple = refl

shown_lem :
    (u t : ThemeMode) (b : Browser)
    → contains (theme_name u) (apply_theme_classes t b).class_list ≡ (theme_name t == theme_name u)
shown_lem u t b =
    contains-apply_theme_classes (theme_name u) t b
    ∙ or_and_false (theme_name t == theme_name u) (contains (theme_name u) b.class_list) _
        (listed u)

saved_theme_lem : (t : ThemeMode) → saved_theme (some (theme_name t)) ≡ some t
unfolding parse_theme
saved_theme_lem light = refl
saved_theme_lem dark = refl
saved_theme_lem ubuntu = refl
saved_theme_lem unix = refl
saved_theme_lem purple = refl

-- The store starts settled, whatever the browser held.
pub create-IsSettled : (b : Browser) → IsSettled (create b)
unfolding create Store.get_initial_theme
create-IsSettled b = record {
  saved = refl;
  shown = λ u. shown_lem u _ b;
  rate = refl;
  flicker = refl;
}

rate_or_default_lem : (r : RefreshRate) → rate_or_default (some (rate_name r)) ≡ rate_name r
rate_or_default_lem r500 = refl
rate_or_default_lem r1000 = refl
rate_or_default_lem r2000 = refl
rate_or_default_lem r5000 = refl
rate_or_default_lem manual = refl

flicker_on_lem : (x : Bool) → flicker_on (some (Store.bool_name x)) ≡ x
flicker_on_lem true = refl
flicker_on_lem false = refl

module _ (st : ScopeStore) (b : Browser) (h : IsSettled (st, b)) where
  -- `setTheme`, and what `toggleTheme` does with the theme it chose.
  set_theme-IsSettled : (t : ThemeMode) → IsSettled (Store.set_theme t st b)
  unfolding Store.set_theme apply_theme_classes
  set_theme-IsSettled t = record {
    saved = rw get_item-set_item (ap theme_or_light (saved_theme_lem t));
    shown = λ u. shown_lem u t b;
    rate = rw get_item-set_item h.rate;
    flicker = rw get_item-set_item h.flicker;
  }

  set_refresh_rate-IsSettled : (r : RefreshRate) → IsSettled (Store.set_refresh_rate r st b)
  unfolding Store.set_refresh_rate
  set_refresh_rate-IsSettled r = record {
    saved = rw get_item-set_item h.saved;
    shown = h.shown;
    rate = rw get_item-set_item (rate_or_default_lem r);
    flicker = rw get_item-set_item h.flicker;
  }

  toggle_anti_flicker-IsSettled : IsSettled (Store.toggle_anti_flicker st b)
  unfolding Store.toggle_anti_flicker
  toggle_anti_flicker-IsSettled = record {
    saved = rw get_item-set_item h.saved;
    shown = h.shown;
    rate = rw get_item-set_item h.rate;
    flicker = rw get_item-set_item (flicker_on_lem (not st.anti_flicker));
  }

toggle_theme-eq-set_theme :
    (st : ScopeStore) (b : Browser)
    → Store.toggle_theme st b ≡ Store.set_theme (next_theme st.theme) st b
unfolding Store.toggle_theme Store.set_theme
toggle_theme-eq-set_theme st b = refl

-- The fields that settings do not read may change.
keep :
    (st st' : ScopeStore) (b : Browser)
    → IsSettled (st, b)
    → st'.theme ≡ st.theme
    → st'.refresh_rate ≡ st.refresh_rate
    → st'.anti_flicker ≡ st.anti_flicker
    → IsSettled (st', b)
keep st st' b h t r f = record {
  saved = h.saved ∙ sym t;
  shown = λ u. h.shown u ∙ ap (λ x. theme_name x == theme_name u) (sym t);
  rate = h.rate ∙ sym r;
  flicker = h.flicker ∙ sym f;
}

-- Every action keeps the store settled.
pub step-IsSettled : (a : Action) (p : Page) → IsSettled p → IsSettled (step a p)
unfolding step
step-IsSettled (Action.set_theme t) (st, b) h = set_theme-IsSettled st b h t
step-IsSettled Action.toggle_theme (st, b) h =
    rw (toggle_theme-eq-set_theme st b) (set_theme-IsSettled st b h (next_theme st.theme))
step-IsSettled (Action.set_refresh_rate r) (st, b) h = set_refresh_rate-IsSettled st b h r
step-IsSettled Action.toggle_anti_flicker (st, b) h = toggle_anti_flicker-IsSettled st b h
step-IsSettled (Action.set_snapshot now s) (st, b) h =
    unfold Store.set_snapshot in
    keep st (Store.set_snapshot now s st) b h (ground arith) (ground arith) (ground arith)
step-IsSettled (Action.add_event e) (st, b) h =
    unfold Store.add_event in
    keep st (Store.add_event e st) b h (ground arith) (ground arith) (ground arith)
step-IsSettled (Action.add_scratch_graph g) (st, b) h =
    unfold Store.add_scratch_graph in keep st _ b h refl refl refl
step-IsSettled (Action.remove_scratch_graph id) (st, b) h =
    unfold Store.remove_scratch_graph in keep st _ b h refl refl refl
step-IsSettled Action.reset_scratch_graphs (st, b) h =
    unfold Store.reset_scratch_graphs in keep st _ b h refl refl refl
step-IsSettled _ (st, b) h = keep st _ b h refl refl refl

pub run-IsSettled : (acts : List Action) (p : Page) → IsSettled p → IsSettled (run acts p)
unfolding run
run-IsSettled [] p h = h
run-IsSettled (a ∷ acts) p h = run-IsSettled acts (step a p) (step-IsSettled a p h)

-- Reloading the page, after any actions, brings back the theme, the refresh rate and the
-- anti-flicker switch.
pub reload_keeps_settings :
    (acts : List Action) (b : Browser)
    → let before = (run acts (create b)).0 in
      let after = (create (run acts (create b)).1).0 in
      (after.theme ≡ before.theme)
      × (after.refresh_rate ≡ before.refresh_rate)
      × (after.anti_flicker ≡ before.anti_flicker)
reload_keeps_settings acts b = go (run acts (create b)) (run-IsSettled acts _ (create-IsSettled b))
  where
    go :
        (p : Page)
        → IsSettled p
        → ((create p.1).0.theme ≡ p.0.theme)
          × ((create p.1).0.refresh_rate ≡ p.0.refresh_rate)
          × ((create p.1).0.anti_flicker ≡ p.0.anti_flicker)
    go p h = unfold create Store.get_initial_theme in (h.saved, h.rate, h.flicker)

-- After any actions the document shows the class of the current theme and of no other.
pub shown_theme :
    (acts : List Action) (b : Browser) (u : ThemeMode)
    → let p = run acts (create b) in
      contains (theme_name u) p.1.class_list ≡ (theme_name p.0.theme == theme_name u)
shown_theme acts b u = (run-IsSettled acts _ (create-IsSettled b)).shown u

-- `toggleTheme` never chooses the purple theme, and from it goes to the light one; from each of
-- the other four it comes back after four calls.
pub next_theme_cycle :
    (t : ThemeMode)
    → (next_theme t ≢ purple)
      × (next_theme purple ≡ light)
      × (t ≢ purple → next_theme (next_theme (next_theme (next_theme t))) ≡ t)
unfolding next_theme
next_theme_cycle light = (cc, refl, λ h. refl)
next_theme_cycle dark = (cc, refl, λ h. refl)
next_theme_cycle ubuntu = (cc, refl, λ h. refl)
next_theme_cycle unix = (cc, refl, λ h. refl)
next_theme_cycle purple = (cc, refl, λ h. absurd (h refl))
