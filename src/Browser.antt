-- ===== src/Browser.antt =====
-- What the program keeps in the browser: the class list of the document's root element
-- (`document.documentElement.classList`) and `localStorage`, with the platform's operations on them.
use drishtiscope_oss.Common.{
  String, Option, none, some, Bool, not, List, [], ◌∷◌, ◌++◌, ◌==◌, filter, any, if◌then◌else◌,
}

pub record Browser : Type 0 where
  pub class_list : List String
  pub local_storage : List (String × String)

-- `localStorage.getItem`: `none` is `null`.
unfoldable pub get_item : String → List (String × String) → Option String
get_item k [] = none
get_item k ((j, v) ∷ m) = if j == k then some v else get_item k m

-- `localStorage.setItem`
unfoldable pub set_item : String → String → List (String × String) → List (String × String)
set_item k v [] = (k, v) ∷ []
set_item k v ((j, w) ∷ m) = if j == k then (k, v) ∷ m else (j, w) ∷ set_item k v m

abbrev pub contains : String → List String → Bool
contains c = any (λ d. d == c)

-- `classList.remove(...)`
unfoldable pub remove_classes : List String → List String → List String
remove_classes gone classes = filter (λ c. not (contains c gone)) classes

-- `classList.add`
unfoldable pub add_class : String → List String → List String
add_class c classes = if contains c classes then classes else classes ++ c ∷ []
