-- ===== src/Http/Headers.antt =====
-- The header bag of service/http/HttpClient.cpp, class `Headers`: names in lower case, in arrival
-- order.
use binder.Prelude.{
  Bool, true, false, ◌||◌, List, [], ◌∷◌, ◌++◌, none, some, ◌≡◌, refl, arith, if◌then◌else◌,
}
use binder.Text.{Bytes, to_lower, equal, find_text}

abbrev pub Headers : Type 0
Headers = List (Bytes × Bytes)

unfoldable pub add : Headers → Bytes → Bytes → Headers
add items name value = items ++ ((to_lower name, value) ∷ [])

unfoldable pub get_key : Headers → Bytes → Bytes
get_key [] key = []
get_key ((n, v) ∷ items) key = let rest = get_key items key in if equal n key then v else rest

unfoldable pub get : Headers → Bytes → Bytes
unfolding get_key
get items name = get_key items (to_lower name)

unfoldable pub contains : Headers → Bytes → Bytes → Bool
contains items name needle = elim (find_text (to_lower needle) (to_lower (get items name))) [
  | none ↦ false
  | some n ↦ true
]

-- A header of that name, in any case, has been added.
abbrev pub has_key : Headers → Bytes → Bool
has_key [] key = false
has_key ((n, v) ∷ items) key = equal n key || has_key items key

get_key-append :
    (items : Headers) (n v key : Bytes)
    → get_key (items ++ ((n, v) ∷ [])) key
      ≡ (if has_key items key then get_key items key else if equal n key then v else [])
unfolding get_key
get_key-append [] n v key = refl
get_key-append ((m, w) ∷ items) n v key = ground (arith, get_key-append items n v key)

-- The first value of a repeated header wins, whatever the case of its name: after `add`, a lookup
-- gives what it gave before if the name was there, and else the new value if the names agree but
-- for case, and else nothing.
pub get-add :
    (items : Headers) (name value key : Bytes)
    → get (add items name value) key ≡ (
        if has_key items (to_lower key)
        then get items key
        else if equal (to_lower name) (to_lower key)
        then value
        else [])
unfolding get add
get-add items name value key = get_key-append items (to_lower name) value (to_lower key)
