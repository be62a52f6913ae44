-- ===== src/Text.antt =====
-- Byte strings: what the program uses of std::string, <cctype> and <algorithm>, and the helpers
-- `toLower` and `trim` of service/http/HttpClient.cpp.
pub mod Search
pub mod Trim
pub mod Number
mod Tests
use Prim.Native.Char.{code}
use Prim.Native.String.{String}
use binder.Prelude.{
  ℕ, zero, suc, ◌+◌, Bool, true, false, not, ◌&&◌, ◌||◌, List, [], ◌∷◌, ◌++◌, map, Option, none,
  some, leb, ◌==◌, if◌then◌else◌, take, drop, length, is_empty, all,
}

abbrev pub Bytes : Type 0
Bytes = List ℕ

-- The code points of a literal: its bytes, since every literal here is ASCII.
abbrev pub codes : String → Bytes
codes String.[] = []
codes (String.◌∷◌ c s) = code c ∷ codes s

-- std::isspace in the "C" locale: tab to carriage return, and the blank.
unfoldable pub is_space : ℕ → Bool
is_space c = c == 32 || (leb 9 c && leb c 13)

-- std::tolower in the "C" locale.
unfoldable pub lower : ℕ → ℕ
lower c = if leb b'A' c && leb c b'Z' then c + 32 else c

unfoldable pub to_lower : Bytes → Bytes
unfolding lower
to_lower = map lower

-- `while (b < e && isspace(s[b])) ++b;`
unfoldable pub drop_spaces : Bytes → Bytes
unfolding is_space
drop_spaces [] = []
drop_spaces (c ∷ s) = let rest = drop_spaces s in if is_space c then rest else c ∷ s

-- `while (e > b && isspace(s[e - 1])) --e;`
unfoldable pub drop_end_spaces : Bytes → Bytes
unfolding is_space
drop_end_spaces [] = []
drop_end_spaces (c ∷ s) =
    let rest = drop_end_spaces s in if is_empty rest && is_space c then [] else c ∷ rest

unfoldable pub trim : Bytes → Bytes
unfolding drop_spaces drop_end_spaces
trim s = drop_end_spaces (drop_spaces s)

-- `operator==` of std::string.
unfoldable pub equal : Bytes → Bytes → Bool
equal [] [] = true
equal [] (d ∷ other) = false
equal (c ∷ text) [] = false
equal (c ∷ text) (d ∷ other) = c == d && equal text other

-- The first position at which `p` holds: `find` and `find_first_of`.
unfoldable pub find_if : (ℕ → Bool) → Bytes → Option ℕ
find_if p [] = none
find_if p (c ∷ s) =
    if p c then some 0 else (elim (find_if p s) [ none ↦ none | some n ↦ some (suc n) ])

-- The last position at which `p` holds: `rfind`.
unfoldable pub find_last_if : (ℕ → Bool) → Bytes → Option ℕ
find_last_if p [] = none
find_last_if p (c ∷ s) = elim (find_last_if p s) [
  | some n ↦ some (suc n)
  | none ↦ if p c then some 0 else none
]

unfoldable pub starts_with : Bytes → Bytes → Bool
starts_with [] s = true
starts_with (x ∷ xs) [] = false
starts_with (x ∷ xs) (y ∷ ys) = x == y && starts_with xs ys

-- The first position of a text in another: `find` of a string.
unfoldable pub find_text : Bytes → Bytes → Option ℕ
unfolding starts_with
find_text t [] = if starts_with t [] then some 0 else none
find_text t (c ∷ s) =
    if starts_with t (c ∷ s)
    then some 0
    else (elim (find_text t s) [ none ↦ none | some n ↦ some (suc n) ])

abbrev pub is_digit : ℕ → Bool
is_digit c = leb b'0' c && leb c b'9'
