-- ===== src/Vintf/Loads.antt =====
-- A whole manifest file, written and loaded, and the questions that are put to it.
use binder.Prelude.{
  ℕ, suc, ◌+◌, ◌-◌, Bool, true, false, List, [], ◌∷◌, ◌++◌, ◌==◌, length, take, all, Option, none,
  some, ◌≡◌, ◌≢◌, refl, sym, ap, ◌∙◌, arith, Bool-cases, inl, inr, append_assoc, append-nil,
}
use binder.Text.{Bytes, find_last_if}
use binder.Text.Search.{
  none_of, none_of-append, none_of_mono, find_if-append, find_if-none, find_last_if-none,
  take_front, drop_front,
}
use binder.Vintf.{
  ManifestInstance, is_blank, is_solid, between, trim_blanks, get_lines, is_comment, load_lines,
  load_from,
}
use binder.Vintf.Lines.{line_text, rest_text, WellNamed, parse_line-line_text}

abbrev is_line_feed : ℕ → Bool
is_line_feed c = c == b'\n'

-- What a line of the file can be.
pub data Entry : Type 0 where
  blank_line : Bytes → Entry
  comment_line : Bytes → Bytes → Entry
  instance_line : Bytes → ManifestInstance → Bytes → Entry

abbrev pub entry_text : Entry → Bytes
entry_text (blank_line s) = s
entry_text (comment_line indent s) = indent ++ (b'#' ∷ s)
entry_text (instance_line indent mi trailing) = indent ++ (line_text mi ++ trailing)

-- Blanks are blank, a comment and the blanks have no line feed, and an instance is well named, without
-- blanks in its names, and its line does not look like a comment.
abbrev pub IsEntry : Entry → Type 0
IsEntry (blank_line s) = (all is_blank s ≡ true) × (none_of is_line_feed s ≡ true)
IsEntry (comment_line indent s) =
    (all is_blank indent ≡ true)
    × (none_of is_line_feed indent ≡ true)
    × (none_of is_line_feed s ≡ true)
IsEntry (instance_line indent mi trailing) =
    ((all is_blank indent ≡ true) × (none_of is_line_feed indent ≡ true))
    × ((all is_blank trailing ≡ true) × (none_of is_line_feed trailing ≡ true))
    × (WellNamed mi
        × (none_of is_blank (line_text mi) ≡ true)
        × (is_comment (line_text mi) ≡ false))

abbrev pub AllEntries : List Entry → Type 0
AllEntries [] = Unit {0}
AllEntries (e ∷ entries) = IsEntry e × AllEntries entries

abbrev pub file_text : List Entry → Bytes
file_text [] = []
file_text (e ∷ entries) = entry_text e ++ (b'\n' ∷ file_text entries)

abbrev pub declared : List Entry → List ManifestInstance
declared [] = []
declared (blank_line s ∷ entries) = declared entries
declared (comment_line indent s ∷ entries) = declared entries
declared (instance_line indent mi trailing ∷ entries) = mi ∷ declared entries

get_lines-line :
    (part line rest : Bytes)
    → none_of is_line_feed line ≡ true
    → get_lines part (line ++ (b'\n' ∷ rest)) ≡ (part ++ line) ∷ get_lines [] rest
unfolding get_lines
get_lines-line part [] rest h = rw (append-nil part) refl
get_lines-line part (c ∷ line) rest h = elim (Bool-cases (c == b'\n')) [
  | inl e ↦ absurd (ground arith)
  | inr e ↦ rw e (
      get_lines-line (part ++ (c ∷ [])) line rest (ground arith)
      ∙ ap (λ (x : Bytes). x ∷ get_lines [] rest) (append_assoc part (c ∷ []) line))
]

blank-none_of : (s : Bytes) → all is_blank s ≡ true → none_of is_solid s ≡ true
blank-none_of [] h = refl
blank-none_of (c ∷ s) h = ground (arith, blank-none_of s)

trim_blanks-blank : (s : Bytes) → all is_blank s ≡ true → trim_blanks s ≡ []
unfolding trim_blanks
trim_blanks-blank s h = rw (find_if-none is_solid s (blank-none_of s h)) refl

take_next : (n c : ℕ) (s : Bytes) → take (n + 1) (c ∷ s) ≡ c ∷ take n s
take_next n c s = let e : n + 1 ≡ suc n = omega arith in ap (λ k. take k (c ∷ s)) e

-- A comment is a comment behind any blanks.
trim_blanks-comment :
    (indent s : Bytes)
    → all is_blank indent ≡ true
    → is_comment (trim_blanks (indent ++ (b'#' ∷ s))) ≡ true
unfolding trim_blanks
trim_blanks-comment indent s h =
    rw (find_if-append is_solid indent s b'#' (blank-none_of indent h) refl)
      (go (find_last_if is_solid (indent ++ (b'#' ∷ s))))
  where
    go :
        (o : Option ℕ) → is_comment (between (indent ++ (b'#' ∷ s)) (some (length indent)) o) ≡ true
    go none = refl
    go (some last) = rw (drop_front indent (b'#' ∷ s), take_next (last - length indent) b'#' s) refl

find_last_if-trailing :
    (p : ℕ → Bool) (a b : Bytes) → none_of p b ≡ true → find_last_if p (a ++ b) ≡ find_last_if p a
unfolding find_last_if
find_last_if-trailing p [] b h = find_last_if-none p b h
find_last_if-trailing p (c ∷ a) b h = rw (find_last_if-trailing p a b h) refl

find_last_if-all :
    (p : ℕ → Bool) (c : ℕ) (s : Bytes)
    → all p (c ∷ s) ≡ true
    → find_last_if p (c ∷ s) ≡ some (length s)
unfolding find_last_if
find_last_if-all p c [] h = ground arith
find_last_if-all p c (d ∷ s) h = rw (find_last_if-all p d s (ground arith)) refl

find_last_if-indent :
    (p : ℕ → Bool) (a b : Bytes) (n : ℕ)
    → find_last_if p b ≡ some n
    → find_last_if p (a ++ b) ≡ some (length a + n)
unfolding find_last_if
find_last_if-indent p [] b n h = h ∙ ap some (omega arith)
find_last_if-indent p (c ∷ a) b n h = rw (find_last_if-indent p a b n h) (ap some (omega arith))

-- The blanks around a text that has none are trimmed, and nothing else is.
trim_blanks-text :
    (indent : Bytes) (c : ℕ) (s trailing : Bytes)
    → all is_blank indent ≡ true
    → all is_blank trailing ≡ true
    → none_of is_blank (c ∷ s) ≡ true
    → trim_blanks (indent ++ ((c ∷ s) ++ trailing)) ≡ c ∷ s
unfolding trim_blanks
trim_blanks-text indent c s trailing h k solid =
    rw
      (
        find_if-append is_solid indent (s ++ trailing) c (blank-none_of indent h) (ground arith),
        find_last_if-indent is_solid indent (c ∷ (s ++ trailing)) (length s) (
            find_last_if-trailing is_solid (c ∷ s) trailing (blank-none_of trailing k)
            ∙ find_last_if-all is_solid c s solid),
        drop_front indent (c ∷ (s ++ trailing)),
      )
      (let e : length indent + length s - length indent + 1 ≡ suc (length s) = omega arith in
        ap (λ n. take n (c ∷ (s ++ trailing))) e ∙ take_front (c ∷ s) trailing)

trim_blanks-solid :
    (indent text trailing : Bytes)
    → text ≢ []
    → all is_blank indent ≡ true
    → all is_blank trailing ≡ true
    → none_of is_blank text ≡ true
    → trim_blanks (indent ++ (text ++ trailing)) ≡ text
trim_blanks-solid indent [] trailing ne h k solid = absurd (ne refl)
trim_blanks-solid indent (c ∷ s) trailing ne h k solid =
    trim_blanks-text indent c s trailing h k solid

line_text-ne : (mi : ManifestInstance) → line_text mi ≢ []
line_text-ne mi = go mi.package_name
  where
    go : (a : Bytes) → (a ++ (b'.' ∷ mi.interface)) ++ (b'/' ∷ rest_text mi) ≢ []
    go [] = λ e. cc
    go (c ∷ a) = λ e. cc

entry_text-line : (e : Entry) → IsEntry e → none_of is_line_feed (entry_text e) ≡ true
entry_text-line (blank_line s) (h, k) = k
entry_text-line (comment_line indent s) (h, k, l) =
    none_of-append is_line_feed indent (b'#' ∷ s) k l
entry_text-line (instance_line indent mi trailing) (i, t, m) =
    none_of-append is_line_feed indent (line_text mi ++ trailing) i.1 (
      none_of-append is_line_feed (line_text mi) trailing
        (none_of_mono is_blank is_line_feed (line_text mi) (λ c e. ground arith) m.1) t.1)

-- What one line adds.
load_lines-entry :
    (e : Entry) (lines : List Bytes)
    → IsEntry e
    → load_lines (entry_text e ∷ lines) ≡ declared (e ∷ []) ++ load_lines lines
unfolding load_lines
load_lines-entry (blank_line s) lines (h, k) = rw (trim_blanks-blank s h) refl
load_lines-entry (comment_line indent s) lines (h, k, l) = rw (trim_blanks-comment indent s h) refl
load_lines-entry (instance_line indent mi trailing) lines (i, t, m) =
    rw
      (
        trim_blanks-solid indent (line_text mi) trailing (line_text-ne mi) i.0 t.0 m.1,
        m.2,
        parse_line-line_text mi m.0,
      )
      refl

declared-cons :
    (e : Entry) (entries : List Entry)
    → declared (e ∷ entries) ≡ declared (e ∷ []) ++ declared entries
declared-cons (blank_line s) entries = refl
declared-cons (comment_line indent s) entries = refl
declared-cons (instance_line indent mi trailing) entries = refl

-- A manifest file is loaded as the instances that it declares, in their order: blank lines, comments
-- and the blanks around a line are passed over, and each instance is read field by field.
pub load_from-file_text :
    (entries : List Entry)
    → AllEntries entries
    → load_from (some (file_text entries)) ≡ declared entries
unfolding load_from get_lines load_lines
load_from-file_text [] h = refl
load_from-file_text (e ∷ entries) (h, hs) =
    ap load_lines (get_lines-line [] (entry_text e) (file_text entries) (entry_text-line e h))
    ∙ load_lines-entry e (get_lines [] (file_text entries)) h
    ∙ ap (λ (x : List ManifestInstance). declared (e ∷ []) ++ x) (load_from-file_text entries hs)
    ∙ sym (declared-cons e entries)
