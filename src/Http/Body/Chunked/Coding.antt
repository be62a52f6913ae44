-- ===== src/Http/Body/Chunked/Coding.antt =====
-- The chunked coding, as `pumpChunked` of service/http/HttpClient.cpp reads it.
use binder.Prelude.{
  ℕ, true, [], ◌∷◌, ◌++◌, ◌≤◌, length, some, ◌≡◌, ◌≢◌, refl, sym, ap, arith, ◌∙◌, subst, some_inj,
}
use binder.Text.{Bytes}
use binder.Text.Search.{none_of}
use binder.Http.Reader.{strip_cr}
use binder.Http.Reader.Lines.{is_line_feed}
use binder.Http.Body.Chunked.{chunk_size, chunk_header}

-- A text in the chunked coding, with any text behind its last chunk's size line, and the body that it
-- stands for. A size line may have extensions, and any line may stand behind a chunk; both end at
-- their first line feed.
pub data IsChunked : Bytes → Bytes → Type 0 where
  last :
      {text : Bytes} (line rest : Bytes)
      → text ≡ line ++ (b'\n' ∷ rest)
      → none_of is_line_feed line ≡ true
      → chunk_size (chunk_header (strip_cr line)) ≡ some 0
      → IsChunked text []
  chunk :
      {text body more : Bytes} (line piece tail rest : Bytes)
      → text ≡ line ++ (b'\n' ∷ (piece ++ (tail ++ (b'\n' ∷ rest))))
      → none_of is_line_feed line ≡ true
      → none_of is_line_feed tail ≡ true
      → piece ≢ []
      → chunk_size (chunk_header (strip_cr line)) ≡ some (length piece)
      → body ≡ piece ++ more
      → IsChunked rest more
      → IsChunked text body

-- The same of a first part of the body, where the text may stop anywhere.
pub data IsChunkedPart : Bytes → Bytes → Type 0 where
  stop : {text : Bytes} → IsChunkedPart text []
  part :
      {text : Bytes} (line piece rest : Bytes) (size : ℕ)
      → text ≡ line ++ (b'\n' ∷ (piece ++ rest))
      → none_of is_line_feed line ≡ true
      → chunk_size (chunk_header (strip_cr line)) ≡ some size
      → length piece ≤ size
      → IsChunkedPart text piece
  chunk_part :
      {text more : Bytes} (line piece tail rest : Bytes)
      → text ≡ line ++ (b'\n' ∷ (piece ++ (tail ++ (b'\n' ∷ rest))))
      → none_of is_line_feed line ≡ true
      → none_of is_line_feed tail ≡ true
      → chunk_size (chunk_header (strip_cr line)) ≡ some (length piece)
      → IsChunkedPart rest more
      → IsChunkedPart text (piece ++ more)

-- A line ends at its first line feed.
line_unique :
    (a b x y : Bytes)
    → none_of is_line_feed a ≡ true
    → none_of is_line_feed b ≡ true
    → a ++ (b'\n' ∷ x) ≡ b ++ (b'\n' ∷ y)
    → (a ≡ b) × (x ≡ y)
line_unique [] [] x y h k e = (refl, cc)
line_unique [] (d ∷ b) x y h k e = let same : d ≡ b'\n' = cc in absurd (ground arith)
line_unique (c ∷ a) [] x y h k e = let same : c ≡ b'\n' = cc in absurd (ground arith)
line_unique (c ∷ a) (d ∷ b) x y h k e =
    let tails : a ++ (b'\n' ∷ x) ≡ b ++ (b'\n' ∷ y) = cc in
    let (same, rest) = line_unique a b x y (ground arith) (ground arith) tails in
    let heads : c ≡ d = cc in (cc, rest)

-- Two first parts of one length are one.
prefix_unique : (a b x y : Bytes) → length a ≡ length b → a ++ x ≡ b ++ y → (a ≡ b) × (x ≡ y)
prefix_unique [] [] x y h e = (refl, e)
prefix_unique [] (d ∷ b) x y h e = absurd (cc)
prefix_unique (c ∷ a) [] x y h e = absurd (cc)
prefix_unique (c ∷ a) (d ∷ b) x y h e =
    let heads : c ≡ d = cc in
    let tails : a ++ x ≡ b ++ y = cc in
    let lengths : length a ≡ length b = cc in
    let (same, rest) = prefix_unique a b x y lengths tails in (cc, rest)

no_length : (s : Bytes) → length s ≡ 0 → s ≡ []
no_length [] h = refl
no_length (c ∷ s) h = absurd (cc)

-- A chunk is not a last chunk.
not_last :
    (text line rest line' piece rest' : Bytes)
    → text ≡ line ++ (b'\n' ∷ rest)
    → none_of is_line_feed line ≡ true
    → chunk_size (chunk_header (strip_cr line)) ≡ some 0
    → text ≡ line' ++ (b'\n' ∷ rest')
    → none_of is_line_feed line' ≡ true
    → chunk_size (chunk_header (strip_cr line')) ≡ some (length piece)
    → piece ≡ []
not_last text line rest line' piece rest' e h k e' h' k' =
    let (same, tails) = line_unique line line' rest rest' h h' (sym e ∙ e') in
    no_length piece
      (some_inj (sym k' ∙ ap (λ l. chunk_size (chunk_header (strip_cr l))) (sym same) ∙ k))

-- A text stands for one body at most.
pub chunked_unique : {text a b : Bytes} → IsChunked text a → IsChunked text b → a ≡ b
chunked_unique (last line rest e h k) (last line' rest' e' h' k') = refl
chunked_unique {text} (last line rest e h k)
      (chunk line' piece tail rest' e' h' plain filled k' body more) =
    absurd (filled (not_last text line rest line' piece _ e h k e' h' k'))
chunked_unique {text} (chunk line piece tail rest e h plain filled k body more)
      (last line' rest' e' h' k') =
    absurd (filled (not_last text line' rest' line piece _ e' h' k' e h k))
chunked_unique (chunk {more = more_body} line piece tail rest e h plain filled k body more)
      (chunk line' piece' tail' rest' e' h' plain' filled' k' body' more') =
    let (same, behind) = line_unique line line' _ _ h h' (sym e ∙ e') in
    let sizes = some_inj (sym k ∙ ap (λ l. chunk_size (chunk_header (strip_cr l))) same ∙ k') in
    let (pieces, tails) = prefix_unique piece piece' _ _ sizes behind in
    let (ends, rests) = line_unique tail tail' rest rest' plain plain' tails in
    let deeper = chunked_unique (subst (λ t. IsChunked t more_body) rests more) more' in
    body ∙ ap (λ (p : Bytes). p ++ more_body) pieces ∙ ap (◌++◌ piece') deeper ∙ sym body'
