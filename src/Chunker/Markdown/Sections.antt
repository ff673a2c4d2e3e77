-- ===== src/Chunker/Markdown/Sections.antt =====
-- The sections of a Markdown file cover it.
use mathlib.Core.List.{append_assoc}
use goodgrep.Prelude.{
  ℕ, suc, ◌+◌, ◌≤◌, ◌<◌, ◌∙◌, ◌≡◌, ◌⊎◌, refl, ap, sym, subst, true, List, [], ◌∷◌, ◌++◌, Option,
  Bool, none, some, arith, inl, inr,
}
use goodgrep.Prelude.Tests.{if◌then◌else◌, Bool-cases, Option-cases}
use goodgrep.Prelude.Lists.{length, filter-append, is_empty}
use goodgrep.Types.{Chunk}
use goodgrep.Text.{trim, trim_start, trim_end}
use goodgrep.Text.Trims.{ink, is_dark, trim_start-suffix, trim_end-prefix}
use goodgrep.Text.LineText.{line_text}
use goodgrep.Text.Nested.{line_text_parts}
use goodgrep.Chunker.Markdown.{Heading, heading_of, find_headings, fence_opened}

-- The headings stand in lines from `from` to `total`, one behind the other.
abbrev pub InOrder : ℕ → ℕ → List Heading → Type 0
InOrder from total [] = Unit
InOrder from total (h ∷ hs) =
    (from ≤ h.start_line) × (h.start_line < total) × InOrder (suc h.start_line) total hs

InOrder-later :
    (from to total : ℕ) (hs : List Heading)
    → from ≤ to
    → InOrder to total hs
    → InOrder from total hs
InOrder-later from to total [] h o = tt
InOrder-later from to total (x ∷ hs) h o = (omega (arith, o.0), o.1, o.2)

module _ (captures : List ℕ → Option (List ℕ × List ℕ)) where
  heading_of_line :
      (idx : ℕ) (line : List ℕ)
      → (heading_of captures idx line ≡ [])
        ⊎ ((h : Heading) × (heading_of captures idx line ≡ h ∷ []) × (h.start_line ≡ idx))
  unfolding heading_of
  heading_of_line idx line = elim (Option-cases (captures line)) [
    | inl plain ↦ inl (ground (arith, plain))
    | inr ((hashes, group), found) ↦ elim (Bool-cases (is_empty (trim group))) [
      | inl blank ↦ inl (ground (arith, found, blank))
      | inr title ↦ inr (
        record { start_line = idx; level = length hashes; title = trim group },
        ground (arith, found, title),
        refl,
      )
    ]
  ]

  heading-InOrder :
      (idx total : ℕ) (line : List ℕ) (hs : List Heading)
      → idx < total
      → InOrder (suc idx) total hs
      → InOrder idx total (heading_of captures idx line ++ hs)
  heading-InOrder idx total line hs h o = elim (heading_of_line idx line) [
    | inl none_here ↦ rw none_here (InOrder-later idx (suc idx) total hs (omega arith) o)
    | inr (x, one, start) ↦ rw one (
      omega (arith, start),
      omega (arith, start),
      subst (λ n. InOrder (suc n) total hs) (sym start) o,
    )
  ]

  fence-InOrder :
      (fence : Option (List ℕ)) (idx total : ℕ) (line : List ℕ) (hs : List Heading)
      → idx < total
      → InOrder (suc idx) total hs
      → InOrder idx total
          (elim fence [ some delim ↦ hs | none ↦ heading_of captures idx line ++ hs ])
  fence-InOrder none idx total line hs h o = heading-InOrder idx total line hs h o
  fence-InOrder (some delim) idx total line hs h o =
      InOrder-later idx (suc idx) total hs (omega arith) o

  pub find_headings-InOrder :
      (ls : List (List ℕ)) (idx total : ℕ) (fence : Option (List ℕ))
      → idx + length ls ≤ total
      → InOrder idx total (find_headings captures ls idx fence)
  unfolding find_headings
  find_headings-InOrder [] idx total fence h = tt
  find_headings-InOrder (line ∷ rest) idx total (some delim) h =
      InOrder-later idx (suc idx) total _ (omega arith)
        (find_headings-InOrder rest (suc idx) total _ (omega arith))
  find_headings-InOrder (line ∷ rest) idx total none h =
      fence-InOrder (fence_opened (trim_start (trim_end line))) idx total (trim_end line) _
        (omega arith) (find_headings-InOrder rest (suc idx) total _ (omega arith))

-- A part of the text is in a chunk of its own, unless it is blank.
pub record Holds (content : List ℕ) (k : ℕ) (chunks : List Chunk) : Type 0 where
  pub before : List Chunk
  pub piece : Chunk
  pub after : List Chunk
  pub in_order : chunks ≡ before ++ piece ∷ after
  pub first : ℕ
  pub more : ℕ
  pub from_first : first ≤ k
  pub to_last : k ≤ first + more
  pub has_text : piece.content ≡ line_text first more content

abbrev pub Found : List ℕ → ℕ → List Chunk → Type 0
Found content k chunks = (ink (line_text k 0 content) ≡ []) ⊎ Holds content k chunks

empty_of : (s : List ℕ) → is_empty s ≡ true → s ≡ []
empty_of [] h = refl
empty_of (c ∷ s) h = absurd (ground (arith, h))

trim-blank : (s : List ℕ) → is_empty (trim s) ≡ true → ink s ≡ []
unfolding trim
trim-blank s h =
    let (p, start, light) = trim_start-suffix s in
    let (q, end_parts, end_light) = trim_end-prefix (trim_start s) in
    ap ink start
    ∙ filter-append is_dark p (trim_start s)
    ∙ ap (λ u. u ++ ink (trim_start s)) light
    ∙ ap ink (end_parts ∙ ap (λ u. u ++ q) (empty_of (trim_end (trim_start s)) h))
    ∙ end_light

nothing_left : (a b c : List ℕ) → a ++ (b ++ c) ≡ [] → b ≡ []
nothing_left [] [] c h = refl
nothing_left [] (x ∷ b) c h = absurd (ground (arith, h))
nothing_left (x ∷ a) b c h = absurd (ground (arith, h))

-- A line of a blank range is blank.
line_blank :
    (content : List ℕ) (first more k : ℕ)
    → first ≤ k
    → k ≤ first + more
    → is_empty (trim (line_text first more content)) ≡ true
    → ink (line_text k 0 content) ≡ []
line_blank content first more k from to blank =
    let (a, b, parts) = line_text_parts content first more k from to in
    nothing_left (ink a) (ink (line_text k 0 content)) (ink b) (
      sym (
        ap ink parts
        ∙ filter-append is_dark a (line_text k 0 content ++ b)
        ∙ ap (λ u. ink a ++ u) (filter-append is_dark (line_text k 0 content) b))
      ∙ trim-blank (line_text first more content) blank)

Holds-later :
    (content : List ℕ) (k : ℕ) (xs ys : List Chunk)
    → Holds content k ys
    → Holds content k (xs ++ ys)
Holds-later content k xs ys c = record {
  before = xs ++ c.before;
  piece = c.piece;
  after = c.after;
  in_order = ap (λ zs. xs ++ zs) c.in_order ∙ sym (append_assoc xs c.before (c.piece ∷ c.after));
  first = c.first;
  more = c.more;
  from_first = c.from_first;
  to_last = c.to_last;
  has_text = c.has_text;
}

pub Found-later :
    (content : List ℕ) (k : ℕ) (xs ys : List Chunk)
    → Found content k ys
    → Found content k (xs ++ ys)
Found-later content k xs ys (inl blank) = inl blank
Found-later content k xs ys (inr held) = inr (Holds-later content k xs ys held)

-- The chunk of a range of lines, if the range is not blank.
abbrev pub unless_blank : Bool → Chunk → List Chunk
unless_blank blank c = if blank then [] else c ∷ []

pub range-Found :
    (content : List ℕ) (first more k : ℕ) (c : Chunk) (rest : List Chunk)
    → first ≤ k
    → k ≤ first + more
    → c.content ≡ line_text first more content
    → Found content k (unless_blank (is_empty (trim (line_text first more content))) c ++ rest)
range-Found content first more k c rest from to same =
    elim (Bool-cases (is_empty (trim (line_text first more content)))) [
      | inl blank ↦ inl (line_blank content first more k from to blank)
      | inr text ↦ inr (record {
        before = [];
        piece = c;
        after = rest;
        in_order = ap (λ b. unless_blank b c ++ rest) text;
        first = first;
        more = more;
        from_first = from;
        to_last = to;
        has_text = same;
      })
    ]
