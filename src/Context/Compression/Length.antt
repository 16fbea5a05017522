-- ===== src/Context/Compression/Length.antt =====
-- The length and the lines of a compressed message.
use unified_ai_orchestrator.Base.{
  ℕ, zero, suc, ◌-◌, ◌≤◌, ◌≡◌, refl, false, List, [], ◌∷◌, ◌++◌, map, reverse, length, take, drop,
  All, All-append, arith, Bool-cases, inl, inr, ltb, leb, ◌==◌, ◌&&◌, length-append, length-take,
  length-drop, reverse-append,
}
use unified_ai_orchestrator.Base.Text.{Text}
use unified_ai_orchestrator.Context.{Context, Message}
use unified_ai_orchestrator.Context.Compression.{
  is_space, is_line_end, lstrip, strip, splitlines, first_line, join_lines, stripped_lines, squeeze,
  max_length, marker, clip, limit_length, compress_message, compress, remove_duplicates,
}

-- A text on one line.
abbrev pub OneLine : Text → Type 0
OneLine t = All (λ (c : ℕ). is_line_end c ≡ false) t

limit_length-le : (t : Text) → length (limit_length t) ≤ 2019
unfolding limit_length clip
limit_length-le t = elim (Bool-cases (ltb max_length (length t))) [
  | inl long ↦ rw long (
      omega (
        arith,
        length-append (take 1000 t) (marker ++ drop (length t - 1000) t),
        length-append marker (drop (length t - 1000) t),
        length-take 1000 t,
        length-drop (length t - 1000) t,
      ))
  | inr short ↦ rw short (ground arith)
]

module _ (P : ℕ → Type 0) where
  All-take : (n : ℕ) (t : Text) → All P t → All P (take n t)
  All-take zero t h = tt
  All-take (suc n) [] h = tt
  All-take (suc n) (c ∷ t) h = (h.0, All-take n t h.1)

  All-drop : (n : ℕ) (t : Text) → All P t → All P (drop n t)
  All-drop zero t h = h
  All-drop (suc n) [] h = tt
  All-drop (suc n) (c ∷ t) h = All-drop n t h.1

  All-reverse : (t : Text) → All P t → All P (reverse t)
  All-reverse [] h = tt
  All-reverse (c ∷ t) h =
      rw (reverse-append (c ∷ []) t)
        (All-append P (reverse t) (c ∷ []) (All-reverse t h.1) (h.0, tt))

  All-lstrip : (t : Text) → All P t → All P (lstrip t)
  unfolding lstrip
  All-lstrip [] h = tt
  All-lstrip (c ∷ t) h = elim (Bool-cases (is_space c)) [
    | inl skip ↦ rw skip (All-lstrip t h.1)
    | inr stay ↦ rw stay h
  ]

  All-strip : (t : Text) → All P t → All P (strip t)
  unfolding strip
  All-strip t h =
      All-reverse (lstrip (reverse (lstrip t)))
        (All-lstrip (reverse (lstrip t)) (All-reverse (lstrip t) (All-lstrip t h)))

marker-OneLine : OneLine marker
unfolding is_line_end
marker-OneLine = ground arith

limit_length-OneLine : (t : Text) → OneLine t → OneLine (limit_length t)
unfolding limit_length clip
limit_length-OneLine t h = elim (Bool-cases (ltb max_length (length t))) [
  | inl long ↦ rw long (
      All-append ends (take 1000 t) (marker ++ drop (length t - 1000) t) (All-take ends 1000 t h) (
        All-append ends marker (drop (length t - 1000) t) marker-OneLine
          (All-drop ends (length t - 1000) t h)))
  | inr short ↦ rw short h
]
  where
    ends : ℕ → Type 0
    ends c = is_line_end c ≡ false

first_line-OneLine :
    (c : ℕ) (ls : List Text)
    → is_line_end c ≡ false
    → All OneLine ls
    → All OneLine (first_line c ls)
first_line-OneLine c [] e h = ((e, tt), tt)
first_line-OneLine c (l ∷ ls) e h = ((e, h.0), h.1)

splitlines-OneLine : (t : Text) → All OneLine (splitlines t)
unfolding splitlines
splitlines-OneLine [] = tt
splitlines-OneLine (c ∷ []) = elim (Bool-cases (is_line_end c)) [
  | inl end ↦ rw end (tt, tt)
  | inr inside ↦ rw inside ((inside, tt), tt)
]
splitlines-OneLine (c ∷ d ∷ t) = elim (Bool-cases (is_line_end c)) [
  | inl end ↦ elim (Bool-cases ((c == 13) && (d == 10))) [
    | inl pair ↦ rw (end, pair) (tt, splitlines-OneLine t)
    | inr single ↦ rw (end, single) (tt, splitlines-OneLine (d ∷ t))
  ]
  | inr inside ↦
      rw inside (first_line-OneLine c (splitlines (d ∷ t)) inside (splitlines-OneLine (d ∷ t)))
]

stripped_lines-OneLine : (ls : List Text) → All OneLine ls → All OneLine (stripped_lines ls)
unfolding stripped_lines
stripped_lines-OneLine [] h = tt
stripped_lines-OneLine (l ∷ ls) h = elim (Bool-cases (leb 1 (length (strip l)))) [
  | inl some_text ↦
      rw some_text
        (All-strip (λ (c : ℕ). is_line_end c ≡ false) l h.0, stripped_lines-OneLine ls h.1)
  | inr blank ↦ rw blank (stripped_lines-OneLine ls h.1)
]

space-OneLine : is_line_end 32 ≡ false
unfolding is_line_end
space-OneLine = refl

join_lines-OneLine : (ls : List Text) → All OneLine ls → OneLine (join_lines ls)
unfolding join_lines
join_lines-OneLine [] h = tt
join_lines-OneLine (l ∷ []) h = h.0
join_lines-OneLine (l ∷ l' ∷ ls) h =
    All-append (λ (c : ℕ). is_line_end c ≡ false) l (32 ∷ join_lines (l' ∷ ls)) h.0
      (space-OneLine, join_lines-OneLine (l' ∷ ls) h.1)

squeeze-OneLine : (t : Text) → OneLine (squeeze t)
unfolding squeeze
squeeze-OneLine t =
    join_lines-OneLine (stripped_lines (splitlines t))
      (stripped_lines-OneLine (splitlines t) (splitlines-OneLine t))

-- A compressed message is one line of at most 2019 characters: 1000 from each end and the marker.
pub compress_message_bounds :
    (m : Message)
    → (length (compress_message m).content ≤ 2019) × OneLine (compress_message m).content
unfolding compress_message
compress_message_bounds m = (
  limit_length-le (squeeze m.content),
  limit_length-OneLine (squeeze m.content) (squeeze-OneLine m.content),
)

-- The same for every message of a compressed context.
pub compress_bounds :
    {J : Type 0} (c : Context J Message)
    → All (λ m. (length m.content ≤ 2019) × OneLine m.content) (compress c).messages
unfolding compress
compress_bounds c = each (remove_duplicates c.messages)
  where
    each :
        (ms : List Message)
        → All
            (λ (m : Message). (length m.content ≤ 2019) × OneLine m.content)
            (map compress_message ms)
    each [] = tt
    each (m ∷ ms) = (compress_message_bounds m, each ms)
