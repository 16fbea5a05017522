-- ===== src/Context/Compression.antt =====
-- `ContextCompressor` of python-glue/unified_ai/context/advanced.py, and the fallback
-- `ContextManager._compress_python` of python-glue/unified_ai/context_manager.py.
pub mod Duplicates
pub mod Length
mod Tests
use unified_ai_orchestrator.Base.{
  ℕ, zero, suc, ◌+◌, ◌-◌, ◌/◌, Bool, true, false, List, [], ◌∷◌, ◌++◌, map, reverse, length, take,
  drop, any, ltb, leb, ◌==◌, ◌&&◌, ◌||◌, not, if◌then◌else◌,
}
use unified_ai_orchestrator.Base.Text.{Text, codes, text_eq}
use unified_ai_orchestrator.Context.{Context, Message}
use unified_ai_orchestrator.Context.Window.Manager.{with_messages}

abbrev pub same_message : Message → Message → Bool
same_message m prev = text_eq m.role prev.role && text_eq m.content prev.content

-- The loop of `_remove_duplicates`: each message against the one before it in the input.
unfoldable pub without_repeats : Message → List Message → List Message
without_repeats prev [] = []
without_repeats prev (m ∷ ms) =
    let rest = without_repeats m ms in if not (same_message m prev) then m ∷ rest else rest

-- `_remove_duplicates`
unfoldable pub remove_duplicates : List Message → List Message
remove_duplicates [] = []
remove_duplicates (m ∷ ms) = m ∷ without_repeats m ms

between : ℕ → ℕ → ℕ → Bool
between lo hi c = leb lo c && leb c hi

-- What `str.strip` takes for white space.
unfoldable pub is_space : ℕ → Bool
unfolding between
is_space c =
    between 9 13 c
    || between 28 32 c
    || c == 133
    || c == 160
    || c == 0x1680
    || between 0x2000 0x200a c
    || between 0x2028 0x2029 c
    || c == 0x202f
    || c == 0x205f
    || c == 0x3000

-- What `str.splitlines` takes for the end of a line.
unfoldable pub is_line_end : ℕ → Bool
unfolding between
is_line_end c = between 10 13 c || between 28 30 c || c == 133 || between 0x2028 0x2029 c

unfoldable pub lstrip : Text → Text
lstrip [] = []
lstrip (c ∷ s) = let rest = lstrip s in if is_space c then rest else c ∷ s

-- `line.strip()`
unfoldable pub strip : Text → Text
strip s = reverse (lstrip (reverse (lstrip s)))

abbrev first_line : ℕ → List Text → List Text
first_line c [] = (c ∷ []) ∷ []
first_line c (l ∷ ls) = (c ∷ l) ∷ ls

-- `s.splitlines()`; the pair of a carriage return and a line feed ends one line.
unfoldable pub splitlines : Text → List Text
splitlines [] = []
splitlines (c ∷ []) = if is_line_end c then [] ∷ [] else (c ∷ []) ∷ []
splitlines (c ∷ d ∷ s) =
    let rest = splitlines (d ∷ s) in
    let after = splitlines s in
    if is_line_end c
    then [] ∷ (if (c == 13) && (d == 10) then after else rest)
    else first_line c rest

-- `" ".join(line.strip() for line in content.splitlines() if line.strip())`
unfoldable pub join_lines : List Text → Text
join_lines [] = []
join_lines (l ∷ []) = l
join_lines (l ∷ l' ∷ ls) = l ++ 32 ∷ join_lines (l' ∷ ls)

unfoldable pub stripped_lines : List Text → List Text
stripped_lines [] = []
stripped_lines (l ∷ ls) =
    let rest = stripped_lines ls in if leb 1 (length (strip l)) then strip l ∷ rest else rest

unfoldable pub squeeze : Text → Text
squeeze content = join_lines (stripped_lines (splitlines content))

abbrev pub max_length : ℕ
max_length = 2000

abbrev pub marker : Text
marker = codes "... [truncated] ..."

-- `text[:n] + "... [truncated] ..." + text[-n:]` for a text of at least `n` characters.
unfoldable pub clip : ℕ → Text → Text
clip n t = take n t ++ (marker ++ drop (length t - n) t)

unfoldable pub limit_length : Text → Text
limit_length t = if ltb max_length (length t) then clip (max_length / 2) t else t

-- `_compress_message`
unfoldable pub compress_message : Message → Message
compress_message m = record m { content = limit_length (squeeze m.content) }

-- `compress`
unfoldable pub compress : {J : Type 0} → Context J Message → Context J Message
compress c = with_messages c (map compress_message (remove_duplicates c.messages))

-- The loop of `_compress_python`, which compares the contents only.
unfoldable pub shorten : Message → Message
shorten m = record m { content = limit_length m.content }

unfoldable pub without_repeats_python : Message → List Message → List Message
without_repeats_python prev [] = []
without_repeats_python prev (m ∷ ms) =
    let rest = without_repeats_python m ms in
    if not (text_eq m.content prev.content) then shorten m ∷ rest else rest

unfoldable pub compress_messages_python : List Message → List Message
compress_messages_python [] = []
compress_messages_python (m ∷ ms) = shorten m ∷ without_repeats_python m ms

-- `_compress_python`
unfoldable pub compress_python : {J : Type 0} → Context J Message → Context J Message
compress_python c = with_messages c (compress_messages_python c.messages)
