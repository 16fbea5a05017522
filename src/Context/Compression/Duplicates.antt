-- ===== src/Context/Compression/Duplicates.antt =====
-- Repeated messages.
use unified_ai_orchestrator.Base.{
  ◌≡◌, refl, sym, ap, ◌∙◌, true, false, List, [], ◌∷◌, arith, Bool-cases, inl, inr,
}
use unified_ai_orchestrator.Base.Text.{Text, text_eq, text_eq→eq, text_eq_refl}
use unified_ai_orchestrator.Context.{Message}
use unified_ai_orchestrator.Context.Compression.{
  same_message, without_repeats, remove_duplicates, shorten, without_repeats_python,
  compress_messages_python,
}

-- No message has the role and the content of the one before it.
abbrev pub NoRepeat : List Message → Type 0
NoRepeat [] = Unit
NoRepeat (m ∷ []) = Unit
NoRepeat (m ∷ m' ∷ ms) = (same_message m' m ≡ false) × NoRepeat (m' ∷ ms)

text_eq_cong : (s t u : Text) → text_eq s t ≡ true → text_eq u s ≡ text_eq u t
text_eq_cong s t u h = ap (text_eq u) (text_eq→eq s t h)

-- A message that repeats another compares like it.
same_cong : (m p k : Message) → same_message m p ≡ true → same_message k m ≡ same_message k p
same_cong m p k h =
    ground (arith, text_eq_cong m.role p.role k.role, text_eq_cong m.content p.content k.content)

without_repeats-NoRepeat :
    (k p : Message) (ms : List Message)
    → ((x : Message) → same_message x p ≡ same_message x k)
    → NoRepeat (k ∷ without_repeats p ms)
unfolding without_repeats
without_repeats-NoRepeat k p [] h = tt
without_repeats-NoRepeat k p (m ∷ ms) h = elim (Bool-cases (same_message m p)) [
  | inl again ↦ rw again (without_repeats-NoRepeat k m ms (λ x. same_cong m p x again ∙ h x))
  | inr new ↦ rw new (sym (h m) ∙ new, without_repeats-NoRepeat m m ms (λ x. refl))
]

-- `_remove_duplicates` leaves no two neighbours with the same role and content.
pub remove_duplicates-NoRepeat : (ms : List Message) → NoRepeat (remove_duplicates ms)
unfolding remove_duplicates
remove_duplicates-NoRepeat [] = tt
remove_duplicates-NoRepeat (m ∷ ms) = without_repeats-NoRepeat m m ms (λ x. refl)

without_repeats_id :
    (m : Message) (ms : List Message) → NoRepeat (m ∷ ms) → without_repeats m ms ≡ ms
unfolding without_repeats
without_repeats_id m [] h = refl
without_repeats_id m (m' ∷ ms) h = rw h.0 (ap (◌∷◌ m') (without_repeats_id m' ms h.1))

pub remove_duplicates_id : (ms : List Message) → NoRepeat ms → remove_duplicates ms ≡ ms
unfolding remove_duplicates
remove_duplicates_id [] h = refl
remove_duplicates_id (m ∷ ms) h = ap (◌∷◌ m) (without_repeats_id m ms h)

-- Two neighbours with one content and different roles: the compressor keeps both, but the fallback
-- of the manager drops the second.
pub compress_messages_python-drops :
    (m m' : Message)
    → m'.content ≡ m.content
    → text_eq m'.role m.role ≡ false
    → (remove_duplicates (m ∷ m' ∷ []) ≡ m ∷ m' ∷ [])
      × (compress_messages_python (m ∷ m' ∷ []) ≡ shorten m ∷ [])
unfolding remove_duplicates without_repeats compress_messages_python without_repeats_python
compress_messages_python-drops m m' same other =
    (ground arith, ground (arith, text_eq_refl m.content))
