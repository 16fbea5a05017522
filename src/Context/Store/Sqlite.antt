-- ===== src/Context/Store/Sqlite.antt =====
-- The tables `contexts` and `messages` of python-glue/unified_ai/storage/sqlite.py, as the storage of
-- the manager. A table is the list of its rows, and a statement does what SQLite documents of it. The columns `id` and
-- `created_at`, which the database fills itself, are left out.
use unified_ai_orchestrator.Base.{
  ℕ, ◌≡◌, refl, Option, none, some, List, [], ◌∷◌, ◌++◌, if◌then◌else◌, arith, Bool-cases, inl, inr,
}
use unified_ai_orchestrator.Base.Text.{Text, text_eq, text_eq→eq, text_eq_sym}
use unified_ai_orchestrator.Context.Store.{Storage, IsStorage}

pub record ContextRow (D : Type 0) : Type 0 where
  pub conversation_id : Text
  pub project_id : Option Text
  pub context_data : D
  pub updated_at : ℕ

pub record MessageRow : Type 0 where
  pub conversation_id : Text
  pub role : Text
  pub content : Text
  pub timestamp : ℕ

pub record Tables (D : Type 0) : Type 0 where
  pub contexts : List (ContextRow D)
  pub messages : List MessageRow

-- `SELECT data FROM contexts WHERE conversation_id = ?`, and the first row.
select_data : {D : Type 0} → Text → List (ContextRow D) → Option D
select_data i [] = none
select_data i (r ∷ rows) =
    if text_eq r.conversation_id i then some r.context_data else select_data i rows

-- `DELETE FROM contexts WHERE conversation_id = ?`
delete_rows : {D : Type 0} → Text → List (ContextRow D) → List (ContextRow D)
delete_rows i [] = []
delete_rows i (r ∷ rows) =
    let rest = delete_rows i rows in if text_eq r.conversation_id i then rest else r ∷ rest

-- `load_context`
unfoldable pub load_context : {D : Type 0} → Text → Tables D → Option D
unfolding select_data
load_context i s = select_data i s.contexts

-- `save_context`: `INSERT OR REPLACE` deletes the row with the same key first.
unfoldable pub save_context : {D : Type 0} → Text → Option Text → D → ℕ → Tables D → Tables D
unfolding delete_rows
save_context i project_id context_data updated_at s = record s {
  contexts =
      delete_rows i s.contexts
      ++ record {
        conversation_id = i;
        project_id = project_id;
        context_data = context_data;
        updated_at = updated_at;
      }
        ∷ [];
}

-- `delete_context`. Foreign keys are off, so the messages stay.
unfoldable pub delete_context : {D : Type 0} → Text → Tables D → Tables D
unfolding delete_rows
delete_context i s = record s { contexts = delete_rows i s.contexts }

-- `add_message`
unfoldable pub add_message : {D : Type 0} → Text → Text → Text → ℕ → Tables D → Tables D
add_message i role content timestamp s = record s {
  messages =
      s.messages
      ++ record { conversation_id = i; role = role; content = content; timestamp = timestamp } ∷ [];
}

abbrev pub sqlite : {D : Type 0} → Storage (Tables D) D
sqlite = record {
  load_context = load_context;
  save_context = save_context;
  add_message = add_message;
}

select-delete :
    {D : Type 0} (i j : Text) (rows : List (ContextRow D)) (r : ContextRow D)
    → r.conversation_id ≡ i
    → select_data j (delete_rows i rows ++ r ∷ [])
      ≡ (if text_eq i j then some r.context_data else select_data j rows)
unfolding select_data delete_rows
select-delete i j [] r key = rw key refl
select-delete i j (q ∷ rows) r key = elim (Bool-cases (text_eq q.conversation_id i)) [
  | inl replaced ↦
      rw (replaced, select-delete i j rows r key)
        (ground (arith, text_eq→eq q.conversation_id i replaced))
  | inr kept ↦ elim (Bool-cases (text_eq q.conversation_id j)) [
    | inl found ↦ ground (arith, kept, found, text_eq→eq q.conversation_id j found, text_eq_sym i j)
    | inr other ↦ ground (arith, kept, other, select-delete i j rows r key)
  ]
]

-- The tables keep the laws that the manager relies on: a context that was saved is the one loaded
-- under its key, the other contexts stay, and adding a message changes no context.
pub sqlite-IsStorage : {D : Type 0} → IsStorage (sqlite {D = D})
unfolding load_context save_context add_message
sqlite-IsStorage = record {
  load-save = λ i j project_id context_data updated_at s.
      select-delete i j s.contexts
        (record {
          conversation_id = i;
          project_id = project_id;
          context_data = context_data;
          updated_at = updated_at;
        })
        refl;
  load-add_message = λ i j role content timestamp s. refl;
}
