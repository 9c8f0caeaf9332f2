-- ===== src/Store/Serves.antt =====
-- Method calls, their answers and the order of their table
-- (session-helper/xdg-app-permission-store.c).
use xdg_app.Db.Entry.{AppPermissions, Entry, Variants, entry_modify_data, entry_new, make_entry}
use xdg_app.Db.Entry.Apps.{SortedEntry}
use xdg_app.Db.Entry.Permissions.{set_app_permissions-entry_list_permissions}
use xdg_app.Db.Entry.Search.{IsSorted}
use xdg_app.Db.Index.Agrees.{set_entry-Agrees}
use xdg_app.Db.Index.Kept.{set_entry-Complete}
use xdg_app.Db.Queries.{db_lookup}
use xdg_app.Db.Save.Reopen.{Stores}
use xdg_app.Db.Update.{set_entry}
use xdg_app.Prelude.{
  Bytes, Option, [], ap, arith, if_both, none, option_both, refl, some, subst, sym, true, ℕ, ◌+◌,
  ◌∷◌, ◌≡◌, ◌≤◌,
}
use xdg_app.Store.{Answer, Answers, Session, StoreTable, with_answers}
use xdg_app.Store.Handlers.{
  Handled, Request, add_all, answer, delete_request, entry_or_new, entry_with_value, handle_delete,
  handle_list, handle_lookup, handle_set, handle_set_permission, handle_set_value, handle_table,
  list_request, lookup_request, may_write, set_permission_request, set_request, set_value_request,
  write_entry, write_new,
}
use xdg_app.Store.Writes.{TableOk, answered, ensure_writeout-Queued, times, waiting}

pub entry_new-IsSorted :
    {V : Type 0} ⦃g : Variants V⦄ (value : Option V) → IsSorted (entry_new value).app_permissions
unfolding entry_new make_entry
entry_new-IsSorted value = tt

module _ {V : Type 0} ⦃g : Variants V⦄ (session : Session V) (stores : Stores session.storage) where
  -- A call is answered at once or waits, and is then answered once with the others.
  pub record Served (invocation : ℕ) (table table' : StoreTable V) (answers : Answers V)
      : Type 0 where
    pub once :
        (n : ℕ)
        → times n (answered answers) + times n (waiting table')
          ≡ times n (invocation ∷ waiting table)
    pub only_it : (n : ℕ) → times n (answered answers) ≤ times n (invocation ∷ [])
    pub served_ok : TableOk table'
    pub current_kept :
        table.writing ≡ true
        → (table'.current_writes ≡ table.current_writes) × (table'.writing ≡ true)

  abbrev Serves : ℕ → StoreTable V → Handled V → Type 0
  Serves invocation table handled =
      (table' : StoreTable V) × (answers : Answers V) × (handled ≡ some (table', answers))
      × Served invocation table table' answers

  answer-Serves :
      (table : StoreTable V) (invocation : ℕ) (reply : Answer V)
      → TableOk table
      → Serves invocation table (answer table invocation reply)
  unfolding times answered
  answer-Serves table invocation reply t = (
    table,
    (invocation, reply) ∷ [],
    refl,
    record {
      once = λ n. ground arith;
      only_it = λ n. ground arith;
      served_ok = t;
      current_kept = λ h. (refl, h);
    },
  )

  changed_TableOk :
      (table : StoreTable V) (id : Bytes) (entry : Option (Entry V))
      → TableOk table
      → SortedEntry entry
      → TableOk (record table { db = set_entry table.db id entry })
  changed_TableOk table id entry t sorted = record {
    no_current = t.no_current;
    no_outstanding = t.no_outstanding;
    consistent = record {
      complete = set_entry-Complete table.db id entry t.consistent.complete;
      agrees = set_entry-Agrees table.db id entry t.consistent.agrees sorted;
    };
  }

  write_entry-Serves :
      (table : StoreTable V) (invocation : ℕ) (id : Bytes) (entry : Option (Entry V))
      → TableOk table
      → SortedEntry entry
      → Serves invocation table (write_entry session table invocation id entry)
  unfolding write_entry answered times waiting
  write_entry-Serves table invocation id entry t sorted =
      let changed = record table { db = set_entry table.db id entry } in
      let (table', e, q) =
        ensure_writeout-Queued session stores changed invocation
          (changed_TableOk table id entry t sorted) in
      (
        table',
        [],
        ap (λ k. with_answers k []) e,
        record {
          once = λ n. omega (arith, q.kept n);
          only_it = λ n. omega arith;
          served_ok = q.queued_ok;
          current_kept = q.same_current;
        },
      )

  add_all-IsSorted :
      (entry : Entry V) (iter : AppPermissions)
      → IsSorted entry.app_permissions
      → (new : Entry V) × (add_all entry iter ≡ some new) × IsSorted new.app_permissions
  unfolding add_all
  add_all-IsSorted entry [] sorted = (entry, refl, sorted)
  add_all-IsSorted entry ((app, permissions) ∷ iter) sorted =
      let made = set_app_permissions-entry_list_permissions entry app permissions sorted in
      let (new, f, new_sorted) = add_all-IsSorted made.0 iter made.2 in
      (
        new,
        subst (λ k. elim k [ none ↦ none | some next ↦ add_all next iter ] ≡ some new) (sym made.1)
            f,
        new_sorted,
      )

  entry_or_new-IsSorted :
      (entry : Option (Entry V)) → SortedEntry entry → IsSorted (entry_or_new entry).app_permissions
  unfolding entry_or_new
  entry_or_new-IsSorted none sorted = entry_new-IsSorted none
  entry_or_new-IsSorted (some entry) sorted = sorted

  entry_with_value-IsSorted :
      (entry : Option (Entry V)) (value : V)
      → SortedEntry entry
      → IsSorted (entry_with_value entry value).app_permissions
  unfolding entry_with_value entry_modify_data make_entry
  entry_with_value-IsSorted none value sorted = entry_new-IsSorted (some value)
  entry_with_value-IsSorted (some entry) value sorted = sorted

  write_new-Serves :
      (table : StoreTable V) (invocation : ℕ) (id : Bytes) (maybe : Option (Entry V))
      → TableOk table
      → (new : Entry V) × (maybe ≡ some new) × IsSorted new.app_permissions
      → Serves invocation table (write_new session table invocation id maybe)
  unfolding write_new
  write_new-Serves table invocation id maybe t (new, e, sorted) =
      subst (λ k. Serves invocation table (write_new session table invocation id k)) (sym e)
        (write_entry-Serves table invocation id (some new) t sorted)

  -- A method call on a table in order fails no assertion and keeps the table in order. Its
  -- invocation is answered at once, or waits for a save, and no other is answered, lost or doubled.
  -- A save that is under way goes on for the writes that it began with.
  pub handle_table-Served :
      (table : StoreTable V) (invocation : ℕ) (request : Request V)
      → TableOk table
      → (table' : StoreTable V) × (answers : Answers V) × (handle_table session table invocation
            request
          ≡ some (table', answers))
        × Served invocation table table' answers
  unfolding handle_table handle_list handle_lookup handle_delete handle_set handle_set_permission
      handle_set_value
  handle_table-Served table invocation list_request t = answer-Serves table invocation _ t
  handle_table-Served table invocation (lookup_request id) t =
      option_both (Serves invocation table) (db_lookup table.db id)
        (answer-Serves table invocation _ t) (λ entry. answer-Serves table invocation _ t)
  handle_table-Served table invocation (delete_request id) t =
      option_both (Serves invocation table) (db_lookup table.db id)
        (answer-Serves table invocation _ t)
        (λ entry. write_entry-Serves table invocation id none t tt)
  handle_table-Served table invocation (set_request create id app_permissions value) t =
      if_both (Serves invocation table) (may_write (db_lookup table.db id) create)
        (write_new-Serves table invocation id _ t (
          add_all-IsSorted (entry_new (some value)) app_permissions
            (entry_new-IsSorted (some value))))
        (answer-Serves table invocation _ t)
  handle_table-Served table invocation (set_permission_request create id app permissions) t =
      let sorted = entry_or_new-IsSorted (db_lookup table.db id) (t.consistent.agrees.sorted id) in
      let made =
        set_app_permissions-entry_list_permissions (entry_or_new (db_lookup table.db id)) app
          permissions sorted in
      if_both (Serves invocation table) (may_write (db_lookup table.db id) create)
        (write_new-Serves table invocation id _ t (made.0, made.1, made.2))
        (answer-Serves table invocation _ t)
  handle_table-Served table invocation (set_value_request create id value) t =
      if_both (Serves invocation table) (may_write (db_lookup table.db id) create)
        (write_entry-Serves table invocation id _ t (
          entry_with_value-IsSorted (db_lookup table.db id) (g.boxed value)
            (t.consistent.agrees.sorted id)))
        (answer-Serves table invocation _ t)
