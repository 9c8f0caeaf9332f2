-- ===== src/Store/Liveness.antt =====
-- Writes and the saves that answer them (session-helper/xdg-app-permission-store.c).
use xdg_app.Db.Entry.{Variants}
use xdg_app.Db.Save.Reopen.{Stores}
use xdg_app.Prelude.{
  Bool, Bool-cases, ap, arith, inl, inr, refl, some, some_injective, subst, sym, true, ℕ, ◌+◌, ◌∙◌,
  ◌≡◌, ◌≤◌,
}
use xdg_app.Store.{Answers, Session, StoreTable, writeout_done}
use xdg_app.Store.Handlers.{Request, handle_table}
use xdg_app.Store.Serves.{handle_table-Served}
use xdg_app.Store.Writes.{
  Finished, TableOk, answered, times, times-append, waiting, writeout_done-Finished,
}

module _ {V : Type 0} ⦃g : Variants V⦄ (session : Session V) (stores : Stores session.storage) where
  -- Method calls on one table, with what they answer at once.
  pub data Calls : StoreTable V → StoreTable V → Type 0 where
    no_calls : (table : StoreTable V) → Calls table table
    one_more :
        (table table' table'' : StoreTable V) (invocation : ℕ) (request : Request V)
        (answers : Answers V)
        → Calls table table'
        → handle_table session table' invocation request ≡ some (table'', answers)
        → Calls table table''

  -- What calls leave alone.
  record Kept (table table' : StoreTable V) : Type 0 where
    none_lost : (n : ℕ) → times n (waiting table) ≤ times n (waiting table')
    still_ok : TableOk table'
    still_current :
        table.writing ≡ true
        → (table'.current_writes ≡ table.current_writes) × (table'.writing ≡ true)

  Calls-Kept :
      (table table' : StoreTable V) → TableOk table → Calls table table' → Kept table table'
  unfolding times
  Calls-Kept _ _ t (no_calls table) = record {
    none_lost = λ n. omega arith;
    still_ok = t;
    still_current = λ h. (refl, h);
  }
  Calls-Kept _ _ t (one_more table table' table'' invocation request answers calls e) =
      let kept = Calls-Kept table table' t calls in
      let (next, answers', f, served) =
        handle_table-Served session stores table' invocation request kept.still_ok in
      subst (Kept table) (ap (λ k. k.0) (some_injective (sym f ∙ e))) (record {
        none_lost = λ n. ground (arith, kept.none_lost n, served.once n, served.only_it n);
        still_ok = served.served_ok;
        still_current = λ h.
            let (same, busy) = kept.still_current h in
            let (same', busy') = served.current_kept busy in (same' ∙ same, busy');
      })

  -- What ends a save, whatever was known of it.
  done-Finished :
      (table table' : StoreTable V) (success : Bool) (answers : Answers V)
      → TableOk table
      → writeout_done session table success ≡ some (table', answers)
      → Finished session stores table table' answers
  done-Finished table table' success answers t e =
      let (next, answers', f, finished) = writeout_done-Finished session stores table success t in
      subst (λ k. Finished session stores table k.0 k.1) (some_injective (sym f ∙ e)) finished

  waiting_sum :
      (table : StoreTable V) (n : ℕ)
      → times n (waiting table) ≡ times n table.current_writes + times n table.outstanding_writes
  unfolding waiting
  waiting_sum table n = times-append n table.current_writes table.outstanding_writes

  -- Between two calls of writeout_done on a table in order any method calls may come. What waits
  -- before the first call is answered by the two, each write as often as it waits.
  pub writeout_done-twice :
      (table middle saved later saved' : StoreTable V) (success success' : Bool)
      (answers answers' : Answers V)
      → TableOk table
      → Calls table middle
      → writeout_done session middle success ≡ some (saved, answers)
      → Calls saved later
      → writeout_done session later success' ≡ some (saved', answers')
      → (n : ℕ) → times n (waiting table) ≤ times n (answered answers) + times n (answered answers')
  unfolding times
  writeout_done-twice table middle saved later saved' success success' answers answers' t calls e
        calls' e' n =
      let kept = Calls-Kept table middle t calls in
      let done = done-Finished middle saved success answers kept.still_ok e in
      let kept' = Calls-Kept saved later done.finished_ok calls' in
      let done' = done-Finished later saved' success' answers' kept'.still_ok e' in
      elim (Bool-cases table.writing) [
        | inr idle ↦ ground (arith, waiting_sum table n, t.no_current idle, t.no_outstanding idle)
        | inl busy ↦
            let (same, busy1) = kept.still_current busy in
            elim (Bool-cases saved.writing) [
              | inl again ↦
                  let (same', busy2) = kept'.still_current again in
                  ground (
                    arith,
                    waiting_sum table n,
                    waiting_sum middle n,
                    kept.none_lost n,
                    same,
                    same',
                    done.answers_current,
                    done.takes_outstanding,
                    done'.answers_current,
                  )
              | inr over ↦ ground (
                arith,
                waiting_sum table n,
                waiting_sum middle n,
                kept.none_lost n,
                same,
                done.answers_current,
                done.takes_outstanding,
                done.finished_ok.no_current over,
              )
            ]
      ]
