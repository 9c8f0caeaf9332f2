-- ===== src/Store/Writes.antt =====
-- Saves and the invocations that wait for them (session-helper/xdg-app-permission-store.c).
use xdg_app.Db.Save.{update}
use xdg_app.Db.Save.Reached.{Consistent, updated-Consistent}
use xdg_app.Db.Save.Reopen.{Stores}
use xdg_app.Db.Save.Saved.{update-Saved}
use xdg_app.Prelude.{
  Bool, Bool-cases, List, [], ap, arith, false, if◌then◌else◌, inl, inr, refl, some, suc, true, ℕ,
  ◌++◌, ◌+◌, ◌==◌, ◌∙◌, ◌∷◌, ◌≡◌,
}
use xdg_app.Store.{
  Answers, Session, StoreTable, answer_all, begin_writeout, ensure_writeout, start_writeout,
  with_answers, write_next, writeout_done,
}

-- How often an invocation stands in a list.
unfoldable pub times : ℕ → List ℕ → ℕ
times n [] = 0
times n (x ∷ l) = if x == n then suc (times n l) else times n l

pub times-append : (n : ℕ) (xs ys : List ℕ) → times n (xs ++ ys) ≡ times n xs + times n ys
unfolding times
times-append n [] ys = omega arith
times-append n (x ∷ xs) ys = ground (arith, times-append n xs ys)

unfoldable pub answered : {V : Type 0} → Answers V → List ℕ
answered [] = []
answered ((invocation, reply) ∷ answers) = invocation ∷ answered answers

answered-answer_all :
    (V : Type 0) (success : Bool) (l : List ℕ) → answered (answer_all {V = V} success l) ≡ l
unfolding answered answer_all
answered-answer_all V success [] = refl
answered-answer_all V success (x ∷ l) = ap (λ k. x ∷ k) (answered-answer_all V success l)

module _ {V : Type 0} where
  -- The invocations that wait for a save.
  unfoldable pub waiting : StoreTable V → List ℕ
  waiting table = table.current_writes ++ table.outstanding_writes

  -- What a table keeps: nothing waits without a save under way, and its database is in order.
  pub record TableOk (table : StoreTable V) : Type 0 where
    pub no_current : table.writing ≡ false → table.current_writes ≡ []
    pub no_outstanding : table.writing ≡ false → table.outstanding_writes ≡ []
    pub consistent : Consistent table.db

module _ {V : Type 0} (session : Session V) (stores : Stores session.storage) where
  -- A save that starts: it takes all that waits.
  pub record Started (table table' : StoreTable V) : Type 0 where
    pub takes : table'.current_writes ≡ table.outstanding_writes
    pub none_left : table'.outstanding_writes ≡ []
    pub is_writing : table'.writing ≡ true
    pub is_ok : TableOk table'

  pub start_writeout-Started :
      (table : StoreTable V)
      → table.current_writes ≡ []
      → Consistent table.db
      → (table' : StoreTable V) × (start_writeout session table ≡ some table')
        × Started table table'
  unfolding start_writeout begin_writeout
  start_writeout-Started table empty c =
      let saved = update-Saved session.storage stores table.db c.complete c.agrees in
      let table' = record table {
        db = saved.updated;
        current_writes = table.outstanding_writes;
        outstanding_writes = [];
        writing = true;
      } in
      (
        table',
        ap (λ k. begin_writeout session table k (update session.storage table.db)) empty
            ∙ ap (begin_writeout session table []) saved.update_done,
        record {
          takes = refl;
          none_left = refl;
          is_writing = refl;
          is_ok = record {
            no_current = λ h. cc;
            no_outstanding = λ h. cc;
            consistent =
                updated-Consistent session.storage stores table.db saved.updated c.agrees saved
                  saved.update_done;
          };
        },
      )

  -- What waits and is answered after a call is what waited before, with this invocation.
  pub record Queued (invocation : ℕ) (table table' : StoreTable V) : Type 0 where
    pub kept : (n : ℕ) → times n (waiting table') ≡ times n (invocation ∷ waiting table)
    pub queued_ok : TableOk table'
    pub same_current :
        table.writing ≡ true
        → (table'.current_writes ≡ table.current_writes) × (table'.writing ≡ true)

  ensure_writeout_busy :
      (table : StoreTable V) (invocation : ℕ)
      → table.writing ≡ true
      → ensure_writeout session table invocation
        ≡ some (record table { outstanding_writes = invocation ∷ table.outstanding_writes })
  unfolding ensure_writeout
  ensure_writeout_busy table invocation h = rw h refl

  ensure_writeout_idle :
      (table : StoreTable V) (invocation : ℕ)
      → table.writing ≡ false
      → ensure_writeout session table invocation
        ≡ start_writeout session
            (record table { outstanding_writes = invocation ∷ table.outstanding_writes })
  unfolding ensure_writeout
  ensure_writeout_idle table invocation h = rw h refl

  busy-Queued :
      (table : StoreTable V) (invocation : ℕ)
      → TableOk table
      → table.writing ≡ true
      → Queued invocation table
          (record table { outstanding_writes = invocation ∷ table.outstanding_writes })
  unfolding waiting times
  busy-Queued table invocation t h = record {
    kept = λ n. ground (
      arith,
      times-append n table.current_writes (invocation ∷ table.outstanding_writes),
      times-append n table.current_writes table.outstanding_writes,
    );
    queued_ok = record {
      no_current = λ k. ground (arith, h, k);
      no_outstanding = λ k. ground (arith, h, k);
      consistent = t.consistent;
    };
    same_current = λ k. (refl, h);
  }

  idle-Queued :
      (table table' : StoreTable V) (invocation : ℕ)
      → TableOk table
      → table.writing ≡ false
      → Started (record table { outstanding_writes = invocation ∷ table.outstanding_writes }) table'
      → Queued invocation table table'
  unfolding waiting times
  idle-Queued table table' invocation t h s = record {
    kept = λ n. ground (
      arith,
      times-append n table'.current_writes table'.outstanding_writes,
      times-append n table.current_writes table.outstanding_writes,
      s.takes,
      s.none_left,
      t.no_current h,
    );
    queued_ok = s.is_ok;
    same_current = λ k. ground (arith, h, k);
  }

  pub ensure_writeout-Queued :
      (table : StoreTable V) (invocation : ℕ)
      → TableOk table
      → (table' : StoreTable V) × (ensure_writeout session table invocation ≡ some table')
        × Queued invocation table table'
  ensure_writeout-Queued table invocation t = elim (Bool-cases table.writing) [
    | inl h ↦ (_, ensure_writeout_busy table invocation h, busy-Queued table invocation t h)
    | inr h ↦
        let (table', e, s) =
          start_writeout-Started
            (record table { outstanding_writes = invocation ∷ table.outstanding_writes })
            (t.no_current h) t.consistent in
        (
          table',
          ensure_writeout_idle table invocation h ∙ e,
          idle-Queued table table' invocation t h s,
        )
  ]

  -- A save that ends: its writes are answered, and all that waits is taken into the next.
  pub record Finished (table table' : StoreTable V) (answers : Answers V) : Type 0 where
    pub answers_current : answered answers ≡ table.current_writes
    pub takes_outstanding : table'.current_writes ≡ table.outstanding_writes
    pub nothing_outstanding : table'.outstanding_writes ≡ []
    pub finished_ok : TableOk table'

  write_next-Started :
      (table : StoreTable V) (l : List ℕ)
      → table.outstanding_writes ≡ l
      → table.current_writes ≡ []
      → table.writing ≡ false
      → Consistent table.db
      → (next : StoreTable V) × (write_next session table l ≡ some next)
        × (next.current_writes ≡ l)
        × (next.outstanding_writes ≡ [])
        × TableOk next
  unfolding write_next
  write_next-Started table [] e empty idle c = (
    table,
    refl,
    empty,
    e,
    record { no_current = λ h. empty; no_outstanding = λ h. e; consistent = c },
  )
  write_next-Started table (x ∷ l) e empty idle c =
      let (next, f, s) = start_writeout-Started table empty c in
      (next, f, s.takes ∙ e, s.none_left, s.is_ok)

  -- When a save of a table in order ends, with or without an error, no assertion fails, each of its
  -- writes is answered once, all other writes that wait are taken into the next save, and the table
  -- is in order again.
  pub writeout_done-Finished :
      (table : StoreTable V) (success : Bool)
      → TableOk table
      → (table' : StoreTable V) × (answers : Answers V) × (writeout_done session table success
          ≡ some (table', answers))
        × Finished table table' answers
  unfolding writeout_done
  writeout_done-Finished table success t =
      let idle = record table { current_writes = []; writing = false } in
      let (next, e, takes, nothing, ordered) =
        write_next-Started idle table.outstanding_writes refl refl refl t.consistent in
      (
        next,
        answer_all success table.current_writes,
        ap (λ k. with_answers k (answer_all success table.current_writes)) e,
        record {
          answers_current = answered-answer_all V success table.current_writes;
          takes_outstanding = takes;
          nothing_outstanding = nothing;
          finished_ok = ordered;
        },
      )
