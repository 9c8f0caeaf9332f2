-- ===== src/Portal/Add/Returns.antt =====
-- When adding a document returns (document-portal/xdp-main.c).
use xdg_app.Db.Entry.{Entry, Variants, entry_new, get_data, make_entry}
use xdg_app.Db.Index.Agrees.{Agrees, db_lookup-set_entry, set_entry-Agrees}
use xdg_app.Db.Queries.{db_lookup, ids_with, list_ids, list_ids_by_value}
use xdg_app.Db.State.{Db}
use xdg_app.Portal.Add.{
  Created, Kernel, Stat, add_answer, add_checked, add_created, add_fd, adder_flags, check_fd,
  check_parent, create_or_reuse, create_with, do_create_doc, fresh_id, get_fd, index, portal_add,
  reused, set_adder,
}
use xdg_app.Portal.Documents.{DocumentValues, Effect, Outcome, invalid_argument, refuse}
use xdg_app.Portal.Flags.{name_from_id}
use xdg_app.Portal.Methods.Setting.{do_set_permissions-Sets}
use xdg_app.Prelude.{
  All, Bool, Bytes, List, Option, [], ap, arith, false, get_elem?, if_both, if_cases, is_some, none,
  option_both, option_cases, refl, some, str_eq, str_eq_refl, subst, suc, sym, true, zero, ℕ, ◌==◌,
  ◌∙◌, ◌∷◌, ◌≡◌,
}

fresh_id-returns :
    {V : Type 0} (db : Db V) (randoms : List ℕ) (i random : ℕ)
    → get_elem? randoms i ≡ some random
    → db_lookup db (name_from_id random) ≡ none
    → is_some (fresh_id db randoms) ≡ true
unfolding fresh_id
fresh_id-returns db [] i random e free = cc
fresh_id-returns db (r ∷ randoms) zero random e free = ground (arith, e, free)
fresh_id-returns db (r ∷ randoms) (suc i) random e free =
    ground (arith, fresh_id-returns db randoms i random e free)

module _ {V : Type 0} ⦃docs : DocumentValues V⦄ ⦃g : Variants V⦄ (db : Db V)
    (agrees : Agrees db) where
  abbrev pub Returns : Option (Outcome V) → Type 0
  Returns out = is_some out ≡ true

  -- A document that is there, in a database that agrees.
  abbrev Ready : Option (Created V) → Type 0
  Ready none = ⊥
  Ready (some c) = Agrees c.created_db × (is_some (db_lookup c.created_db c.created_id) ≡ true)

  create_with-Ready :
      (value : V) (persistent : Bool) (id : Option Bytes)
      → is_some id ≡ true
      → Ready (create_with db value persistent id)
  unfolding create_with entry_new make_entry
  create_with-Ready value persistent none h = cc
  create_with-Ready value persistent (some id) h = (
    set_entry-Agrees db id (some (entry_new (some value))) agrees tt,
    ap is_some (db_lookup-set_entry db id (some (entry_new (some value))) id)
        ∙ rw (str_eq_refl id) refl,
  )

  -- The ids that are found by a value have entries.
  ids_with-found :
      (value : V) (ids : List Bytes)
      → All (λ id. is_some (db_lookup db id) ≡ true) (ids_with db value ids)
  unfolding ids_with
  ids_with-found value [] = tt
  ids_with-found value (id ∷ ids) =
      option_cases (All (λ id. is_some (db_lookup db id) ≡ true)) (db_lookup db id)
        (λ e. ids_with-found value ids)
        (λ entry e.
          if_both (All (λ id. is_some (db_lookup db id) ≡ true))
            (g.variant_equal value (get_data entry)) (ap is_some e, ids_with-found value ids)
            (ids_with-found value ids))

  create_or_reuse-Ready :
      (value : V) (persistent : Bool) (randoms : List ℕ) (ids : List Bytes)
      → All (λ id. is_some (db_lookup db id) ≡ true) ids
      → is_some (fresh_id db randoms) ≡ true
      → Ready (create_or_reuse db value persistent randoms ids)
  unfolding create_or_reuse
  create_or_reuse-Ready value persistent randoms [] all h =
      create_with-Ready value persistent (fresh_id db randoms) h
  create_or_reuse-Ready value persistent randoms (id ∷ ids) all h = (agrees, all.0)

  do_create_doc-Ready :
      (parent : Stat) (path : Bytes) (reuse_existing persistent : Bool) (randoms : List ℕ)
      → is_some (fresh_id db randoms) ≡ true
      → Ready (do_create_doc db parent path reuse_existing persistent randoms)
  unfolding do_create_doc reused list_ids_by_value
  do_create_doc-Ready parent path reuse_existing persistent randoms h =
      create_or_reuse-Ready _ persistent randoms _
        (if_both (All (λ id. is_some (db_lookup db id) ≡ true)) reuse_existing
          (ids_with-found _ (list_ids db)) tt)
        h

  set_adder-returns :
      (caller id : Bytes) (reuse_existing : Bool) (before : List (Effect V)) (db' : Db V)
      (entry : Option (Entry V))
      → Agrees db'
      → str_eq caller [] ≡ false
      → db_lookup db' id ≡ entry
      → is_some entry ≡ true
      → is_some (set_adder db' id caller reuse_existing before entry) ≡ true
  unfolding set_adder
  set_adder-returns caller id reuse_existing before db' none ag named e h = cc
  set_adder-returns caller id reuse_existing before db' (some entry) ag named e h =
      let s = do_set_permissions-Sets db' ag entry id caller (adder_flags reuse_existing) e named in
      subst
        (λ k. is_some (elim k [ none ↦ none | some out ↦ some (add_answer id before out) ]) ≡ true)
        (sym s.returns) refl

  add_created-returns :
      (caller : Bytes) (reuse_existing : Bool) (c : Option (Created V))
      → Ready c
      → is_some (add_created caller reuse_existing c) ≡ true
  unfolding add_created
  add_created-returns caller reuse_existing none r = elim r [ ]
  add_created-returns caller reuse_existing (some c) r =
      if_cases Returns (str_eq caller []) (λ host. refl)
        (λ named.
          set_adder-returns caller c.created_id reuse_existing c.created_effects c.created_db _ r.0
            named refl r.1)

  add_fd-Returns :
      (kernel : Kernel) (caller : Bytes) (reuse_existing persistent : Bool) (randoms : List ℕ)
      (fd : ℕ)
      → is_some (fresh_id db randoms) ≡ true
      → Returns (add_fd kernel db caller reuse_existing persistent randoms fd)
  unfolding add_fd add_checked
  add_fd-Returns kernel caller reuse_existing persistent randoms fd h =
      option_both Returns (check_fd kernel fd) refl (λ found.
        option_both Returns (check_parent kernel found.0 found.1) refl (λ parent.
          if_both Returns (found.0.device == kernel.fuse_dev) refl (
            add_created-returns caller reuse_existing _
              (do_create_doc-Ready parent found.1 reuse_existing persistent randoms h))))

  any_fd-Returns :
      (kernel : Kernel) (caller : Bytes) (reuse_existing persistent : Bool) (randoms : List ℕ)
      (fd : Option ℕ)
      → is_some (fresh_id db randoms) ≡ true
      → Returns (elim (some fd) [
        | none ↦ none
        | some none ↦ some (refuse db invalid_argument)
        | some (some fd) ↦ add_fd kernel db caller reuse_existing persistent randoms fd
      ])
  any_fd-Returns kernel caller reuse_existing persistent randoms none h = refl
  any_fd-Returns kernel caller reuse_existing persistent randoms (some fd) h =
      add_fd-Returns kernel caller reuse_existing persistent randoms fd h

  -- Where the two maps of the database agree, a call of Add with an index that is not negative
  -- returns, if some random number that comes up gives an id without a document.
  pub portal_add-Returns :
      (kernel : Kernel) (caller : Bytes) (fds : Option (List ℕ)) (fd_id : ℕ)
      (reuse_existing persistent : Bool) (randoms : List ℕ) (i random : ℕ)
      → get_elem? randoms i ≡ some random
      → db_lookup db (name_from_id random) ≡ none
      → Returns (portal_add kernel db caller fds (index fd_id) reuse_existing persistent randoms)
  unfolding portal_add get_fd
  portal_add-Returns kernel caller none fd_id reuse_existing persistent randoms i random e free =
      refl
  portal_add-Returns kernel caller (some fds) fd_id reuse_existing persistent randoms i random e
        free =
      any_fd-Returns kernel caller reuse_existing persistent randoms (get_elem? fds fd_id)
        (fresh_id-returns db randoms i random e free)
