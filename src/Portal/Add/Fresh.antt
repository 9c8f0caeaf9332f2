-- ===== src/Portal/Add/Fresh.antt =====
-- What adding a document does to permissions and ids (document-portal/xdp-main.c).
use xdg_app.Db.Entry.{
  Entry, Variants, entry_list_permissions, entry_new, get_permissions_variant, make_entry,
  search_loop,
}
use xdg_app.Db.Entry.Apps.{SortedEntry}
use xdg_app.Db.Index.Agrees.{Agrees, db_lookup-set_entry, set_entry-Agrees}
use xdg_app.Db.Queries.{db_lookup}
use xdg_app.Db.State.{Db}
use xdg_app.Portal.Add.{
  Created, Handle, Kernel, Stat, add_answer, add_checked, add_created, add_fd, add_on_fuse,
  adder_flags, check_fd, check_parent, create_or_reuse, create_with, do_create_doc, fresh_id,
  get_fd, portal_add, reused, set_adder,
}
use xdg_app.Portal.Documents.{
  DocumentValues, Outcome, PortalError, added_document, invalid_argument, refuse,
}
use xdg_app.Portal.Flags.{
  entry_get_permissions, name_from_id, no_flags, parse_loop, parse_permissions,
}
use xdg_app.Portal.Fuse.{lookup_id_for_inode}
use xdg_app.Portal.Methods.Setting.{do_set_permissions-Sets, flags_of, permissions_on}
use xdg_app.Prelude.{
  Bool, Bool-cases, Bytes, List, Option, Option-cases, [], ap, arith, false, if_both, if_cases,
  if◌then◌else◌, inl, inr, is_some, none, not, option_both, refl, some, str_eq, str_eq_iff, subst,
  sym, true, ℕ, ◌==◌, ◌||◌, ◌∙◌, ◌∷◌, ◌≡◌,
}

fresh_id-free :
    {V : Type 0} (db : Db V) (randoms : List ℕ) (id : Bytes)
    → fresh_id db randoms ≡ some id
    → db_lookup db id ≡ none
unfolding fresh_id
fresh_id-free db [] id h = cc
fresh_id-free db (r ∷ randoms) id h = elim (Option-cases (db_lookup db (name_from_id r))) [
  | inl e ↦ ground (arith, h, e)
  | inr (entry, e) ↦ fresh_id-free db randoms id (ground (arith, h, e))
]

added_injective : (a b : Bytes) → added_document a ≡ added_document b → a ≡ b
added_injective a b e = cc

module _ {V : Type 0} ⦃docs : DocumentValues V⦄ ⦃g : Variants V⦄ (db : Db V)
    (agrees : Agrees db) where
  -- The permissions of applications, the host aside, in two databases.
  abbrev SamePermissions : Db V → Type 0
  SamePermissions db' =
      (d x : Bytes) → str_eq x [] ≡ false → permissions_on db' d x ≡ permissions_on db d x

  record MakesNew (reuse_existing : Bool) (c : Created V) : Type 0 where
    created_agrees : Agrees c.created_db
    same_permissions : SamePermissions c.created_db
    is_new : reuse_existing ≡ false → db_lookup db c.created_id ≡ none

  abbrev CreatesNew : Bool → Option (Created V) → Type 0
  CreatesNew reuse_existing none = Unit
  CreatesNew reuse_existing (some c) = MakesNew reuse_existing c

  entry_new-no_flags :
      (value : Option V) (x : Bytes)
      → str_eq x [] ≡ false
      → entry_get_permissions (entry_new value) x ≡ no_flags
  unfolding entry_get_permissions entry_new make_entry entry_list_permissions
      get_permissions_variant search_loop parse_permissions parse_loop
  entry_new-no_flags value x h = rw h refl

  entry_new-SortedEntry : (value : Option V) → SortedEntry (some (entry_new value))
  unfolding entry_new make_entry
  entry_new-SortedEntry value = tt

  new_permissions :
      (value : V) (id d x : Bytes)
      → db_lookup db id ≡ none
      → str_eq x [] ≡ false
      → flags_of (if str_eq id d then some (entry_new (some value)) else db_lookup db d) x
        ≡ flags_of (db_lookup db d) x
  new_permissions value id d x free h = elim (Bool-cases (str_eq id d)) [
    | inl same ↦ rw same (
        entry_new-no_flags (some value) x h
        ∙ ap (λ k. flags_of k x)
            (sym (subst (λ k. db_lookup db k ≡ none) ((str_eq_iff id d).0 same) free)))
    | inr other ↦ rw other refl
  ]

  create_with-CreatesNew :
      (value : V) (reuse_existing persistent : Bool) (id : Option Bytes)
      → ((i : Bytes) → id ≡ some i → db_lookup db i ≡ none)
      → CreatesNew reuse_existing (create_with db value persistent id)
  unfolding create_with permissions_on
  create_with-CreatesNew value reuse_existing persistent none free = tt
  create_with-CreatesNew value reuse_existing persistent (some id) free = record {
    created_agrees =
        set_entry-Agrees db id (some (entry_new (some value))) agrees
          (entry_new-SortedEntry (some value));
    same_permissions = λ d x h.
        ap (λ k. flags_of k x) (db_lookup-set_entry db id (some (entry_new (some value))) d)
        ∙ new_permissions value id d x (free id refl) h;
    is_new = λ h. free id refl;
  }

  reused-CreatesNew :
      (value : V) (persistent : Bool) (randoms : List ℕ) (ids : List Bytes)
      → CreatesNew true (create_or_reuse db value persistent randoms ids)
  unfolding create_or_reuse
  reused-CreatesNew value persistent randoms [] =
      create_with-CreatesNew value true persistent (fresh_id db randoms) (fresh_id-free db randoms)
  reused-CreatesNew value persistent randoms (id ∷ ids) = record {
    created_agrees = agrees;
    same_permissions = λ d x h. refl;
    is_new = λ h. cc;
  }

  do_create_doc-CreatesNew :
      (parent : Stat) (path : Bytes) (reuse_existing persistent : Bool) (randoms : List ℕ)
      → CreatesNew reuse_existing (do_create_doc db parent path reuse_existing persistent randoms)
  unfolding do_create_doc reused create_or_reuse
  do_create_doc-CreatesNew parent path true persistent randoms =
      reused-CreatesNew _ persistent randoms _
  do_create_doc-CreatesNew parent path false persistent randoms =
      create_with-CreatesNew _ false persistent (fresh_id db randoms) (fresh_id-free db randoms)

  -- An outcome that gives nothing to any application but the caller, and makes a document of its own
  -- where none may be used again.
  pub record AddsOne (caller : Bytes) (reuse_existing : Bool) (out : Outcome V) : Type 0 where
    pub still_agrees : Agrees out.db
    pub others_same :
        (d x : Bytes)
        → str_eq x [] ≡ false
        → str_eq caller x ≡ false
        → permissions_on out.db d x ≡ permissions_on db d x
    pub of_its_own :
        (id : Bytes)
        → reuse_existing ≡ false
        → out.reply ≡ added_document id
        → db_lookup db id ≡ none

  abbrev pub Adds : Bytes → Bool → Option (Outcome V) → Type 0
  Adds caller reuse_existing none = Unit
  Adds caller reuse_existing (some out) = AddsOne caller reuse_existing out

  refuse-AddsOne :
      (caller : Bytes) (reuse_existing : Bool) (error : PortalError)
      → AddsOne caller reuse_existing (refuse db error)
  refuse-AddsOne caller reuse_existing error = record {
    still_agrees = agrees;
    others_same = λ d x h k. refl;
    of_its_own = λ id h k. cc;
  }

  set_adder-Adds :
      (caller : Bytes) (reuse_existing : Bool) (c : Created V) (entry : Option (Entry V))
      → MakesNew reuse_existing c
      → str_eq caller [] ≡ false
      → db_lookup c.created_db c.created_id ≡ entry
      → Adds caller reuse_existing
          (set_adder c.created_db c.created_id caller reuse_existing c.created_effects entry)
  unfolding set_adder add_answer
  set_adder-Adds caller reuse_existing c none m named e = tt
  set_adder-Adds caller reuse_existing c (some entry) m named e =
      let s =
        do_set_permissions-Sets c.created_db m.created_agrees entry c.created_id caller
          (adder_flags reuse_existing) e named in
      subst
        (λ k. Adds caller reuse_existing (elim k [
          | none ↦ none
          | some out ↦ some (add_answer c.created_id c.created_effects out)
        ]))
        (sym s.returns)
        (record {
          still_agrees = s.still_agrees;
          others_same = λ d x h k. ground (arith, s.now_on d x, m.same_permissions d x h, k);
          of_its_own = λ id h k.
              subst (λ i. db_lookup db i ≡ none) (added_injective c.created_id id k) (m.is_new h);
        })

  add_created-Adds :
      (caller : Bytes) (reuse_existing : Bool) (c : Option (Created V))
      → CreatesNew reuse_existing c
      → Adds caller reuse_existing (add_created caller reuse_existing c)
  unfolding add_created
  add_created-Adds caller reuse_existing none m = tt
  add_created-Adds caller reuse_existing (some c) m =
      if_cases (Adds caller reuse_existing) (str_eq caller [])
        (λ host. record {
          still_agrees = m.created_agrees;
          others_same = λ d x h k. m.same_permissions d x h;
          of_its_own = λ id h k.
              subst (λ i. db_lookup db i ≡ none) (added_injective c.created_id id k) (m.is_new h);
        })
        (λ named. set_adder-Adds caller reuse_existing c _ m named refl)

  add_on_fuse-AddsOne :
      (caller : Bytes) (reuse_existing : Bool) (st_buf : Stat)
      → AddsOne caller reuse_existing (add_on_fuse db st_buf reuse_existing)
  unfolding add_on_fuse
  add_on_fuse-AddsOne caller reuse_existing st_buf =
      if_both (AddsOne caller reuse_existing) (lookup_id_for_inode st_buf.inode == 0)
        (refuse-AddsOne caller reuse_existing invalid_argument)
        (if_cases (AddsOne caller reuse_existing)
          (not (is_some (db_lookup db (name_from_id (lookup_id_for_inode st_buf.inode))))
            || not reuse_existing)
          (λ h. refuse-AddsOne caller reuse_existing invalid_argument)
          (λ shared. record {
            still_agrees = agrees;
            others_same = λ d x h k. refl;
            of_its_own = λ id h k. ground (arith, h, shared);
          }))

  add_fd-Adds :
      (kernel : Kernel) (caller : Bytes) (reuse_existing persistent : Bool) (randoms : List ℕ)
      (fd : ℕ)
      → Adds caller reuse_existing (add_fd kernel db caller reuse_existing persistent randoms fd)
  unfolding add_fd add_checked
  add_fd-Adds kernel caller reuse_existing persistent randoms fd =
      option_both (Adds caller reuse_existing) (check_fd kernel fd)
        (refuse-AddsOne caller reuse_existing invalid_argument)
        (λ found.
          option_both (Adds caller reuse_existing) (check_parent kernel found.0 found.1)
            (refuse-AddsOne caller reuse_existing invalid_argument)
            (λ parent.
              if_both (Adds caller reuse_existing) (found.0.device == kernel.fuse_dev)
                (add_on_fuse-AddsOne caller reuse_existing found.0)
                (add_created-Adds caller reuse_existing _
                  (do_create_doc-CreatesNew parent found.1 reuse_existing persistent randoms))))

  get_fd-Adds :
      (kernel : Kernel) (caller : Bytes) (reuse_existing persistent : Bool) (randoms : List ℕ)
      (fd : Option (Option ℕ))
      → Adds caller reuse_existing (elim fd [
        | none ↦ none
        | some none ↦ some (refuse db invalid_argument)
        | some (some fd) ↦ add_fd kernel db caller reuse_existing persistent randoms fd
      ])
  get_fd-Adds kernel caller reuse_existing persistent randoms none = tt
  get_fd-Adds kernel caller reuse_existing persistent randoms (some none) =
      refuse-AddsOne caller reuse_existing invalid_argument
  get_fd-Adds kernel caller reuse_existing persistent randoms (some (some fd)) =
      add_fd-Adds kernel caller reuse_existing persistent randoms fd

  -- Where the two maps of the database agree, and a call of Add returns, they agree again, and no
  -- application but the caller gains or loses a permission on any document, whatever the kernel says
  -- of the descriptor. If existing documents are not to be used again, the document that the call
  -- answers with was not there before.
  pub portal_add-Adds :
      (kernel : Kernel) (caller : Bytes) (fds : Option (List ℕ)) (fd_id : Handle)
      (reuse_existing persistent : Bool) (randoms : List ℕ)
      → Adds caller reuse_existing
          (portal_add kernel db caller fds fd_id reuse_existing persistent randoms)
  unfolding portal_add
  portal_add-Adds kernel caller fds fd_id reuse_existing persistent randoms =
      get_fd-Adds kernel caller reuse_existing persistent randoms (get_fd fds fd_id)
