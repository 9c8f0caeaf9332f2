-- ===== src/Db/Tests/Codec.antt =====
-- A storage that reads back every table it wrote: lists with their length in front.
use xdg_app.Db.Entry.{Entry}
use xdg_app.Db.Save.Reopen.{Stores}
use xdg_app.Db.State.{GvdbTable, Storage, file_noent, io_not_found, loaded, unreadable}
use xdg_app.Db.Strings.{str_ptr_array_contains}
use xdg_app.Db.Strings.Arrays.{contains-cons, contains-nil}
use xdg_app.Prelude.{
  Bytes, List, Table, [], ap, append-nil, append_assoc, arith, bytes_eq, direct_eq, false,
  if◌then◌else◌, is_some, length, lookup, refl, some, str_eq, suc, sym, true, zero, ℕ, ◌++◌, ◌∙◌,
  ◌∷◌, ◌≡◌,
}

pub record Coded (A : Type 0) : Type 0 where
  pub encode : A → Bytes
  pub decode : Bytes → A × Bytes
  pub decode_encode : (a : A) (rest : Bytes) → decode (encode a ++ rest) ≡ (a, rest)

decode_number : Bytes → ℕ × Bytes
decode_number [] = (0, [])
decode_number (n ∷ rest) = (n, rest)

pub coded_number : Coded ℕ
unfolding decode_number
coded_number = record {
  encode = λ n. n ∷ [];
  decode = decode_number;
  decode_encode = λ a rest. refl;
}

pub coded_pair : {A B : Type 0} → Coded A → Coded B → Coded (A × B)
coded_pair a b = record {
  encode = λ x. a.encode x.0 ++ b.encode x.1;
  decode = λ bytes.
      let first = a.decode bytes in
      let second = b.decode first.1 in ((first.0, second.0), second.1);
  decode_encode = λ x rest.
      rw (append_assoc (a.encode x.0) (b.encode x.1) rest)
        (rw (a.decode_encode x.0 (b.encode x.1 ++ rest)) (rw (b.decode_encode x.1 rest) refl));
}

module _ {A : Type 0} (a : Coded A) where
  encode_all : List A → Bytes
  encode_all [] = []
  encode_all (x ∷ xs) = a.encode x ++ encode_all xs

  decode_all : ℕ → Bytes → List A × Bytes
  decode_all zero bytes = ([], bytes)
  decode_all (suc n) bytes =
      let first = a.decode bytes in
      let others = decode_all n first.1 in (first.0 ∷ others.0, others.1)

  decode_list : Bytes → List A × Bytes
  unfolding decode_all
  decode_list [] = ([], [])
  decode_list (n ∷ bytes) = decode_all n bytes

  decode_all-encode_all :
      (xs : List A) (rest : Bytes) → decode_all (length xs) (encode_all xs ++ rest) ≡ (xs, rest)
  unfolding decode_all encode_all
  decode_all-encode_all [] rest = refl
  decode_all-encode_all (x ∷ xs) rest =
      rw (append_assoc (a.encode x) (encode_all xs) rest)
        (rw (a.decode_encode x (encode_all xs ++ rest)) (rw (decode_all-encode_all xs rest) refl))

  pub coded_list : Coded (List A)
  unfolding decode_list
  coded_list = record {
    encode = λ xs. length xs ∷ encode_all xs;
    decode = decode_list;
    decode_encode = decode_all-encode_all;
  }

coded_text : Coded Bytes
coded_text = coded_list coded_number

coded_table : {A : Type 0} → Coded A → Coded (Table Bytes A)
coded_table a = coded_list (coded_pair coded_text a)

coded_strings : Coded (List Bytes)
coded_strings = coded_list coded_text

coded_entry : Coded (Entry ℕ)
coded_entry =
    let both = coded_pair coded_number (coded_table coded_strings) in
    record {
      encode = λ e. both.encode (e.value, e.app_permissions);
      decode = λ bytes.
          let read = both.decode bytes in
          (record { value = read.0.0; app_permissions = read.0.1 }, read.1);
      decode_encode = λ e rest. rw (both.decode_encode (e.value, e.app_permissions) rest) refl;
    }

pub coded_file : Coded (Table Bytes (Entry ℕ) × Table Bytes (List Bytes))
coded_file = coded_pair (coded_table coded_entry) (coded_table coded_strings)

abbrev pub table_keys : {A : Type 0} → Table Bytes A → List Bytes
table_keys [] = []
table_keys ((k, v) ∷ t) = k ∷ table_keys t

table_keys-NamesValues :
    {A : Type 0} (t : Table Bytes A) (key : Bytes)
    → str_ptr_array_contains (table_keys t) key ≡ is_some (lookup key t)
unfolding lookup
table_keys-NamesValues [] key = contains-nil key
table_keys-NamesValues ((k, v) ∷ t) key =
    ground (arith, contains-cons k (table_keys t) key, table_keys-NamesValues t key)

abbrev as_gvdb : {A : Type 0} → Table Bytes A → GvdbTable A
as_gvdb t = record { names = table_keys t; value = λ key. lookup key t }

-- The file at a path holds the bytes of the path, but the one at `/` is not there.
abbrev pub test_storage : Storage ℕ
test_storage = record {
  is_on_nfs = λ path. false;
  load_contents = λ path. unreadable io_not_found;
  mapped_file = λ path. if str_eq path (47 ∷ []) then unreadable file_noent else loaded path;
  table_new_from_bytes = λ bytes.
      let read = (coded_file.decode bytes).0 in
      some (record { table_main = some (as_gvdb read.0); table_apps = some (as_gvdb read.1) });
  get_content = λ main_h apps_h. coded_file.encode (main_h, apps_h);
  set_contents = λ path contents. true;
}

pub test_storage-Stores : Stores test_storage
test_storage-Stores main_h apps_h = record {
  held_main = as_gvdb main_h;
  held_apps = as_gvdb apps_h;
  parsed =
      ap
        (λ read.
          some
            (record { table_main = some (as_gvdb read.0.0); table_apps = some (as_gvdb read.0.1) }))
        (ap coded_file.decode (sym (append-nil (coded_file.encode (main_h, apps_h))))
          ∙ coded_file.decode_encode (main_h, apps_h) []);
  main_value = λ key. refl;
  apps_value = λ key. refl;
  main_names = table_keys-NamesValues main_h;
  apps_names = table_keys-NamesValues apps_h;
}
