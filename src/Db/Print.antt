-- ===== src/Db/Print.antt =====
-- The text of a database (lib/xdg-app-db.c).
use xdg_app.Db.Entry.{Entry}
use xdg_app.Db.Queries.{db_lookup, list_apps, list_ids, list_ids_by_app}
use xdg_app.Db.State.{Db}
use xdg_app.Db.Strings.{sort_strv}
use xdg_app.Prelude.{Bytes, List, Option, [], codes, none, some, ◌++◌, ◌∷◌}

module _ {V : Type 0} (print_entry : Entry V → Bytes) where
  -- xdg_app_db_entry_print_string, where there is an entry
  abbrev print_found : Option (Entry V) → Bytes
  print_found none = []
  print_found (some entry) = print_entry entry

  unfoldable pub print_ids : Db V → List Bytes → Bytes
  unfolding db_lookup
  print_ids self [] = []
  print_ids self (id ∷ ids) =
      codes " "
      ++ id
      ++ codes ": "
      ++ print_found (db_lookup self id)
      ++ codes "\n"
      ++ print_ids self ids

  -- The ids behind the first, with a comma in front of each.
  unfoldable pub print_more : List Bytes → Bytes
  print_more [] = []
  print_more (id ∷ ids) = codes ", " ++ id ++ print_more ids

  unfoldable pub print_app_ids : List Bytes → Bytes
  unfolding print_more
  print_app_ids [] = []
  print_app_ids (id ∷ ids) = id ++ print_more ids

  unfoldable pub print_apps : Db V → List Bytes → Bytes
  unfolding print_app_ids list_ids_by_app
  print_apps self [] = []
  print_apps self (app ∷ apps) =
      codes " "
      ++ app
      ++ codes ": "
      ++ print_app_ids (sort_strv (list_ids_by_app self app))
      ++ codes "\n"
      ++ print_apps self apps

  -- xdg_app_db_print_string
  unfoldable pub print_string : Db V → Bytes → Bytes
  unfolding print_ids print_apps list_ids list_apps
  print_string self string =
      string
      ++ codes "main {\n"
      ++ print_ids self (sort_strv (list_ids self))
      ++ codes "}\napps {\n"
      ++ print_apps self (sort_strv (list_apps self))
      ++ codes "}\n"

  -- xdg_app_db_print
  unfoldable pub print : Db V → Bytes
  unfolding print_string
  print self = print_string self []
