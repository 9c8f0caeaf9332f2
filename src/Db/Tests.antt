-- ===== src/Db/Tests.antt =====
-- A gvdb that works, and databases of numbers, for the parts of lib/xdg-app-db.c.
pub mod Examples
pub mod Codec
use xdg_app.Db.Entry.{Entry, Variants}
use xdg_app.Prelude.{Bytes, [], ℕ, ◌+◌, ◌==◌, ◌∷◌}

instance abbrev pub numbers : Variants ℕ
numbers = record { byte_zero = 0; variant_equal = λ a b. a == b; boxed = λ a. a + 100 }

-- `app`, `bin`, `read`, `x`, `y`
abbrev pub app_name : Bytes
app_name = 97 ∷ 112 ∷ 112 ∷ []

abbrev pub bin_name : Bytes
bin_name = 98 ∷ 105 ∷ 110 ∷ []

abbrev pub read_name : Bytes
read_name = 114 ∷ 101 ∷ 97 ∷ 100 ∷ []

abbrev pub id_x : Bytes
id_x = 120 ∷ []

abbrev pub id_y : Bytes
id_y = 121 ∷ []

abbrev pub test_entry : Entry ℕ
test_entry = record {
  value = 5;
  app_permissions = (app_name, read_name ∷ []) ∷ (bin_name, []) ∷ [];
}

abbrev pub test_path : Bytes
test_path = 47 ∷ []
