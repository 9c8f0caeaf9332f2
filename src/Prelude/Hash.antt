-- ===== src/Prelude/Hash.antt =====
-- GHashTable with string or integer keys, as an association list. The order of the list stands
-- for the order in which GLib iterates, which is unspecified.
use mathlib.Core.Path.{◌≡◌, refl}
use mathlib.Core.Logic.{◌↔◌}
use mathlib.Core.Bool.{Bool, true}
use mathlib.Core.List.{List, [], ◌∷◌}
use mathlib.Core.Option.{Option, none, some}
use Prim.Native.Nat.{ℕ}
use native.Mathlib.Omega.{arith}
use xdg_app.Prelude.Tests.{◌==◌, ==_iff, if◌then◌else◌}
use xdg_app.Prelude.Text.{Bytes, str_eq, str_eq_iff}

-- g_str_equal and g_direct_equal
pub record Eq {ℓ} (A : Type ℓ) : Type ℓ where
  pub beq : A → A → Bool
  pub beq_iff : (a b : A) → (beq a b ≡ true) ↔ (a ≡ b)

instance abbrev pub direct_eq : Eq ℕ
direct_eq = record { beq = λ a b. a == b; beq_iff = ==_iff }

instance abbrev pub bytes_eq : Eq Bytes
bytes_eq = record { beq = str_eq; beq_iff = str_eq_iff }

abbrev pub Table {ℓ κ} : Type ℓ → Type κ → Type (ℓ ⊔ κ)
Table K V = List (K × V)

module _ {ℓ κ} {K : Type ℓ} ⦃e : Eq K⦄ {V : Type κ} where
  -- g_hash_table_lookup
  unfoldable pub lookup : K → Table K V → Option V
  lookup k [] = none
  lookup k ((j, v) ∷ t) = if e.beq j k then some v else lookup k t

  -- g_hash_table_replace
  unfoldable pub replace : K → V → Table K V → Table K V
  replace k v [] = (k, v) ∷ []
  replace k v ((j, w) ∷ t) = if e.beq j k then (k, v) ∷ t else (j, w) ∷ replace k v t

  -- g_hash_table_remove
  unfoldable pub remove : K → Table K V → Table K V
  remove k [] = []
  remove k ((j, w) ∷ t) = let rest = remove k t in if e.beq j k then rest else (j, w) ∷ rest

  pub lookup-replace :
      (k j : K) (v : V) (t : Table K V)
      → lookup j (replace k v t) ≡ (if e.beq k j then some v else lookup j t)
  unfolding lookup replace
  lookup-replace k j v [] = refl
  lookup-replace k j v ((i, w) ∷ t) =
      ground (arith, e.beq_iff k j, e.beq_iff i k, e.beq_iff i j, lookup-replace k j v t)

  pub lookup-remove :
      (k j : K) (t : Table K V) → lookup j (remove k t) ≡ (if e.beq k j then none else lookup j t)
  unfolding lookup remove
  lookup-remove k j [] = ground arith
  lookup-remove k j ((i, w) ∷ t) =
      ground (arith, e.beq_iff k j, e.beq_iff i k, e.beq_iff i j, lookup-remove k j t)

pub beq_refl {ℓ} : {K : Type ℓ} ⦃e : Eq K⦄ (k : K) → e.beq k k ≡ true
beq_refl ⦃e⦄ k = (e.beq_iff k k).1 refl
