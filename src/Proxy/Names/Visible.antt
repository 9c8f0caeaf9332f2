-- ===== src/Proxy/Names/Visible.antt =====
-- The names that ListNames shows to the client (filter_names_list of
-- dbus-proxy/xdg-app-proxy.c).
use xdg_app.Prelude.{
  Bool-cases, Bytes, List, [], arith, inl, inr, leb, some, subst, sym, ◌↔◌, ◌∷◌, ◌≡◌, ◌≤◌, ◌⊎◌,
}
use xdg_app.Proxy.Names.{client_get_policy, visible_names}
use xdg_app.Proxy.Policy.{rank, see}
use xdg_app.Proxy.State.{Client}

-- A name is one of a list.
abbrev pub IsIn : Bytes → List Bytes → Type 0
IsIn name [] = ⊥
IsIn name (other ∷ names) = (name ≡ other) ⊎ IsIn name names

-- The client may see the name.
abbrev pub IsSeen : Client → Bytes → Type 0
IsSeen c name = rank see ≤ rank (client_get_policy c (some name))

-- A name is listed to the client exactly if the bus lists it and its policy is SEE or more.
pub visible_names_iff :
    (c : Client) (names : List Bytes) (name : Bytes)
    → IsIn name (visible_names c names) ↔ (IsIn name names × IsSeen c name)
unfolding visible_names
visible_names_iff c [] name = (λ x. elim x [ ], λ x. x.0)
visible_names_iff c (n ∷ names) name =
    let (down, up) = visible_names_iff c names name in
    elim (Bool-cases (leb (rank see) (rank (client_get_policy c (some n))))) [
      | inl shown ↦
          (let sees : IsSeen c n = ground (arith, shown) in
            rw shown (
              λ x. elim x [
                | inl e ↦ (inl e, subst (IsSeen c) (sym e) sees)
                | inr m ↦ (inr (down m).0, (down m).1)
              ],
              λ x. elim x.0 [ inl e ↦ inl e | inr m ↦ inr (up (m, x.1)) ],
            ))
      | inr hidden ↦ rw hidden (
        λ m. (inr (down m).0, (down m).1),
        λ x. elim x.0 [
          | inl e ↦ (let sees : IsSeen c n = subst (IsSeen c) e x.1 in ground (arith, hidden, sees))
          | inr m ↦ up (m, x.1)
        ],
      )
    ]
