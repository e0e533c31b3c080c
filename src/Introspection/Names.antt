-- ===== src/Introspection/Names.antt =====
-- The introspection as a map from names to interfaces.
use mathlib.Core.Path.{subst}
use astarte_device_sdk_zephy.Prelude.{
  ℕ, ◌≡◌, ◌⊎◌, inl, inr, refl, sym, ap, ◌∙◌, Bool, true, false, Option, none, some, List,
  if◌then◌else◌, arith, Bool-cases, Option-cases, ◌&&◌, ◌==◌,
}
use astarte_device_sdk_zephy.Result.{
  Code, Status, ok, err, ◌>>=◌, out_of_memory, interface_already_present, interface_not_found,
  interface_conflicting, interface_invalid_version,
}
use astarte_device_sdk_zephy.Interface.{Interface, validate}
use astarte_device_sdk_zephy.Introspection.Nodes.{Dlist}
use astarte_device_sdk_zephy.Introspection.{
  same_name, find_from, find_node_by_name, node_interface, append_introspection_node, add,
  add_valid, add_new, update, update_valid, update_node, check_node, get, remove, remove_node,
}
use astarte_device_sdk_zephy.Introspection.Find.{
  IsUnique, Fresh, At, lookup, lookup-find, find_from-Fresh, find_from-At, lookup-append,
  lookup-replace_at, lookup-remove_at,
}
use astarte_device_sdk_zephy.Introspection.Updates.{Compatible, check_old-Compatible}

-- A map of names with one more entry.
abbrev pub insert : Option Interface → Interface → List ℕ → Option Interface
insert before x name = if same_name name x.name then some x else before

module _ {L : Type 0} (dl : Dlist L Interface) where
  -- The call failed and left the list as it was.
  abbrev pub Refused : L → Status × L → Type 0
  Refused l (r, l') = ((c : Code) × (r ≡ err c)) × (l' ≡ l)

  -- What a search finds, or that the name is fresh.
  pub found :
      (l : L) (name : List ℕ)
      → ((find_node_by_name dl l name ≡ none) × Fresh name (dl.nodes l) × (get dl l name ≡ none))
        ⊎ ((i : ℕ) × (x : Interface) × (find_node_by_name dl l name ≡ some (i, x))
            × At (dl.nodes l) i x
            × (same_name name x.name ≡ true)
            × (get dl l name ≡ some x))
  unfolding find_node_by_name get node_interface
  found l name = elim (Option-cases (find_from (dl.nodes l) name 0)) [
    | inl e ↦ inl (e, find_from-Fresh _ name 0 e, ap node_interface e)
    | inr ((i, x), e) ↦
        let (j, ij, at, same) = find_from-At (dl.nodes l) name 0 i x e in
        inr (
          i,
          x,
          e,
          subst (λ k. At (dl.nodes l) k x) (sym (ij ∙ omega arith)) at,
          same,
          ap node_interface e,
        )
  ]

  get-lookup : (l : L) (name : List ℕ) → get dl l name ≡ lookup (dl.nodes l) name
  unfolding get find_node_by_name
  get-lookup l name = lookup-find (dl.nodes l) name 0

  get-append :
      (l : L) (x : Interface) (name : List ℕ)
      → Fresh x.name (dl.nodes l)
      → get dl (dl.append l x) name ≡ insert (get dl l name) x name
  get-append l x name f =
      rw (get-lookup (dl.append l x) name, get-lookup l name, dl.nodes-append l x)
        (lookup-append (dl.nodes l) x name f)

  -- The call put the interface under its name and left all other names.
  abbrev pub Stored : L → Interface → List ℕ → Status × L → Type 0
  Stored l x name (r, l') = (r ≡ ok tt) × (get dl l' name ≡ insert (get dl l name) x name)

  -- What `append_introspection_node` does for an interface whose name is new.
  append_node_lem :
      (granted : Bool) (x : Interface) (l : L) (name : List ℕ)
      → Fresh x.name (dl.nodes l)
      → Stored l x name (append_introspection_node dl granted x l)
        ⊎ Refused l (append_introspection_node dl granted x l)
  unfolding append_introspection_node
  append_node_lem true x l name f = inl (refl, get-append l x name f)
  append_node_lem false x l name f = inr ((out_of_memory, refl), refl)

  pub validate_cases :
      (x : Interface) → (validate (some x) ≡ ok tt) ⊎ ((c : Code) × (validate (some x) ≡ err c))
  unfolding validate
  validate_cases x = elim (Bool-cases ((x.major_version == 0) && (x.minor_version == 0))) [
    | inl t ↦ inr (interface_invalid_version, ground (arith, t))
    | inr f ↦ inl (ground (arith, f))
  ]

  -- `introspection_add`, seen through `introspection_get`: it succeeds only for a name that is not
  -- present, and then maps it to the interface and leaves all other names; a failure changes nothing.
  pub add_lem :
      (granted : Bool) (x : Interface) (l : L) (name : List ℕ)
      → (get dl l x.name ≡ none) × Stored l x name (add dl granted x l)
        ⊎ Refused l (add dl granted x l)
  unfolding add add_valid add_new
  add_lem granted x l name = elim (validate_cases x) [
    | inr (c, e) ↦ subst (λ v. Goal (add_valid dl v granted x l)) (sym e) (inr ((c, refl), refl))
    | inl e ↦
        subst (λ v. Goal (add_valid dl v granted x l)) (sym e)
          (elim (found l x.name) [
            | inr (i, y, h, at, same, g) ↦
                subst (λ o. Goal (add_new dl o granted x l)) (sym h)
                  (inr ((interface_already_present, refl), refl))
            | inl (h, f, g) ↦
                subst (λ o. Goal (add_new dl o granted x l)) (sym h)
                  (elim (append_node_lem granted x l name f) [ inl k ↦ inl (g, k) | inr k ↦ inr k ])
          ])
  ]
    where
      Goal : Status × L → Type 0
      Goal s = (get dl l x.name ≡ none) × Stored l x name s ⊎ Refused l s

  -- The interface is new to the introspection, or a compatible version of the one that has its name.
  abbrev pub Admissible : Option Interface → Interface → Type 0
  Admissible none x = Unit
  Admissible (some old) x = Compatible old x

  -- `introspection_update` of an introspection whose names differ, seen through `introspection_get`:
  -- it succeeds only for a new name or a compatible version of the interface of that name, and then
  -- maps the name to the interface and leaves all other names; a failure changes nothing.
  pub update_lem :
      (granted : Bool) (x : Interface) (l : L) (name : List ℕ)
      → IsUnique (dl.nodes l)
      → Admissible (get dl l x.name) x × Stored l x name (update dl granted x l)
        ⊎ Refused l (update dl granted x l)
  unfolding update update_valid update_node check_node
  update_lem granted x l name u = elim (validate_cases x) [
    | inr (c, e) ↦ subst (λ v. Goal (update_valid dl v granted x l)) (sym e) (inr ((c, refl), refl))
    | inl e ↦
        subst (λ v. Goal (update_valid dl v granted x l)) (sym e)
          (elim (found l x.name) [
            | inl (h, f, g) ↦
                subst (λ o. Goal (update_node dl (check_node o x) granted x l)) (sym h)
                  (elim (append_node_lem granted x l name f) [
                    | inl k ↦ inl (subst (λ o. Admissible o x) (sym g) tt, k)
                    | inr k ↦ inr k
                  ])
            | inr (i, old, h, at, same, g) ↦
                subst (λ o. Goal (update_node dl (check_node o x) granted x l)) (sym h)
                  (elim (check_old-Compatible old x) [
                    | inr r ↦
                        subst
                          (λ s. Goal (update_node dl (s >>= λ _. ok (some (i, old))) granted x l))
                          (sym r) (inr ((interface_conflicting, refl), refl))
                    | inl (r, c) ↦
                        subst
                          (λ s. Goal (update_node dl (s >>= λ _. ok (some (i, old))) granted x l))
                          (sym r)
                          (inl (
                            subst (λ o. Admissible o x) (sym g) c,
                            (
                              refl,
                              rw
                                  (
                                    get-lookup (dl.put l i x) name,
                                    get-lookup l name,
                                    dl.nodes-put l i x,
                                  )
                                  (lookup-replace_at (dl.nodes l) i old x name u at same),
                            ),
                          ))
                  ])
          ])
  ]
    where
      Goal : Status × L → Type 0
      Goal s = Admissible (get dl l x.name) x × Stored l x name s ⊎ Refused l s

  -- `introspection_remove` of an introspection whose names differ, seen through `introspection_get`:
  -- where the name is present it succeeds, and then exactly that name is gone; where it is not,
  -- INTERFACE_NOT_FOUND is returned and nothing changes.
  pub remove_lem :
      (gone : List ℕ) (l : L) (name : List ℕ)
      → IsUnique (dl.nodes l)
      → let (r, l') = remove dl gone l in
        ((x : Interface) × (get dl l gone ≡ some x))
          × (r ≡ ok tt)
          × (get dl l' name ≡ (if same_name name gone then none else get dl l name))
        ⊎ (get dl l gone ≡ none) × (r ≡ err interface_not_found) × (l' ≡ l)
  unfolding remove remove_node
  remove_lem gone l name u = elim (found l gone) [
    | inl (h, f, g) ↦ subst (λ o. Goal (remove_node dl o l)) (sym h) (inr (g, refl, refl))
    | inr (i, x, h, at, same, g) ↦
        subst (λ o. Goal (remove_node dl o l)) (sym h)
          (inl (
            (x, g),
            refl,
            rw (get-lookup (dl.remove l i) name, get-lookup l name, dl.nodes-remove l i)
                (lookup-remove_at (dl.nodes l) i x gone name u at same),
          ))
  ]
    where
      Goal : Status × L → Type 0
      Goal (r, l') =
          ((x : Interface) × (get dl l gone ≡ some x))
            × (r ≡ ok tt)
            × (get dl l' name ≡ (if same_name name gone then none else get dl l name))
          ⊎ (get dl l gone ≡ none) × (r ≡ err interface_not_found) × (l' ≡ l)
