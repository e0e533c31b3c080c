-- ===== src/Introspection/Reachable.antt =====
-- Every introspection that the operations can reach.
use mathlib.Core.Path.{subst}
use astarte_device_sdk_zephy.Prelude.{
  ℕ, ◌≡◌, inl, inr, sym, ap, ◌∙◌, Bool, true, false, some, List, [], ◌∷◌,
}
use astarte_device_sdk_zephy.Result.{ok, ◌>>=◌}
use astarte_device_sdk_zephy.Interface.{Interface}
use astarte_device_sdk_zephy.Introspection.Nodes.{Dlist}
use astarte_device_sdk_zephy.Introspection.{
  append_introspection_node, add, add_valid, add_new, update, update_valid, update_node, check_node,
  remove, remove_node, init,
}
use astarte_device_sdk_zephy.Introspection.Find.{
  IsUnique, Fresh, append-IsUnique, replace_at-IsUnique, remove_at-IsUnique,
}
use astarte_device_sdk_zephy.Introspection.Names.{found, validate_cases}
use astarte_device_sdk_zephy.Introspection.Updates.{check_old-Compatible}

-- A call; the flag tells whether there is memory.
pub data Call : Type 0 where
  add_call : Bool → Interface → Call
  update_call : Bool → Interface → Call
  remove_call : List ℕ → Call

module _ {L : Type 0} (dl : Dlist L Interface) where
  abbrev pub Unique : L → Type 0
  Unique l = IsUnique (dl.nodes l)

  unfoldable pub perform : Call → L → L
  perform (add_call granted x) l = (add dl granted x l).1
  perform (update_call granted x) l = (update dl granted x l).1
  perform (remove_call name) l = (remove dl name l).1

  -- The introspection after a sequence of calls.
  unfoldable pub run : List Call → L → L
  run [] l = l
  run (c ∷ cs) l = run cs (perform c l)

  append_node-Unique :
      (granted : Bool) (x : Interface) (l : L)
      → Unique l
      → Fresh x.name (dl.nodes l)
      → Unique ((append_introspection_node dl granted x l).1)
  unfolding append_introspection_node
  append_node-Unique true x l u f =
      subst (λ xs. IsUnique xs) (sym (dl.nodes-append l x)) (append-IsUnique (dl.nodes l) x u f)
  append_node-Unique false x l u f = u

  add-Unique : (granted : Bool) (x : Interface) (l : L) → Unique l → Unique ((add dl granted x l).1)
  unfolding add add_valid add_new
  add-Unique granted x l u = elim (validate_cases dl x) [
    | inr (c, e) ↦ subst (λ v. Unique ((add_valid dl v granted x l).1)) (sym e) u
    | inl e ↦
        subst (λ v. Unique ((add_valid dl v granted x l).1)) (sym e)
          (elim (found dl l x.name) [
            | inr (i, y, h, at, same, g) ↦
                subst (λ o. Unique ((add_new dl o granted x l).1)) (sym h) u
            | inl (h, f, g) ↦
                subst (λ o. Unique ((add_new dl o granted x l).1)) (sym h)
                  (append_node-Unique granted x l u f)
          ])
  ]

  update-Unique :
      (granted : Bool) (x : Interface) (l : L) → Unique l → Unique ((update dl granted x l).1)
  unfolding update update_valid update_node check_node
  update-Unique granted x l u = elim (validate_cases dl x) [
    | inr (c, e) ↦ subst (λ v. Unique ((update_valid dl v granted x l).1)) (sym e) u
    | inl e ↦
        subst (λ v. Unique ((update_valid dl v granted x l).1)) (sym e)
          (elim (found dl l x.name) [
            | inl (h, f, g) ↦
                subst (λ o. Unique ((update_node dl (check_node o x) granted x l).1)) (sym h)
                  (append_node-Unique granted x l u f)
            | inr (i, old, h, at, same, g) ↦
                subst (λ o. Unique ((update_node dl (check_node o x) granted x l).1)) (sym h)
                  (elim (check_old-Compatible old x) [
                    | inr r ↦
                        subst
                          (λ s.
                            Unique ((update_node dl (s >>= λ _. ok (some (i, old))) granted x l).1))
                          (sym r) u
                    | inl (r, c) ↦
                        subst
                          (λ s.
                            Unique ((update_node dl (s >>= λ _. ok (some (i, old))) granted x l).1))
                          (sym r)
                          (subst (λ xs. IsUnique xs) (sym (dl.nodes-put l i x))
                            (replace_at-IsUnique (dl.nodes l) i old x u at same))
                  ])
          ])
  ]

  remove-Unique : (name : List ℕ) (l : L) → Unique l → Unique ((remove dl name l).1)
  unfolding remove remove_node
  remove-Unique name l u = elim (found dl l name) [
    | inl (h, f, g) ↦ subst (λ o. Unique ((remove_node dl o l).1)) (sym h) u
    | inr (i, x, h, at, same, g) ↦
        subst (λ o. Unique ((remove_node dl o l).1)) (sym h)
          (subst (λ xs. IsUnique xs) (sym (dl.nodes-remove l i))
            (remove_at-IsUnique (dl.nodes l) i u))
  ]

  run-Unique : (cs : List Call) (l : L) → Unique l → Unique (run cs l)
  unfolding run perform
  run-Unique [] l u = u
  run-Unique (add_call granted x ∷ cs) l u = run-Unique cs _ (add-Unique granted x l u)
  run-Unique (update_call granted x ∷ cs) l u = run-Unique cs _ (update-Unique granted x l u)
  run-Unique (remove_call name ∷ cs) l u = run-Unique cs _ (remove-Unique name l u)

  -- After `introspection_init` and any sequence of additions, updates and removals, whatever they
  -- return, no two interfaces of the introspection have the same name.
  pub names_stay-Unique :
      (granted : Bool) (cs : List Call) {l : L} → init dl granted ≡ ok l → Unique (run cs l)
  unfolding init
  names_stay-Unique true cs {l} e =
      run-Unique cs l (subst (λ xs. IsUnique xs) (sym (ap dl.nodes start ∙ dl.nodes-init)) tt)
    where
      start : l ≡ dl.init
      start = cc
  names_stay-Unique false cs e = cc
