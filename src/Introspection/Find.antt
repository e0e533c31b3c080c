-- ===== src/Introspection/Find.antt =====
-- The search by name, on the list of the interfaces in the nodes.
use astarte_device_sdk_zephy.Prelude.{
  ℕ, zero, suc, ◌+◌, ◌≡◌, ◌⊎◌, inl, inr, refl, sym, ap, ◌∙◌, Bool, true, false, Option, none, some,
  List, [], ◌∷◌, ◌++◌, if◌then◌else◌, arith,
}
use astarte_device_sdk_zephy.Bson.Serializer.Format.{All}
use astarte_device_sdk_zephy.Interface.{Interface}
use astarte_device_sdk_zephy.Introspection.Nodes.{remove_at, replace_at}
use astarte_device_sdk_zephy.Introspection.{strncmp_same, same_name, find_from, node_interface}

-- Comparing names is an equivalence.
pub strncmp_same_refl : (n : ℕ) (a : List ℕ) → strncmp_same n a a ≡ true
unfolding strncmp_same
strncmp_same_refl zero a = refl
strncmp_same_refl (suc n) [] = refl
strncmp_same_refl (suc n) (x ∷ a) = ground (arith, strncmp_same_refl n a)

pub strncmp_same_comm : (n : ℕ) (a b : List ℕ) → strncmp_same n a b ≡ strncmp_same n b a
unfolding strncmp_same
strncmp_same_comm zero a b = refl
strncmp_same_comm (suc n) [] [] = refl
strncmp_same_comm (suc n) [] (y ∷ b) = refl
strncmp_same_comm (suc n) (x ∷ a) [] = refl
strncmp_same_comm (suc n) (x ∷ a) (y ∷ b) = ground (arith, strncmp_same_comm n a b)

-- Names that compare equal compare alike with any other.
pub strncmp_same_congr :
    (n : ℕ) (a b c : List ℕ) → strncmp_same n a b ≡ true → strncmp_same n c a ≡ strncmp_same n c b
unfolding strncmp_same
strncmp_same_congr zero a b c h = refl
strncmp_same_congr (suc n) [] [] c h = refl
strncmp_same_congr (suc n) [] (y ∷ b) c h = cc
strncmp_same_congr (suc n) (x ∷ a) [] c h = cc
strncmp_same_congr (suc n) (x ∷ a) (y ∷ b) [] h = refl
strncmp_same_congr (suc n) (x ∷ a) (y ∷ b) (z ∷ c) h = ground (arith, strncmp_same_congr n a b c)

-- No other interface of the list has the name.
abbrev pub Fresh : List ℕ → List Interface → Type 0
Fresh name xs = All (λ x. same_name name x.name ≡ false) xs

-- The names of the interfaces differ.
abbrev pub IsUnique : List Interface → Type 0
IsUnique [] = Unit
IsUnique (x ∷ xs) = Fresh x.name xs × IsUnique xs

-- The interface of a name, without its position.
abbrev pub lookup : List Interface → List ℕ → Option Interface
lookup [] name = none
lookup (x ∷ xs) name = if same_name name x.name then some x else lookup xs name

pub lookup-find :
    (xs : List Interface) (name : List ℕ) (i : ℕ)
    → node_interface (find_from xs name i) ≡ lookup xs name
unfolding find_from node_interface
lookup-find [] name i = refl
lookup-find (x ∷ xs) name i = ground (arith, lookup-find xs name (i + 1))

-- Nothing is found exactly where the name is fresh.
pub find_from-Fresh :
    (xs : List Interface) (name : List ℕ) (i : ℕ) → find_from xs name i ≡ none → Fresh name xs
unfolding find_from
find_from-Fresh [] name i h = tt
find_from-Fresh (x ∷ xs) name i h = ground (arith, find_from-Fresh xs name (i + 1))

-- What is found stands at the position, and has the name.
abbrev pub At : List Interface → ℕ → Interface → Type 0
At [] i x = ⊥
At (y ∷ ys) zero x = y ≡ x
At (y ∷ ys) (suc i) x = At ys i x

chosen :
    {A : Type 0} (b : Bool) {p r : A} {q : Option A}
    → (if b then some p else q) ≡ some r
    → (b ≡ true) × (p ≡ r) ⊎ (b ≡ false) × (q ≡ some r)
chosen true h = inl (refl, cc)
chosen false h = inr (refl, h)

pub find_from-At :
    (xs : List Interface) (name : List ℕ) (i k : ℕ) (x : Interface)
    → find_from xs name i ≡ some (k, x)
    → (j : ℕ) × (k ≡ i + j) × At xs j x × (same_name name x.name ≡ true)
unfolding find_from
find_from-At [] name i k x h = cc
find_from-At (y ∷ ys) name i k x h = elim (chosen (same_name name y.name) h) [
  | inl (t, e) ↦ (
    0,
    sym (ap (λ r. r.0) e) ∙ omega arith,
    ap (λ r. r.1) e,
    ap (λ (r : ℕ × Interface). same_name name r.1.name) (sym e) ∙ t,
  )
  | inr (f, e) ↦
      let (j, kj, at, same) = find_from-At ys name (i + 1) k x e in
      (suc j, kj ∙ omega arith, at, same)
]

-- The effect of the three changes of the list on what is found under a name.
pub lookup-append :
    (xs : List Interface) (x : Interface) (name : List ℕ)
    → Fresh x.name xs
    → lookup (xs ++ (x ∷ [])) name ≡ (if same_name name x.name then some x else lookup xs name)
lookup-append [] x name f = refl
lookup-append (y ∷ ys) x name f = ground (
  arith,
  lookup-append ys x name f.1,
  strncmp_same_congr 128 name x.name y.name,
  strncmp_same_comm 128 x.name y.name,
  strncmp_same_comm 128 name y.name,
)

pub lookup-Fresh : (xs : List Interface) (name : List ℕ) → Fresh name xs → lookup xs name ≡ none
lookup-Fresh [] name f = refl
lookup-Fresh (y ∷ ys) name f = ground (arith, lookup-Fresh ys name f.1)

Fresh-congr : (xs : List Interface) (a b : List ℕ) → same_name a b ≡ true → Fresh b xs → Fresh a xs
Fresh-congr [] a b h f = tt
Fresh-congr (x ∷ xs) a b h f = (
  strncmp_same_comm 128 a x.name
      ∙ strncmp_same_congr 128 a b x.name h
      ∙ strncmp_same_comm 128 x.name b
      ∙ f.0,
  Fresh-congr xs a b h f.1,
)

Fresh-At :
    (xs : List Interface) (name : List ℕ) (j : ℕ) (x : Interface)
    → Fresh name xs
    → At xs j x
    → same_name name x.name ≡ false
Fresh-At [] name j x f at = absurd at
Fresh-At (y ∷ ys) name zero x f at = ap (λ (z : Interface). same_name name z.name) (sym at) ∙ f.0
Fresh-At (y ∷ ys) name (suc j) x f at = Fresh-At ys name j x f.1 at

pub lookup-replace_at :
    (xs : List Interface) (j : ℕ) (old x : Interface) (name : List ℕ)
    → IsUnique xs
    → At xs j old
    → same_name x.name old.name ≡ true
    → lookup (replace_at xs j x) name ≡ (if same_name name x.name then some x else lookup xs name)
unfolding replace_at
lookup-replace_at [] j old x name u at s = absurd at
lookup-replace_at (y ∷ ys) zero old x name u at s =
    let e : same_name name x.name ≡ same_name name y.name =
      strncmp_same_congr 128 x.name y.name name
        (ap (λ (z : Interface). same_name x.name z.name) at ∙ s) in
    ground (arith, e)
lookup-replace_at (y ∷ ys) (suc j) old x name u at s =
    let other : same_name y.name old.name ≡ false = Fresh-At ys y.name j old u.0 at in
    ground (
      arith,
      lookup-replace_at ys j old x name u.1 at s,
      strncmp_same_congr 128 x.name old.name y.name s,
      strncmp_same_comm 128 y.name name,
      strncmp_same_congr 128 name x.name y.name,
    )

pub lookup-remove_at :
    (xs : List Interface) (j : ℕ) (old : Interface) (gone name : List ℕ)
    → IsUnique xs
    → At xs j old
    → same_name gone old.name ≡ true
    → lookup (remove_at xs j) name ≡ (if same_name name gone then none else lookup xs name)
unfolding remove_at
lookup-remove_at [] j old gone name u at s = absurd at
lookup-remove_at (y ∷ ys) zero old gone name u at s =
    let e : same_name name gone ≡ same_name name y.name =
      strncmp_same_congr 128 gone y.name name
        (ap (λ (z : Interface). same_name gone z.name) at ∙ s) in
    let none_left : same_name name y.name ≡ true → lookup ys name ≡ none =
      λ t. lookup-Fresh ys name (Fresh-congr ys name y.name t u.0) in
    ground (arith, e, none_left)
lookup-remove_at (y ∷ ys) (suc j) old gone name u at s =
    let other : same_name y.name old.name ≡ false = Fresh-At ys y.name j old u.0 at in
    ground (
      arith,
      lookup-remove_at ys j old gone name u.1 at s,
      strncmp_same_congr 128 gone old.name y.name s,
      strncmp_same_comm 128 y.name name,
      strncmp_same_congr 128 name gone y.name,
    )

-- The three changes keep the names apart.
Fresh-append :
    (xs : List Interface) (x : Interface) (name : List ℕ)
    → Fresh name xs
    → same_name name x.name ≡ false
    → Fresh name (xs ++ (x ∷ []))
Fresh-append [] x name f h = (h, tt)
Fresh-append (y ∷ ys) x name f h = (f.0, Fresh-append ys x name f.1 h)

pub append-IsUnique :
    (xs : List Interface) (x : Interface)
    → IsUnique xs
    → Fresh x.name xs
    → IsUnique (xs ++ (x ∷ []))
append-IsUnique [] x u f = (tt, tt)
append-IsUnique (y ∷ ys) x u f = (
  Fresh-append ys x y.name u.0 (strncmp_same_comm 128 y.name x.name ∙ f.0),
  append-IsUnique ys x u.1 f.1,
)

Fresh-remove_at :
    (xs : List Interface) (j : ℕ) (name : List ℕ) → Fresh name xs → Fresh name (remove_at xs j)
unfolding remove_at
Fresh-remove_at [] j name f = tt
Fresh-remove_at (y ∷ ys) zero name f = f.1
Fresh-remove_at (y ∷ ys) (suc j) name f = (f.0, Fresh-remove_at ys j name f.1)

pub remove_at-IsUnique : (xs : List Interface) (j : ℕ) → IsUnique xs → IsUnique (remove_at xs j)
unfolding remove_at
remove_at-IsUnique [] j u = tt
remove_at-IsUnique (y ∷ ys) zero u = u.1
remove_at-IsUnique (y ∷ ys) (suc j) u =
    (Fresh-remove_at ys j y.name u.0, remove_at-IsUnique ys j u.1)

Fresh-replace_at :
    (xs : List Interface) (j : ℕ) (x : Interface) (name : List ℕ)
    → Fresh name xs
    → same_name name x.name ≡ false
    → Fresh name (replace_at xs j x)
unfolding replace_at
Fresh-replace_at [] j x name f h = tt
Fresh-replace_at (y ∷ ys) zero x name f h = (h, f.1)
Fresh-replace_at (y ∷ ys) (suc j) x name f h = (f.0, Fresh-replace_at ys j x name f.1 h)

pub replace_at-IsUnique :
    (xs : List Interface) (j : ℕ) (old x : Interface)
    → IsUnique xs
    → At xs j old
    → same_name x.name old.name ≡ true
    → IsUnique (replace_at xs j x)
unfolding replace_at
replace_at-IsUnique [] j old x u at s = absurd at
replace_at-IsUnique (y ∷ ys) zero old x u at s =
    (Fresh-congr ys x.name y.name (ap (λ (z : Interface). same_name x.name z.name) at ∙ s) u.0, u.1)
replace_at-IsUnique (y ∷ ys) (suc j) old x u at s = (
  Fresh-replace_at ys j x y.name u.0
      (strncmp_same_congr 128 x.name old.name y.name s ∙ Fresh-At ys y.name j old u.0 at),
  replace_at-IsUnique ys j old x u.1 at s,
)
