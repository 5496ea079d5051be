-- ===== src/Planner/Groups.antt =====
-- `group` puts the nodes of one key into one batch.
use text.Mathlib.TextEquality.{eq_iff}
use maintenance_orchestrator.Prelude.{
  ◌≡◌, refl, sym, ◌∙◌, inl, inr, Bool, true, false, ◌||◌, List, [], ◌∷◌, ◌++◌, String,
  if◌then◌else◌, Bool-cases, str_eq, has_key, arith,
}
use mathlib.Core.List.{append_assoc, append-nil, Perm, perm_middle}
use mathlib.Core.List.Perm
use maintenance_orchestrator.Kube.Objects.{Node}
use maintenance_orchestrator.Planner.Batches.{add_to, names_of, group_loop}

module _ (key : Node → String) where
  -- The names of the nodes with key `k`, in the order given.
  abbrev pub names_with : String → List Node → List String
  names_with k [] = []
  names_with k (n ∷ nodes) =
      if str_eq (key n) k then n.name ∷ names_with k nodes else names_with k nodes

names_of-add_to :
    (k j name : String) (gs : List (String × List String))
    → names_of k (add_to j name gs)
      ≡ (if str_eq j k then names_of k gs ++ name ∷ [] else names_of k gs)
unfolding names_of add_to
names_of-add_to k j name [] = ground arith
names_of-add_to k j name ((i, ns) ∷ gs) =
    ground (arith, eq_iff i k, eq_iff i j, eq_iff j k, names_of-add_to k j name gs)

module _ (key : Node → String) (k : String) where
  pub names_of-group_loop :
      (nodes : List Node) (gs : List (String × List String)) (order : List String)
      → names_of k (group_loop key nodes gs order).0 ≡ names_of k gs ++ names_with key k nodes
  unfolding group_loop
  names_of-group_loop [] gs order = sym (append-nil (names_of k gs))
  names_of-group_loop (n ∷ nodes) gs order =
      names_of-group_loop nodes (add_to (key n) n.name gs)
        (if has_key (key n) gs then order else order ++ key n ∷ [])
      ∙ rw names_of-add_to (step (str_eq (key n) k))
    where
      step :
          (b : Bool)
          → (if b then names_of k gs ++ n.name ∷ [] else names_of k gs) ++ names_with key k nodes
            ≡ names_of k gs
              ++ (if b then n.name ∷ names_with key k nodes else names_with key k nodes)
      step true = append_assoc (names_of k gs) (n.name ∷ []) (names_with key k nodes)
      step false = refl

abbrev pub keys : List (String × List String) → List String
keys [] = []
keys ((j, ns) ∷ gs) = j ∷ keys gs

-- No key stands twice.
abbrev pub IsDistinct : List (String × List String) → Type 0
IsDistinct [] = Unit
IsDistinct ((j, ns) ∷ gs) = (has_key j gs ≡ false) × IsDistinct gs

abbrev pub all_names : List (String × List String) → List String
all_names [] = []
all_names ((j, ns) ∷ gs) = ns ++ all_names gs

pub keys-add_to :
    (k name : String) (gs : List (String × List String))
    → keys (add_to k name gs) ≡ (if has_key k gs then keys gs else keys gs ++ k ∷ [])
unfolding add_to
keys-add_to k name [] = refl
keys-add_to k name ((j, ns) ∷ gs) = ground (arith, keys-add_to k name gs)

has_key-add_to :
    (j k name : String) (gs : List (String × List String))
    → has_key j (add_to k name gs) ≡ (str_eq k j || has_key j gs)
unfolding add_to
has_key-add_to j k name [] = refl
has_key-add_to j k name ((i, ns) ∷ gs) =
    ground (arith, has_key-add_to j k name gs, eq_iff i k, eq_iff i j, eq_iff k j)

pub add_to-IsDistinct :
    (k name : String) (gs : List (String × List String))
    → IsDistinct gs
    → IsDistinct (add_to k name gs)
unfolding add_to
add_to-IsDistinct k name [] d = (refl, tt)
add_to-IsDistinct k name ((j, ns) ∷ gs) d =
    ground
      (arith, add_to-IsDistinct k name gs d.1, has_key-add_to j k name gs, eq_iff j k, eq_iff k j)

pub all_names-add_to-perm :
    (k name : String) (gs : List (String × List String))
    → Perm (all_names (add_to k name gs)) (name ∷ all_names gs)
unfolding add_to
all_names-add_to-perm k name [] = Perm.rfl
all_names-add_to-perm k name ((j, ns) ∷ gs) = elim (Bool-cases (str_eq j k)) [
  | inl e ↦ rw (e, append_assoc) (perm_middle ns (all_names gs))
  | inr e ↦ rw e (
      Perm.trans (Perm.append_left ns (all_names-add_to-perm k name gs))
        (perm_middle ns (all_names gs)))
]
