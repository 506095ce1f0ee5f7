-- ===== src/Dashboard/Groups.antt =====
-- The projects are the pods grouped by name.
use p2ser.Base.{
  ℕ, ◌+◌, ◌≡◌, refl, ap, ◌∙◌, sym, arith, List, [], ◌∷◌, Option, some, none, false, if◌then◌else◌,
  inl, inr, Bool-cases, Option-cases, length,
}
use p2ser.Dict.{Dict, get, get-put}
use p2ser.Json.Platform.{Platform}
use p2ser.Text.Equality.{equal_refl, equal_iff}
use p2ser.Text.{Text, equal}
use p2ser.Dashboard.{Row, project_name, Sum, new_sum, add_pod, count_into, count_pod, count_pods}

module _ (js : Platform) where
  open js use {Num, inherited}

  abbrev count_or : ℕ → Option (Sum Num) → ℕ
  count_or n none = n
  count_or n (some s) = s.pods_count

  -- The rows of one project.
  unfoldable pub of_project : Text → List (Row Num) → List (Row Num)
  of_project name [] = []
  of_project name (row ∷ rows) =
      let rest = of_project name rows in if equal (project_name row) name then row ∷ rest else rest

  abbrev pub sum_up : Sum Num → List (Row Num) → Sum Num
  sum_up s [] = s
  sum_up s (row ∷ rows) = sum_up (add_pod js s row) rows

  -- A project starts with the directory of its first pod, and adds up all of its pods.
  abbrev pub group_sum : Text → Option (Sum Num) → List (Row Num) → Option (Sum Num)
  group_sum name (some s) rows = some (sum_up s rows)
  group_sum name none [] = none
  group_sum name none (row ∷ rows) = some (sum_up (new_sum js name row) (row ∷ rows))

  abbrev bump : Text → Option (Sum Num) → Row Num → Sum Num
  bump name none row = add_pod js (new_sum js name row) row
  bump name (some s) row = add_pod js s row

  group_sum-bump :
      (name : Text) (o : Option (Sum Num)) (row : Row Num) (rows : List (Row Num))
      → group_sum name (some (bump name o row)) rows ≡ group_sum name o (row ∷ rows)
  group_sum-bump name none row rows = refl
  group_sum-bump name (some s) row rows = refl

  count_into_self :
      (d : Dict (Sum Num)) (name : Text) (o : Option (Sum Num)) (row : Row Num)
      → inherited name ≡ none
      → get (count_into js d name o (inherited name) row) name ≡ some (bump name o row)
  unfolding count_into
  count_into_self d name none row h = rw (h, get-put, equal_refl name)
  count_into_self d name (some s) row h = rw (get-put, equal_refl name)

  count_into-other :
      (d : Dict (Sum Num)) (name k : Text) (o : Option (Sum Num)) (p : Option Text) (row : Row Num)
      → equal name k ≡ false
      → get (count_into js d name o p row) k ≡ get d k
  unfolding count_into
  count_into-other d name k (some s) p row h = rw (get-put, h)
  count_into-other d name k none none row h = rw (get-put, h)
  count_into-other d name k none (some v) row h = refl

  count_pod_self :
      (d : Dict (Sum Num)) (name : Text) (row : Row Num)
      → project_name row ≡ name
      → inherited name ≡ none
      → get (count_pod js d row) name ≡ some (bump name (get d name) row)
  unfolding count_pod
  count_pod_self d name row p h = rw p (count_into_self d name (get d name) row h)

  count_pod_other :
      (d : Dict (Sum Num)) (name : Text) (row : Row Num)
      → equal (project_name row) name ≡ false
      → get (count_pod js d row) name ≡ get d name
  unfolding count_pod
  count_pod_other d name row e = count_into-other d (project_name row) name _ _ row e

  count_pod_inherited :
      (d : Dict (Sum Num)) (name v : Text) (row : Row Num)
      → inherited name ≡ some v
      → get d name ≡ none
      → project_name row ≡ name
      → get (count_pod js d row) name ≡ none
  unfolding count_pod count_into
  count_pod_inherited d name v row h fresh p = rw (p, fresh, h) fresh

  count_pods_from :
      (name : Text) (d : Dict (Sum Num)) (rows : List (Row Num))
      → inherited name ≡ none
      → get (count_pods js d rows) name ≡ group_sum name (get d name) (of_project name rows)
  unfolding count_pods of_project
  count_pods_from name d [] h = elim (Option-cases (get d name)) [
    | inl e ↦ rw e
    | inr (s, e) ↦ rw e
  ]
  count_pods_from name d (row ∷ rows) h = elim (Bool-cases (equal (project_name row) name)) [
    | inl e ↦
        count_pods_from name (count_pod js d row) rows h
        ∙ ap (λ (o : Option (Sum Num)). group_sum name o (of_project name rows))
            (count_pod_self d name row ((equal_iff (project_name row) name).0 e) h)
        ∙ group_sum-bump name (get d name) row (of_project name rows)
        ∙ rw e
    | inr e ↦
        count_pods_from name (count_pod js d row) rows h
        ∙ ap (λ (o : Option (Sum Num)). group_sum name o (of_project name rows))
            (count_pod_other d name row e)
        ∙ rw e
  ]

  -- The projects that the page lists are the groups of the pods by `project || app || 'default'`:
  -- under a name that objects do not inherit there is a project exactly if a pod has that name, and
  -- it has the directory of the first such pod and the sums over all of them.
  pub count_pods-group_sum :
      (name : Text) (rows : List (Row Num))
      → inherited name ≡ none
      → get (count_pods js [] rows) name ≡ group_sum name none (of_project name rows)
  count_pods-group_sum name rows h = unfold get in count_pods_from name [] rows h

  pods_count-sum_up :
      (s : Sum Num) (rows : List (Row Num))
      → (sum_up s rows).pods_count ≡ s.pods_count + length rows
  unfolding add_pod
  pods_count-sum_up s [] = omega arith
  pods_count-sum_up s (row ∷ rows) = omega (arith, pods_count-sum_up (add_pod js s row) rows)

  -- The pods that a project counts are as many as its rows.
  pub pods_count-group_sum :
      (name : Text) (rows : List (Row Num)) (s : Sum Num)
      → group_sum name none rows ≡ some s
      → s.pods_count ≡ length rows
  unfolding new_sum add_pod
  pods_count-group_sum name [] s h = absurd (cc)
  pods_count-group_sum name (row ∷ rows) s h =
      let start = add_pod js (new_sum js name row) row in
      ap (λ (o : Option (Sum Num)). count_or 0 o) (sym h)
      ∙ omega (arith, pods_count-sum_up start rows)

  -- The number of pods of a project on the page is the number of pods in the reply that belong
  -- to it.
  pub pods_count-count_pods :
      (name : Text) (rows : List (Row Num)) (s : Sum Num)
      → inherited name ≡ none
      → get (count_pods js [] rows) name ≡ some s
      → s.pods_count ≡ length (of_project name rows)
  pods_count-count_pods name rows s h e =
      pods_count-group_sum name (of_project name rows) s
        (sym (count_pods-group_sum name rows h) ∙ e)

  inherited_from :
      (name v : Text) (d : Dict (Sum Num)) (rows : List (Row Num))
      → inherited name ≡ some v
      → get d name ≡ none
      → get (count_pods js d rows) name ≡ none
  unfolding count_pods
  inherited_from name v d [] h fresh = fresh
  inherited_from name v d (row ∷ rows) h fresh = elim (Bool-cases (equal (project_name row) name)) [
    | inl e ↦
        inherited_from name v (count_pod js d row) rows h
          (count_pod_inherited d name v row h fresh ((equal_iff (project_name row) name).0 e))
    | inr e ↦
        inherited_from name v (count_pod js d row) rows h (count_pod_other d name row e ∙ fresh)
  ]

  -- A project with a name that every object inherits, such as `constructor`, is never listed,
  -- whatever pods it has.
  pub count_pods_inherited :
      (name v : Text) (rows : List (Row Num))
      → inherited name ≡ some v
      → get (count_pods js [] rows) name ≡ none
  count_pods_inherited name v rows h = inherited_from name v [] rows h (unfold get in refl)
