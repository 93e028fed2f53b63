-- ===== src/Selection/Update/Legacy.antt =====
-- `runtimeSpecForUpdate` of internal/httpapi/app_lifecycle.go, where the template has no object of
-- editable options.
use Prim.Native.String.{String}
use cloudmeter.Common.{
  ◌≡◌, ◌≢◌, refl, sym, ap, ◌∙◌, Bool, true, false, not, ◌&&◌, ◌||◌, Option, none, some, arith,
  if◌then◌else◌,
}
use cloudmeter.Runtime.Float.{Float, pos, lt}
use cloudmeter.Runtime.Value.{Spec, get, as_object}
use cloudmeter.Runtime.Resources.{is_missing, runtime_resources, runtime_data_volume_gib}
use cloudmeter.Runtime.Volumes.{volume_mounts}
use cloudmeter.Runtime.Result.{
  ok, bind-eq-ok, refuse-eq-ok, ok-injective, capacity_fixed, volume_removed, capacity_fixed_below,
  no_data_volume, capacity_shrinks,
}
use cloudmeter.Selection.Steps.{
  SelectedResources, editable_runtime_option, is_fixed, is_none, choose_compute, choose_capacity,
  selected_runtime_spec,
}
use cloudmeter.Selection.Steps.Kept.{choose_compute-Computed}
use cloudmeter.Selection.Contract.Chain.{editable-find, Computed-find}
use cloudmeter.Selection.Update.{
  max_float, carried_capacity, update_capacity, update_selection, runtime_spec_for_update,
}

-- A template without options leaves each to the default of the caller.
no_options :
    (template : Spec) (key : String) (legacy : Bool)
    → as_object (get "editableOptions" template) ≡ none
    → editable_runtime_option template key legacy ≡ legacy
unfolding editable_runtime_option
no_options template key legacy e = rw e refl

carried_capacity-some :
    (choice : Option Float) (capacity minimum : Float) (chosen : Option Float)
    → carried_capacity true choice capacity minimum ≡ ok chosen
    → lt (pos 0) (max_float capacity minimum) ≡ true
    → is_missing chosen ≡ false
carried_capacity-some none capacity minimum chosen h l =
    let taken =
      ok-injective
        (if lt (pos 0) (max_float capacity minimum)
          then some (max_float capacity minimum)
          else none)
        chosen h in
    sym (ap is_missing taken) ∙ rw l refl
carried_capacity-some (some x) capacity minimum chosen h l =
    let (_, h1) = refuse-eq-ok (lt (pos 0) capacity && lt x capacity) capacity_shrinks _ h in
    sym (ap is_missing (ok-injective (some x) chosen h1))

-- The update takes the capacity of the current release for a choice, if the user makes none.
update_capacity-some :
    (template current : Spec) (selected : SelectedResources) (capacity minimum : Float)
    (chosen : Option Float)
    → as_object (get "editableOptions" template) ≡ none
    → is_none (volume_mounts template) ≡ false
    → runtime_data_volume_gib current false ≡ ok capacity
    → runtime_data_volume_gib template false ≡ ok minimum
    → lt (pos 0) (max_float capacity minimum) ≡ true
    → update_capacity template current selected ≡ ok chosen
    → is_missing chosen ≡ false
unfolding update_capacity
update_capacity-some template current selected capacity minimum chosen o m c t l h =
    let mountless = is_none (volume_mounts template) in
    let editable = editable_runtime_option template "dataVolume" true in
    let (c', c1, h1) = bind-eq-ok (runtime_data_volume_gib current false) _ h in
    let (m', m1, h2) = bind-eq-ok (runtime_data_volume_gib template false) _ h1 in
    let (_, h3) = refuse-eq-ok (lt (pos 0) c' && mountless) volume_removed _ h2 in
    let (_, h4) = refuse-eq-ok (lt m' c' && not editable) capacity_fixed_below _ h3 in
    let (_, h5) =
      refuse-eq-ok
        (mountless
          && (not (is_missing selected.data_volume_gib) || not (is_none selected.volume_sizes)))
        no_data_volume _ h4 in
    let open_option : (not mountless && editable) ≡ true =
      ap (λ b. not b && editable) m ∙ no_options template "dataVolume" true o in
    let same_capacity = ok-injective capacity c' (sym c ∙ c1) in
    let same_minimum = ok-injective minimum m' (sym t ∙ m1) in
    carried_capacity-some selected.data_volume_gib capacity minimum chosen
      (ap (λ b. carried_capacity b selected.data_volume_gib capacity minimum) (sym open_option)
        ∙ ap (λ x. carried_capacity (not mountless && editable) selected.data_volume_gib x minimum)
            same_capacity
        ∙ ap (carried_capacity (not mountless && editable) selected.data_volume_gib c') same_minimum
        ∙ h5)
      l

-- A choice of a capacity is refused by the selection.
selected_runtime_spec-refuses :
    (template : Spec) (selected : SelectedResources) (out : Spec)
    → as_object (get "editableOptions" template) ≡ none
    → is_missing selected.data_volume_gib ≡ false
    → selected_runtime_spec template selected ≢ ok out
unfolding selected_runtime_spec choose_capacity
selected_runtime_spec-refuses template selected out o chosen h =
    let (s1, e1, h1) = bind-eq-ok (choose_compute selected template) _ h in
    let (s2, e2, h2) = bind-eq-ok (choose_capacity selected s1) _ h1 in
    let computed = choose_compute-Computed template selected s1 e1 in
    let fixed =
      editable-find s1 template "dataVolume" false
        (Computed-find "editableOptions" computed refl refl refl)
      ∙ no_options template "dataVolume" false o in
    let (allowed, _) =
      refuse-eq-ok
        (is_fixed selected.data_volume_gib (editable_runtime_option s1 "dataVolume" false))
        capacity_fixed _ e2 in
    ground arith

-- An application with volumes whose template has no object of editable options is never updated: where
-- the capacity of the current release or of the template is more than zero, `runtimeSpecForUpdate` takes
-- a capacity for the user's choice, by its own default, and `selectedRuntimeSpec`, by another default,
-- refuses every choice of a capacity.
pub runtime_spec_for_update-refuses :
    (template current : Spec) (selected : SelectedResources) (capacity minimum : Float) (out : Spec)
    → as_object (get "editableOptions" template) ≡ none
    → is_none (volume_mounts template) ≡ false
    → runtime_data_volume_gib current false ≡ ok capacity
    → runtime_data_volume_gib template false ≡ ok minimum
    → lt (pos 0) (max_float capacity minimum) ≡ true
    → runtime_spec_for_update template current selected ≢ ok out
unfolding runtime_spec_for_update update_selection
runtime_spec_for_update-refuses template current selected capacity minimum out o m c t l h =
    let (selection, e, h1) = bind-eq-ok (update_selection template current selected) _ h in
    let (resources, _, e1) = bind-eq-ok (runtime_resources template true) _ e in
    let (chosen, u, e2) = bind-eq-ok (update_capacity template current selected) _ e1 in
    let present =
      update_capacity-some template current selected capacity minimum chosen o m c t l u in
    let taken : selection.data_volume_gib ≡ chosen = ground arith in
    selected_runtime_spec-refuses template selection out o (rw taken present) h1
