-- ===== src/Projects/Modules/Presets.antt =====
-- What `apply_preset` of app/projects/modules.py leaves as the states of each project.
use pulsyr.Common.{
  ℕ, ◌≡◌, sym, ap, ◌∙◌, false, some, ◌==◌, if◌then◌else◌, ok, bind_parts, ok_inj, arith,
}
use mathlib.Core.Path.{subst}
use pulsyr.Common.Text.{Text}
use pulsyr.Projects.Modules.{
  Preset, solo, product, client, hybrid, States, state_of, Db, states_for_preset, actor_of,
  states_from_rows, rows_of, module_states, preset_row, apply_preset, infer_preset,
}
use pulsyr.Projects.Modules.Table.{revalue, states_from_rows-revalued, rows_of-preset, rows_apart}

infer_lem : (p : Preset) (s : States) → states_for_preset p ≡ ok s → infer_preset s ≡ some p
unfolding states_for_preset infer_preset
infer_lem solo s h = ap infer_preset (sym (ok_inj h))
infer_lem product s h = ap infer_preset (sym (ok_inj h))
infer_lem client s h = ap infer_preset (sym (ok_inj h))
infer_lem hybrid s h = ap infer_preset (sym (ok_inj h))
infer_lem (Preset.other t) s h = absurd (ground arith)

-- A preset that is applied is what the project's states are then, and what is inferred from them; the
-- states of the other projects are as they were.
pub apply_preset-infer :
    (project_id project_id' : ℕ) (p : Preset) (actor : Text) (db after : Db) (states : States)
    → apply_preset project_id p actor db ≡ ok (after, states)
    → (project_id' == project_id) ≡ false
    → (module_states after project_id ≡ ok states)
      × (infer_preset states ≡ some p)
      × (module_states after project_id' ≡ module_states db project_id')
unfolding apply_preset module_states infer_preset
apply_preset-infer project_id project_id' p actor db after states h apart =
    let (desired, d, h1) = bind_parts (states_for_preset p) _ _ h in
    let (name, n, h2) = bind_parts (actor_of actor) _ _ h1 in
    let (before, b, h3) = bind_parts (states_from_rows (rows_of project_id db.rows)) _ _ h2 in
    let e = ok_inj h3 in
    subst
      (λ r.
        (module_states r.0 project_id ≡ ok r.1)
        × (infer_preset r.1 ≡ some p)
        × (module_states r.0 project_id' ≡ module_states db project_id'))
      e
      (
        ap states_from_rows (rows_of-preset project_id desired db.rows)
            ∙ (states_from_rows-revalued (λ m _. state_of desired m) (rows_of project_id db.rows)
                ∙ ap (revalue (λ m _. state_of desired m)) b),
        infer_lem p desired d,
        ap states_from_rows (
            rows_apart project_id project_id' (preset_row project_id desired) db.rows apart
              (λ row. ground arith)
              (λ row other_row.
                ap
                  (λ c.
                    if c then record row { enabled = state_of desired row.module_name } else row)
                  other_row)),
      )
