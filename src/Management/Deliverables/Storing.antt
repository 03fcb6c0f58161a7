-- ===== src/Management/Deliverables/Storing.antt =====
-- `put_deliverable` of app/management/service.py as a whole.
use pulsyr.Common.{◌≡◌, IsDistinct}
use mathlib.Core.Path.{subst}
use pulsyr.Common.Text.{Text}
use pulsyr.Management.Model.{Db}
use pulsyr.Management.Versions.{find_deliverable, versions_of}
use pulsyr.Management.Versions.Numbers.{Matches}
use pulsyr.Management.Deliverables.Keys.{ids, IsStore}

-- Another session with the same deliverables and versions.
pub IsStore-of :
    (db db₁ : Db)
    → db.deliverables ≡ db₁.deliverables
    → db.versions ≡ db₁.versions
    → IsStore db
    → IsStore db₁
IsStore-of db db₁ ds vs store = record {
  keyed = subst (λ x. IsDistinct (ids x)) ds store.keyed;
  versioned = λ id.
      subst (λ x. Matches (find_deliverable id x) (versions_of id db₁.versions)) ds
        (subst (λ x. Matches (find_deliverable id db.deliverables) (versions_of id x)) vs
          (store.versioned id));
}
