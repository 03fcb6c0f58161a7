-- ===== src/Items/Status.antt =====
-- ITEM_STATUSES and TERMINAL of app/enums.py.
use mathlib.Core.Logic.{◌↔◌}
use text.Mathlib.Text.{◌==◌ as str_eq}
use text.Mathlib.TextEquality.{eq_iff}
use pulsyr.Common.{String, ◌≡◌, Bool, true, false, ◌||◌, List, [], ◌∷◌, arith}

-- `other` is a text that is not in ITEM_STATUSES, as a client may send.
pub data Status : Type 0 where
  idea backlog spec in_progress blocked in_review done discarded : Status
  other : String → Status

abbrev pub status_eq : Status → Status → Bool
status_eq idea idea = true
status_eq backlog backlog = true
status_eq spec spec = true
status_eq in_progress in_progress = true
status_eq blocked blocked = true
status_eq in_review in_review = true
status_eq done done = true
status_eq discarded discarded = true
status_eq (other a) (other b) = str_eq a b
status_eq _ _ = false

pub status_eq_iff : (a b : Status) → (status_eq a b ≡ true) ↔ (a ≡ b)
status_eq_iff (other a) (other b) = ground (arith, eq_iff a b)
status_eq_iff a b = ground arith

-- ITEM_STATUSES
abbrev pub statuses : List Status
statuses = idea ∷ backlog ∷ spec ∷ in_progress ∷ blocked ∷ in_review ∷ done ∷ discarded ∷ []

-- `s in TERMINAL`
abbrev pub is_terminal : Status → Bool
is_terminal done = true
is_terminal discarded = true
is_terminal _ = false

-- `s in xs`
abbrev pub status_mem : Status → List Status → Bool
status_mem s [] = false
status_mem s (t ∷ ts) = status_eq s t || status_mem s ts
