-- ===== src/Incidents/Sanitize.antt =====
-- `_sanitize` of app/webhooks/service.py: `<[^>]+>` is taken out of a text.
use pulsyr.Common.{
  ℕ, zero, suc, ◌≤◌, ◌≡◌, refl, inl, inr, Bool, true, false, not, ◌&&◌, ◌||◌, Option, none, some,
  [], ◌∷◌, ◌==◌, if◌then◌else◌, take, mem, length, Bool-cases, length-take-le, arith,
}
use pulsyr.Common.Text.{Text, codes}

-- `>` comes later.
abbrev pub closes : Text → Bool
closes s = mem 62 s

-- A tag can be completed by what comes after its `<`.
abbrev pub is_tag : Text → Bool
is_tag [] = false
is_tag (c ∷ s) = not (62 == c) && closes s

-- `_TAG_RE.sub("", s)`; `inside` is whether the character is in a tag that is being left out.
unfoldable pub without_tags : Bool → Text → Text
without_tags inside [] = []
without_tags true (c ∷ s) =
    let after = without_tags false s in
    let within = without_tags true s in if 62 == c then after else within
without_tags false (c ∷ s) =
    let kept = without_tags false s in
    let within = without_tags true s in if 60 == c && is_tag s then within else c ∷ kept

-- A tag stands somewhere in the text.
abbrev pub has_tag : Text → Bool
has_tag [] = false
has_tag (c ∷ s) = (60 == c && is_tag s) || has_tag s

unfoldable pub sanitize : Option Text → ℕ → Text
unfolding without_tags
sanitize none limit = []
sanitize (some s) limit = take limit (without_tags false s)

-- What is left out brings no new `>`.
closes-without_tags :
    (inside : Bool) (s : Text) → closes s ≡ false → closes (without_tags inside s) ≡ false
unfolding without_tags
closes-without_tags true [] h = refl
closes-without_tags false [] h = refl
closes-without_tags true (c ∷ s) h =
    ground (arith, closes-without_tags true s, closes-without_tags false s)
closes-without_tags false (c ∷ s) h =
    ground (arith, closes-without_tags true s, closes-without_tags false s)

closes-is_tag : (s : Text) → closes s ≡ false → is_tag s ≡ false
closes-is_tag [] h = refl
closes-is_tag (c ∷ s) h = ground arith

is_tag-without_tags : (s : Text) → is_tag s ≡ false → is_tag (without_tags false s) ≡ false
unfolding without_tags
is_tag-without_tags [] h = refl
is_tag-without_tags (c ∷ s) h = elim (Bool-cases (62 == c)) [
  | inl end ↦ ground arith
  | inr inner ↦ ground (arith, closes-is_tag s, closes-without_tags false s)
]

has_tag-without_tags : (inside : Bool) (s : Text) → has_tag (without_tags inside s) ≡ false
unfolding without_tags
has_tag-without_tags true [] = refl
has_tag-without_tags false [] = refl
has_tag-without_tags true (c ∷ s) =
    ground (arith, has_tag-without_tags true s, has_tag-without_tags false s)
has_tag-without_tags false (c ∷ s) =
    ground (arith, has_tag-without_tags true s, has_tag-without_tags false s, is_tag-without_tags s)

closes-take : (n : ℕ) (s : Text) → closes s ≡ false → closes (take n s) ≡ false
closes-take zero s h = refl
closes-take (suc n) [] h = refl
closes-take (suc n) (c ∷ s) h = ground (arith, closes-take n s)

is_tag-take : (n : ℕ) (s : Text) → is_tag s ≡ false → is_tag (take n s) ≡ false
is_tag-take zero s h = refl
is_tag-take (suc n) [] h = refl
is_tag-take (suc n) (c ∷ s) h = ground (arith, closes-take n s)

has_tag-take : (n : ℕ) (s : Text) → has_tag s ≡ false → has_tag (take n s) ≡ false
has_tag-take zero s h = refl
has_tag-take (suc n) [] h = refl
has_tag-take (suc n) (c ∷ s) h = ground (arith, has_tag-take n s, is_tag-take n s)

-- No tag is left in what comes out, neither one that was there nor one that the removal of others
-- has put together, and the text has at most as many characters as the limit.
pub sanitize-has_tag :
    (s : Option Text) (limit : ℕ)
    → (has_tag (sanitize s limit) ≡ false) × (length (sanitize s limit) ≤ limit)
unfolding sanitize
sanitize-has_tag none limit = (refl, omega arith)
sanitize-has_tag (some s) limit = (
  has_tag-take limit (without_tags false s) (has_tag-without_tags false s),
  length-take-le limit (without_tags false s),
)

sanitize_test : sanitize (some (codes "a <b>bold</b> <> 1 < 2 <<i>x")) 100 ≡ codes "a bold <> 1 x"
unfolding sanitize
sanitize_test = refl
