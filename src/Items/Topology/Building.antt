-- ===== src/Items/Topology/Building.antt =====
-- What the loop over the edges leaves in `adj` and `indeg`.
use pulsyr.Common.{
  ℕ, ◌+◌, ◌≤◌, ◌≡◌, refl, Bool, true, false, not, ◌&&◌, ◌||◌, Option, none, some, List, [], ◌∷◌,
  arith, if◌then◌else◌, ◌==◌, mem, IsDistinct, Bool-cases, sym, inl, inr, ◌*◌,
}
use pulsyr.Common.Copies.{copies, pending, mem-eq-copies}
use pulsyr.Items.Relation.{blocks, requires, conflicts, related, part_of, other}
use pulsyr.Items.Topology.{Arc, Dag, precedence, add_arc, build, no_arcs, update, set_of}

abbrev is_pair : ℕ → ℕ → Option (ℕ × ℕ) → Bool
is_pair a b none = false
is_pair a b (some (c, d)) = a == c && b == d

-- The arc says that `a` blocks `b`, or that `b` requires `a`.
abbrev pub puts_before : ℕ → ℕ → Arc → Bool
puts_before a b (source, target, blocks) = source == a && target == b
puts_before a b (source, target, requires) = source == b && target == a
puts_before a b (source, target, conflicts) = false
puts_before a b (source, target, related) = false
puts_before a b (source, target, part_of) = false
puts_before a b (source, target, other s) = false

-- Some arc of the list says so.
abbrev pub has_arc : ℕ → ℕ → List Arc → Bool
has_arc a b [] = false
has_arc a b (e ∷ edges) = puts_before a b e || has_arc a b edges

is_pair-precedence : (a b : ℕ) (e : Arc) → is_pair a b (precedence e) ≡ puts_before a b e
is_pair-precedence a b (source, target, blocks) = ground arith
is_pair-precedence a b (source, target, requires) = ground arith
is_pair-precedence a b (source, target, conflicts) = refl
is_pair-precedence a b (source, target, related) = refl
is_pair-precedence a b (source, target, part_of) = refl
is_pair-precedence a b (source, target, other s) = refl

-- A sum of which the summand at `k` has grown by `d`.
pending_raised :
    (f g : ℕ → ℕ) (k d : ℕ) (ns : List ℕ)
    → ((a : ℕ) → g a ≡ f a + (if a == k then d else 0))
    → pending g [] ns ≡ pending f [] ns + copies k ns * d
pending_raised f g k d [] h = omega arith
pending_raised f g k d (n ∷ ns) h = ground (arith, pending_raised f g k d ns h, h n)

-- `indeg` counts the arcs, no arc is listed twice, and arcs join nodes.
pub record IsCounted (nodes : List ℕ) (g : Dag) : Type 0 where
  pub counted : (b : ℕ) → g.indeg b ≡ pending (λ a. copies b (g.adj a)) [] nodes
  pub once : (a b : ℕ) → copies b (g.adj a) ≤ 1
  pub inside : (a b : ℕ) → mem b (g.adj a) ≡ true → (mem a nodes ≡ true) × (mem b nodes ≡ true)

-- One more arc, which is new and joins nodes.
add_new-IsCounted :
    (nodes : List ℕ) (g : Dag) (c e : ℕ)
    → ((a : ℕ) → copies a nodes ≤ 1)
    → IsCounted nodes g
    → mem c nodes ≡ true
    → mem e nodes ≡ true
    → mem e (g.adj c) ≡ false
    → IsCounted nodes
        (record { adj = update g.adj c (e ∷ g.adj c); indeg = update g.indeg e (g.indeg e + 1) })
add_new-IsCounted nodes g c e d h mc me new = record {
  counted = λ b.
      let raised : ℕ = if b == e then 1 else 0 in
      grind (
        arith,
        h.counted b,
        h.counted e,
        d c,
        mem-eq-copies c nodes,
        pending_raised (λ a. copies b (g.adj a)) (λ a. copies b (update g.adj c (e ∷ g.adj c) a)) c
            raised nodes (λ a. ground arith),
      );
  once = λ a b. ground (arith, h.once a b, mem-eq-copies e (g.adj c), h.once c e);
  inside = λ a b. ground (arith, h.inside a b);
}

add_arc-IsCounted :
    (nodes : List ℕ) (g : Dag) (p : Option (ℕ × ℕ))
    → ((a : ℕ) → copies a nodes ≤ 1)
    → IsCounted nodes g
    → IsCounted nodes (add_arc nodes g p)
unfolding add_arc
add_arc-IsCounted nodes g none d h = h
add_arc-IsCounted nodes g (some (c, e)) d h =
    elim (Bool-cases (mem c nodes && mem e nodes && not (mem e (g.adj c)))) [
      | inl new ↦
          rw new (add_new-IsCounted nodes g c e d h (ground arith) (ground arith) (ground arith))
      | inr old ↦ rw old h
    ]

mem-add_arc :
    (nodes : List ℕ) (g : Dag) (p : Option (ℕ × ℕ)) (a b : ℕ)
    → mem b ((add_arc nodes g p).adj a)
      ≡ (mem b (g.adj a) || (is_pair a b p && (mem a nodes && mem b nodes)))
unfolding add_arc
mem-add_arc nodes g none a b = ground arith
mem-add_arc nodes g (some (c, d)) a b = ground arith

pub build-IsCounted :
    (nodes : List ℕ) (edges : List Arc) (g : Dag)
    → ((a : ℕ) → copies a nodes ≤ 1)
    → IsCounted nodes g
    → IsCounted nodes (build nodes edges g)
unfolding build
build-IsCounted nodes [] g d h = h
build-IsCounted nodes (e ∷ edges) g d h =
    build-IsCounted nodes edges (add_arc nodes g (precedence e)) d
      (add_arc-IsCounted nodes g (precedence e) d h)

pub mem-build :
    (nodes : List ℕ) (edges : List Arc) (g : Dag) (a b : ℕ)
    → mem b ((build nodes edges g).adj a)
      ≡ (mem b (g.adj a) || (has_arc a b edges && (mem a nodes && mem b nodes)))
unfolding build
mem-build nodes [] g a b = ground arith
mem-build nodes (e ∷ edges) g a b = ground (
  arith,
  mem-build nodes edges (add_arc nodes g (precedence e)) a b,
  mem-add_arc nodes g (precedence e) a b,
  is_pair-precedence a b e,
)

pending-zero : (ns : List ℕ) → pending (λ a. 0) [] ns ≡ 0
pending-zero [] = refl
pending-zero (n ∷ ns) = omega (arith, pending-zero ns)

pub no_arcs-IsCounted : (nodes : List ℕ) → IsCounted nodes no_arcs
no_arcs-IsCounted nodes = record {
  counted = λ b. sym (pending-zero nodes);
  once = λ a b. omega arith;
  inside = λ a b h. cc;
}

pub mem-set_of : (a : ℕ) (ns : List ℕ) → mem a (set_of ns) ≡ mem a ns
unfolding set_of
mem-set_of a [] = refl
mem-set_of a (n ∷ ns) = ground (arith, mem-set_of a ns, mem-set_of n ns)

pub set_of-IsDistinct : (ns : List ℕ) → IsDistinct (set_of ns)
unfolding set_of
set_of-IsDistinct [] = tt
set_of-IsDistinct (n ∷ ns) = ground (arith, set_of-IsDistinct ns)
