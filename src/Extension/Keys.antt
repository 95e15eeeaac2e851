-- ===== src/Extension/Keys.antt =====
-- The order of the keys of `linearize` in crates/lichtung-replay/src/extension.rs, and its heap in that
-- order.
use lichtung.Prelude.{
  ℕ, zero, suc, String, Ordering, List, [], ◌∷◌, Bool, true, false, ◌-◌, ◌==◌, ◌<◌, ◌≡◌, ◌∙◌, refl,
  arith, ap, sym, get_or, inl, inr, Bool-cases, if◌then◌else◌, ==_iff,
}
use lichtung.Prelude.Counts.{count, one_if}
use lichtung.Prelude.Keys.{compare_str, Before-trans, compare-swap}
use text.Mathlib.TextEquality.{path_by_compare}
use lichtung.Log.{CausalEvent}
use lichtung.Extension.{Key, key, compare_key, Heap, heap_push, Kahn, seed, relax}
use lichtung.Extension.Relax.{queued}

abbrev pub at_most : Ordering → Bool
at_most Ordering.gt = false
at_most _ = true

abbrev pub le_key : Key → Key → Bool
le_key a b = at_most (compare_key a b)

-- How the comparison of two texts follows from those with a third one.
text_lt :
    (a b c : String)
    → compare_str a b ≡ Ordering.lt
    → compare_str b c ≡ Ordering.lt
    → compare_str a c ≡ Ordering.lt
text_lt a b c h k = Before-trans a b c h k

text_eq_left : (a b c : String) → compare_str a b ≡ Ordering.eq → compare_str a c ≡ compare_str b c
text_eq_left a b c h = ap (λ s. compare_str s c) (path_by_compare a b h)

text_eq_right : (a b c : String) → compare_str b c ≡ Ordering.eq → compare_str a c ≡ compare_str a b
text_eq_right a b c h = ap (compare_str a) (sym (path_by_compare b c h))

pub le_key_trans : (a b c : Key) → le_key a b ≡ true → le_key b c ≡ true → le_key a c ≡ true
unfolding compare_key
le_key_trans a b c h k = ground (
  arith,
  text_lt a.actor b.actor c.actor,
  text_eq_left a.actor b.actor c.actor,
  text_eq_right a.actor b.actor c.actor,
)

pub le_key_total : (a b : Key) → compare_key a b ≡ Ordering.gt → le_key b a ≡ true
unfolding compare_key
le_key_total a b h = ground (arith, compare-swap a.actor b.actor)

le_key_refl : (a : Key) → le_key a a ≡ true
le_key_refl a = cases (compare_key a a) refl
  where
    cases : (o : Ordering) → compare_key a a ≡ o → le_key a a ≡ true
    cases Ordering.gt h = le_key_total a a h
    cases Ordering.eq h = ap at_most h
    cases Ordering.lt h = ap at_most h

module _ (events : List CausalEvent) where
  abbrev pub AllAbove : Key → Heap → Type 0
  AllAbove k [] = Unit
  AllAbove k (j ∷ h) = (le_key k j ≡ true) × AllAbove k h

  -- The keys ascend, and each is the key of its event.
  unfoldable pub IsHeap : Heap → Type 0
  IsHeap [] = Unit
  IsHeap (k ∷ h) = (k ≡ key events k.index) × AllAbove k h × IsHeap h

  AllAbove-trans : (a b : Key) (h : Heap) → le_key a b ≡ true → AllAbove b h → AllAbove a h
  AllAbove-trans a b [] l s = tt
  AllAbove-trans a b (k ∷ h) l (m, s) = (le_key_trans a b k l m, AllAbove-trans a b h l s)

  AllAbove-heap_push :
      (a k : Key) (h : Heap) → le_key a k ≡ true → AllAbove a h → AllAbove a (heap_push k h)
  unfolding heap_push
  AllAbove-heap_push a k [] l s = (l, tt)
  AllAbove-heap_push a k (j ∷ h) l (m, s) = by_case (compare_key k j) (AllAbove-heap_push a k h l s)
    where
      by_case :
          (o : Ordering)
          → AllAbove a (heap_push k h)
          → AllAbove a (elim o [ Ordering.gt ↦ j ∷ heap_push k h | _ ↦ k ∷ j ∷ h ])
      by_case Ordering.gt rest = (m, rest)
      by_case Ordering.eq rest = (l, (m, s))
      by_case Ordering.lt rest = (l, (m, s))

  heap_push-IsHeap : (i : ℕ) (h : Heap) → IsHeap h → IsHeap (heap_push (key events i) h)
  unfolding heap_push IsHeap
  heap_push-IsHeap i [] s = (refl, tt, tt)
  heap_push-IsHeap i (j ∷ h) (e, above, s) = by_case (compare_key k j) refl (heap_push-IsHeap i h s)
    where
      k : Key
      k = key events i

      first : le_key k j ≡ true → IsHeap (k ∷ j ∷ h)
      first l = (refl, (l, AllAbove-trans k j h l above), (e, above, s))

      by_case :
          (o : Ordering)
          → compare_key k j ≡ o
          → IsHeap (heap_push k h)
          → IsHeap (elim o [ Ordering.gt ↦ j ∷ heap_push k h | _ ↦ k ∷ j ∷ h ])
      by_case Ordering.gt q rest = (e, AllAbove-heap_push j k h (le_key_total k j q) above, rest)
      by_case Ordering.eq q rest = first (ap at_most q)
      by_case Ordering.lt q rest = first (ap at_most q)

  pub seed-IsHeap :
      (left i : ℕ) (indeg : List ℕ) (h : Heap) → IsHeap h → IsHeap (seed events left i indeg h)
  unfolding seed
  seed-IsHeap zero i indeg h s = s
  seed-IsHeap (suc left) i indeg h s =
      seed-IsHeap left (suc i) indeg _ (pushed (get_or indeg i 0 == 0))
    where
      pushed : (b : Bool) → IsHeap (if b then heap_push (key events i) h else h)
      pushed true = heap_push-IsHeap i h s
      pushed false = s

  pub relax-IsHeap :
      (targets : List ℕ) (s : Kahn) → IsHeap s.heap → IsHeap (relax events targets s).heap
  unfolding relax
  relax-IsHeap [] s h = h
  relax-IsHeap (j ∷ targets) s h = relax-IsHeap targets _ (pushed (get_or s.indeg j 0 - 1 == 0))
    where
      pushed : (b : Bool) → IsHeap (if b then heap_push (key events j) s.heap else s.heap)
      pushed true = heap_push-IsHeap j s.heap h
      pushed false = h

  AllAbove-queued :
      (k : Key) (h : Heap) (j : ℕ)
      → AllAbove k h
      → IsHeap h
      → 0 < count j (queued h)
      → le_key k (key events j) ≡ true
  unfolding count IsHeap
  AllAbove-queued k [] j a s c = absurd (omega arith)
  AllAbove-queued k (l ∷ h) j (m, a) (e, above, s) c = elim (Bool-cases (l.index == j)) [
    | inl here ↦ rw (e ∙ ap (key events) ((==_iff l.index j).0 here)) at m
    | inr there ↦ AllAbove-queued k h j a s (omega (arith, ap one_if there))
  ]

  -- What is popped is the least of the queued keys.
  pub popped_least :
      (k : Key) (h : Heap) (j : ℕ)
      → IsHeap (k ∷ h)
      → 0 < count j (queued (k ∷ h))
      → le_key (key events k.index) (key events j) ≡ true
  unfolding IsHeap count
  popped_least k h j (e, above, s) c = elim (Bool-cases (k.index == j)) [
    | inl here ↦ rw ((==_iff k.index j).0 here) (le_key_refl (key events j))
    | inr there ↦ rw e at (AllAbove-queued k h j above s (omega (arith, ap one_if there)))
  ]

  pub IsHeap-tail : (k : Key) (h : Heap) → IsHeap (k ∷ h) → IsHeap h
  unfolding IsHeap
  IsHeap-tail k h s = s.2
