-- ===== src/Engine/Visit.antt =====
-- One round of the search of `concurrent_pairs` in crates/lichtung-replay/src/engine.rs.
use lichtung.Prelude.{
  ℕ, zero, suc, List, [], ◌∷◌, Bool, true, false, ◌+◌, ◌<◌, ◌≡◌, refl, ◌⊎◌, inl, inr, ◌↔◌, arith,
  In, sym, ◌∙◌, Bool-cases, length, get_or, set, replicate, length-set, get_or-set_self,
  get_or-set_ne, ℕ_discrete, if◌then◌else◌,
}
use lichtung.Poset.{Edge}
use lichtung.Extension.Degrees.{targets}
use lichtung.Engine.{Search, visit}

pub In-targets : (edges : List Edge) (u v : ℕ) → In v (targets u edges) ↔ In (u, v) edges
unfolding targets
In-targets [] u v = ground arith
In-targets ((a, b) ∷ edges) u v = ground (arith, In-targets edges u v)

abbrev pub marked : Search → ℕ → Bool
marked s v = get_or s.seen v false

abbrev mark : ℕ → Search → Search
mark v s = record { seen = set s.seen v true; stack = v ∷ s.stack }

pub unseen : List Bool → ℕ
unseen [] = 0
unseen (b ∷ bs) = (if b then 0 else 1) + unseen bs

unseen-set :
    (bs : List Bool) (v : ℕ)
    → v < length bs
    → get_or bs v false ≡ false
    → unseen bs ≡ suc (unseen (set bs v true))
unfolding unseen
unseen-set [] v lt h = absurd (omega arith)
unseen-set (b ∷ bs) zero lt h = ground arith
unseen-set (b ∷ bs) (suc v) lt h = omega (arith, unseen-set bs v (omega arith) h)

pub unseen-replicate : (n : ℕ) → unseen (replicate n false) ≡ n
unfolding unseen
unseen-replicate zero = refl
unseen-replicate (suc n) = omega (arith, unseen-replicate n)

-- A mark never falls in range; out of range nothing is marked.
marked-set :
    (bs : List Bool) (v w : ℕ)
    → get_or (set bs v true) w false ≡ true
    → (get_or bs w false ≡ true) ⊎ (w ≡ v)
marked-set bs v w h = elim (ℕ_discrete v w) [
  | yes e ↦ inr (sym e)
  | no e ↦ inl (sym (get_or-set_ne bs v w true false e) ∙ h)
]

marked-set_old :
    (bs : List Bool) (v w : ℕ) → get_or bs w false ≡ true → get_or (set bs v true) w false ≡ true
marked-set_old [] v w h = h
marked-set_old (b ∷ bs) zero zero h = refl
marked-set_old (b ∷ bs) zero (suc w) h = h
marked-set_old (b ∷ bs) (suc v) zero h = h
marked-set_old (b ∷ bs) (suc v) (suc w) h = marked-set_old bs v w h

-- What the loop over the successors does: marks and stack grow together.
pub record Visited (vs : List ℕ) (s t : Search) : Type 0 where
  pub size : length t.seen ≡ length s.seen
  pub work : unseen t.seen + length t.stack ≡ unseen s.seen + length s.stack
  pub keeps : (w : ℕ) → marked s w ≡ true → marked t w ≡ true
  pub marks : (w : ℕ) → In w vs → marked t w ≡ true
  pub only : (w : ℕ) → marked t w ≡ true → (marked s w ≡ true) ⊎ (In w vs × In w t.stack)
  pub holds : (w : ℕ) → In w s.stack → In w t.stack
  pub pushed : (w : ℕ) → In w t.stack → In w s.stack ⊎ In w vs

abbrev pub AllLt : ℕ → List ℕ → Type 0
AllLt n [] = Unit
AllLt n (v ∷ vs) = (v < n) × AllLt n vs

pub visit-Visited :
    (vs : List ℕ) (s : Search) → AllLt (length s.seen) vs → Visited vs s (visit vs s)
unfolding visit
visit-Visited [] s lt = record {
  size = refl;
  work = refl;
  keeps = λ w h. h;
  marks = λ w m. elim m [ ];
  only = λ w h. inl h;
  holds = λ w m. m;
  pushed = λ w m. inl m;
}
visit-Visited (v ∷ vs) s lt = elim (Bool-cases (marked s v)) [
  | inl old ↦ rw old (seen_before old (visit-Visited vs s lt.1))
  | inr new ↦ rw new (seen_now new (visit-Visited vs (mark v s) (rw length-set lt.1)))
]
  where
    seen_before : marked s v ≡ true → Visited vs s (visit vs s) → Visited (v ∷ vs) s (visit vs s)
    seen_before old h = record {
      size = h.size;
      work = h.work;
      keeps = h.keeps;
      marks = λ w m. marks_before old h w m;
      only = λ w m. only_later (h.only w m);
      holds = h.holds;
      pushed = λ w m. later_push (h.pushed w m);
    }
      where
        marks_before :
            marked s v ≡ true
            → Visited vs s (visit vs s)
            → (w : ℕ) → In w (v ∷ vs)
            → marked (visit vs s) w ≡ true
        marks_before old' h' w (inl e) = h'.keeps w (rw e old')
        marks_before old' h' w (inr m) = h'.marks w m

        only_later :
            {w : ℕ}
            → (marked s w ≡ true) ⊎ (In w vs × In w (visit vs s).stack)
            → (marked s w ≡ true) ⊎ (In w (v ∷ vs) × In w (visit vs s).stack)
        only_later (inl m) = inl m
        only_later (inr (m, k)) = inr (inr m, k)

        later_push : {w : ℕ} → In w s.stack ⊎ In w vs → In w s.stack ⊎ In w (v ∷ vs)
        later_push (inl m) = inl m
        later_push (inr m) = inr (inr m)

    seen_now :
        marked s v ≡ false
        → Visited vs (mark v s) (visit vs (mark v s))
        → Visited (v ∷ vs) s (visit vs (mark v s))
    seen_now new h = record {
      size = h.size ∙ length-set s.seen v true;
      work = omega (arith, h.work, unseen-set s.seen v lt.0 new);
      keeps = λ w m. h.keeps w (marked-set_old s.seen v w m);
      marks = λ w m. marks_now w m;
      only = λ w m. only_now w (h.only w m);
      holds = λ w m. h.holds w (inr m);
      pushed = λ w m. push_now (h.pushed w m);
    }
      where
        t : Search
        t = visit vs (mark v s)

        marks_now : (w : ℕ) → In w (v ∷ vs) → marked t w ≡ true
        marks_now w (inl e) = rw e (h.keeps v (get_or-set_self s.seen v true false lt.0))
        marks_now w (inr m) = h.marks w m

        from_set :
            (w : ℕ)
            → (marked s w ≡ true) ⊎ (w ≡ v)
            → (marked s w ≡ true) ⊎ (In w (v ∷ vs) × In w t.stack)
        from_set w (inl m) = inl m
        from_set w (inr e) = inr (inl e, h.holds w (inl e))

        only_now :
            (w : ℕ)
            → (marked (mark v s) w ≡ true) ⊎ (In w vs × In w t.stack)
            → (marked s w ≡ true) ⊎ (In w (v ∷ vs) × In w t.stack)
        only_now w (inl m) = from_set w (marked-set s.seen v w m)
        only_now w (inr (m, k)) = inr (inr m, k)

        push_now : {w : ℕ} → In w (v ∷ s.stack) ⊎ In w vs → In w s.stack ⊎ In w (v ∷ vs)
        push_now (inl (inl e)) = inr (inl e)
        push_now (inl (inr m)) = inl m
        push_now (inr m) = inr (inr m)
