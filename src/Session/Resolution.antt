-- ===== src/Session/Resolution.antt =====
-- src/local_recall/session/safety.py, `resolve_idle_observations`: what the resolution comes to.
use local_recall.Common.{
  ℕ, ◌≡◌, refl, Bool, true, false, Bool-cases, inl, inr, not, ◌&&◌, List, [], ◌∷◌, any,
  if◌then◌else◌, Text, arith,
}
use local_recall.Session.{
  IdleState, idle, active, idle_unknown, IdleObservation, IdleSettings, is_idle, is_active,
  normalize_all, first_of, comes_first, having, select, resolve_idle_observations,
}

either-state :
    (p : IdleState → Bool) (test : Bool) (a b : IdleObservation)
    → p a.state ≡ true
    → p b.state ≡ true
    → p (if test then a else b).state ≡ true
either-state p true a b e f = e
either-state p false a b e f = f

first_of-state :
    (p : IdleState → Bool) (order : List Text) (best : IdleObservation) (l : List IdleObservation)
    → p best.state ≡ true
    → p (first_of order best (having p l)).state ≡ true
unfolding first_of having
first_of-state p order best [] e = e
first_of-state p order best (o ∷ l) e = elim (Bool-cases (p o.state)) [
  | inl f ↦ rw f (
      first_of-state p order (if comes_first order o best then o else best) l
        (either-state p (comes_first order o best) o best f e))
  | inr f ↦ rw f (first_of-state p order best l e)
]

select-state :
    (p : IdleState → Bool) (order : List Text) (now : ℕ) (l : List IdleObservation)
    → any (λ o. p o.state) l ≡ true
    → p (select order now (having p l)).state ≡ true
unfolding having
select-state p order now [] e = cc
select-state p order now (o ∷ l) e = elim (Bool-cases (p o.state)) [
  | inl f ↦ rw f (first_of-state p order o l f)
  | inr f ↦ rw f (select-state p order now l (let g = f in ground arith))
]

idle_only : (s : IdleState) → is_idle s ≡ true → is_active s ≡ false
idle_only idle e = refl
idle_only active e = cc
idle_only idle_unknown e = refl

active_only : (s : IdleState) → is_active s ≡ true → is_idle s ≡ false
active_only idle e = cc
active_only active e = refl
active_only idle_unknown e = refl

either-none :
    (p : IdleState → Bool) (test : Bool) (a b : IdleObservation)
    → p a.state ≡ false
    → p b.state ≡ false
    → p (if test then a else b).state ≡ false
either-none p true a b e f = e
either-none p false a b e f = f

first_of-none :
    (p : IdleState → Bool) (order : List Text) (best : IdleObservation) (l : List IdleObservation)
    → p best.state ≡ false
    → any (λ o. p o.state) l ≡ false
    → p (first_of order best l).state ≡ false
unfolding first_of
first_of-none p order best [] e f = e
first_of-none p order best (o ∷ l) e f =
    let g : p o.state ≡ false = ground arith in
    first_of-none p order (if comes_first order o best then o else best) l
      (either-none p (comes_first order o best) o best g e) (ground arith)

select-none :
    (p : IdleState → Bool) (order : List Text) (now : ℕ) (l : List IdleObservation)
    → p idle_unknown ≡ false
    → any (λ o. p o.state) l ≡ false
    → p (select order now l).state ≡ false
select-none p order now [] e f = e
select-none p order now (o ∷ l) e f = first_of-none p order o l (ground arith) (ground arith)

-- The observation that counts is idle exactly when some source is idle, after the check of its age and
-- of its seconds; it is active exactly when none is idle and some is active. The sources disagree
-- exactly when some is idle and some is active.
pub resolve_idle_observations-state :
    (settings : IdleSettings) (order : List Text) (now : ℕ) (l : List IdleObservation)
    → let n = normalize_all settings now l in
      let (seen, conflict) = resolve_idle_observations settings order now l in
      (is_idle seen.state ≡ any (λ o. is_idle o.state) n)
      × (is_active seen.state
          ≡ (not (any (λ o. is_idle o.state) n) && any (λ o. is_active o.state) n))
      × (conflict ≡ (any (λ o. is_idle o.state) n && any (λ o. is_active o.state) n))
unfolding resolve_idle_observations
resolve_idle_observations-state settings order now l =
    let n = normalize_all settings now l in
    elim (Bool-cases (any (λ o. is_idle o.state) n)) [
      | inl i ↦ let e = select-state is_idle order now n i in rw i (e, idle_only _ e, refl)
      | inr i ↦ elim (Bool-cases (any (λ o. is_active o.state) n)) [
        | inl a ↦
            let e = select-state is_active order now n a in rw (i, a) (active_only _ e, e, refl)
        | inr a ↦
            rw (i, a)
              (
                select-none is_idle order now n refl i,
                select-none is_active order now n refl a,
                refl,
              )
      ]
    ]
