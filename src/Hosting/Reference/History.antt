-- ===== src/Hosting/Reference/History.antt =====
-- backend/hosting/reference.go: the recorded phases of a reservation and its state.
use pbvex.Base.{
  ℕ, ◌≡◌, refl, sym, ap, ◌∙◌, ◌==◌, Bool, Bool-cases, true, false, ◌&&◌, inl, inr, Option, none,
  some, List, [], ◌∷◌, any, All, same, same_eq, same_self, arith, if◌then◌else◌,
}
use pbvex.Sql.{find_row}
use pbvex.Hosting.Reference.{Admission, ReferenceService, state_of, set_state, may_follow, covers}
use pbvex.Hosting.Protocol.{Phase, admitted, started, completed, released, Event}

-- The phases that were recorded for a reservation, the newest first.
abbrev pub history : List ℕ → List Event → List Phase
history r [] = []
history r (e ∷ es) = if same e.reservation_id r then e.phase ∷ history r es else history r es

-- The phases that lead to a state.
abbrev pub path : Option Phase → List Phase
path (some started) = started ∷ []
path (some completed) = completed ∷ started ∷ []
path (some released) = released ∷ []
path _ = []

abbrev pub is_for : Event → Admission → Bool
is_for e a = same a.decision.reservation_id e.reservation_id && covers e a

abbrev pub takes_place : Event → Event → Bool
takes_place e old =
    same old.operation.session_id e.operation.session_id && old.sequence == e.sequence

abbrev pub same_invocation : Admission → Admission → Bool
same_invocation a old =
    same old.request.operation.id a.request.operation.id
    && same old.request.operation.session_id a.request.operation.session_id

-- No element clashes with one behind it.
module _ {ℓ} {A : Type ℓ} (clash : A → A → Bool) where
  abbrev pub Apart : List A → Type 0
  Apart [] = Unit
  Apart (x ∷ xs) = (any (clash x) xs ≡ false) × Apart xs

-- Texts that differ do not both equal a third.
pub differs : (j k r : List ℕ) → same j k ≡ false → same j r ≡ true → same k r ≡ false
differs j k r d e = elim (Bool-cases (same k r)) [
  | inr n ↦ n
  | inl y ↦
      let eq : j ≡ k = same_eq j r e ∙ sym (same_eq k r y) in
      absurd (ground (arith, same_self k, ap (λ (t : List ℕ). same t k) eq))
]

pub state_of-set :
    (k r : List ℕ) (p : Phase) (m : List (List ℕ × Phase))
    → state_of r (set_state k p m) ≡ (if same k r then some p else state_of r m)
unfolding state_of set_state
state_of-set k r p [] = refl
state_of-set k r p ((j, q) ∷ m) = elim (Bool-cases (same j k)) [
  | inl e ↦ let eq : j ≡ k = same_eq j k e in ground (arith, ap (λ (t : List ℕ). same t r) eq)
  | inr e ↦ let ih = state_of-set k r p m in let d = differs j k r e in ground arith
]

pub follows :
    (l : List Phase) (p : Phase) (st : Option Phase)
    → may_follow st p ≡ true
    → l ≡ path st
    → (p ∷ l) ≡ path (some p)
unfolding may_follow
follows l p st h k = ground arith

-- A recorded event leads every reservation's history to its state.
pub history-path :
    (e : Event) (s : ReferenceService) (r : List ℕ)
    → history r s.events ≡ path (state_of r s.states)
    → history e.reservation_id s.events ≡ path (state_of e.reservation_id s.states)
    → may_follow (state_of e.reservation_id s.states) e.phase ≡ true
    → history r (e ∷ s.events) ≡ path (state_of r (set_state e.reservation_id e.phase s.states))
unfolding may_follow
history-path e s r all own ok_phase = elim (Bool-cases (same e.reservation_id r)) [
  | inr d ↦ rw (state_of-set e.reservation_id r e.phase s.states, d) all
  | inl q ↦
      rw (state_of-set e.reservation_id r e.phase s.states, q)
        (follows (history r s.events) e.phase (state_of e.reservation_id s.states) ok_phase
          (ap (λ (t : List ℕ). history t s.events) (sym (same_eq e.reservation_id r q)) ∙ own))
]

-- A new reservation has no history.
pub admitted-path :
    (id r : List ℕ) (s : ReferenceService)
    → state_of id s.states ≡ none
    → history r s.events ≡ path (state_of r s.states)
    → history r s.events ≡ path (state_of r (set_state id admitted s.states))
admitted-path id r s fresh h = elim (Bool-cases (same id r)) [
  | inr d ↦ rw (state_of-set id r admitted s.states, d) h
  | inl q ↦
      rw (state_of-set id r admitted s.states, q)
        (h ∙ ap path (ap (λ (t : List ℕ). state_of t s.states) (sym (same_eq id r q)) ∙ fresh))
]

pub All-covered :
    (a : Admission) (as_ : List Admission) (es : List Event)
    → All (λ e. any (is_for e) as_ ≡ true) es
    → All (λ e. any (is_for e) (a ∷ as_) ≡ true) es
All-covered a as_ [] h = tt
All-covered a as_ (e ∷ es) h = (ground (arith, h.0), All-covered a as_ es h.1)

pub find-covered :
    (e : Event) (l : List Admission) {a : Admission}
    → find_row (λ a. same a.decision.reservation_id e.reservation_id) l ≡ some a
    → covers e a ≡ true
    → any (is_for e) l ≡ true
unfolding find_row
find-covered e [] h k = absurd (ground arith)
find-covered e (x ∷ xs) {a} h k =
    elim (Bool-cases (same x.decision.reservation_id e.reservation_id)) [
      | inl q ↦ ground arith
      | inr q ↦ ground (arith, find-covered e xs {a = a} (ground arith) k)
    ]
