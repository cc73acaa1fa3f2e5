-- ===== src/Realtime/Session/Entries.antt =====
-- backend/internal/realtime/session.go: the entries of a session beside the subscriptions that it
-- runs, one subscription at a time.
use pbvex.Base.{
  ℕ, ◌+◌, ◌≤◌, ◌<◌, ◌≡◌, refl, ◌==◌, Bool, Bool-cases, true, false, ◌⊎◌, inl, inr, none, some, List,
  [], ◌∷◌, length, map, any, All, arith,
}
use pbvex.Sql.{delete_rows}
use pbvex.Realtime.Broadcaster.{Subscription, mark_notified, cancel, run_once, receive_notify}
use pbvex.Realtime.Session.{Session, lookup, forget}

abbrev pub is_running : ℕ → List (ℕ × ℕ) → Bool
is_running sub l = any (λ e. e.0 == sub) l

abbrev pub is_awaited : ℕ → List ℕ → Bool
is_awaited sub l = any (λ p. p == sub) l

-- A registered subscription that this session runs has been cancelled, or is about to be by a call
-- that removed its entry, or the entry of its id names it.
abbrev pub IsEntered : List ℕ → List (ℕ × ℕ) → List (ℕ × ℕ) → Subscription → Type 0
IsEntered cancelling running subs s =
    is_running s.handle running ≡ false
    ⊎ s.cancelled ≡ true
    ⊎ is_awaited s.handle cancelling ≡ true
    ⊎ lookup s.id subs ≡ some s.handle

abbrev pub IsOld : ℕ → Subscription → Type 0
IsOld fresh s = s.handle < fresh

module _ (P Q : Subscription → Type 0) where
  pub All-mapped :
      (f : Subscription → Subscription) (l : List Subscription)
      → ((s : Subscription) → P s → Q (f s))
      → All P l
      → All Q (map f l)
  All-mapped f [] k h = tt
  All-mapped f (x ∷ xs) k h = (k x h.0, All-mapped f xs k h.1)

  pub All-both :
      {R : Subscription → Type 0} (l : List Subscription)
      → ((s : Subscription) → P s → Q s → R s)
      → All P l
      → All Q l
      → All R l
  All-both [] k h i = tt
  All-both (x ∷ xs) k h i = (k x h.0 i.0, All-both xs k h.1 i.1)

pub All-pairs :
    (P Q : ℕ × ℕ → Type 0) (l : List (ℕ × ℕ)) → ((e : ℕ × ℕ) → P e → Q e) → All P l → All Q l
All-pairs P Q [] k h = tt
All-pairs P Q (x ∷ xs) k h = (k x h.0, All-pairs P Q xs k h.1)

pub not_running :
    (fresh : ℕ) (l : List (ℕ × ℕ)) → All (λ e. e.0 < fresh) l → is_running fresh l ≡ false
not_running fresh [] h = refl
not_running fresh (x ∷ xs) h = let ih = not_running fresh xs h.1 in let lt = h.0 in ground arith

pub is_running-delete :
    (sub other : ℕ) (l : List (ℕ × ℕ))
    → is_running other l ≡ false
    → is_running other (delete_rows (λ e. e.0 == sub) l) ≡ false
unfolding delete_rows
is_running-delete sub other [] h = refl
is_running-delete sub other (x ∷ xs) h = let ih = is_running-delete sub other xs in ground arith

pub lookup-delete_other :
    (id other : ℕ) (m : List (ℕ × ℕ))
    → (id == other) ≡ false
    → lookup other (delete_rows (λ e. e.0 == id) m) ≡ lookup other m
unfolding lookup delete_rows
lookup-delete_other id other [] d = refl
lookup-delete_other id other ((a, k) ∷ m) d =
    let ih = lookup-delete_other id other m d in ground arith

pub length-delete : (id : ℕ) (m : List (ℕ × ℕ)) → length (delete_rows (λ e. e.0 == id) m) ≤ length m
unfolding delete_rows
length-delete id [] = omega arith
length-delete id ((a, k) ∷ m) = let ih = length-delete id m in ground arith

-- A change that keeps the pointer and the id, and that revives no subscription.
pub record IsTame (f : Subscription → Subscription) : Type 0 where
  pub handle : (s : Subscription) → (f s).handle ≡ s.handle
  pub id : (s : Subscription) → (f s).id ≡ s.id
  pub cancelled : (s : Subscription) → s.cancelled ≡ true → (f s).cancelled ≡ true

module _ (f : Subscription → Subscription) (tame : IsTame f) where
  pub tame-IsEntered :
      (q : List ℕ) (r m : List (ℕ × ℕ)) (s : Subscription)
      → IsEntered q r m s
      → IsEntered q r m (f s)
  tame-IsEntered q r m s h =
      rw (tame.handle s, tame.id s)
        (elim h [
          | inl n ↦ inl n
          | inr (inl k) ↦ inr (inl (tame.cancelled s k))
          | inr (inr l) ↦ inr (inr l)
        ])

  pub tame-IsOld : (fresh : ℕ) (s : Subscription) → IsOld fresh s → IsOld fresh (f s)
  tame-IsOld fresh s h = rw (tame.handle s) h

pub cancel-IsTame : IsTame cancel
cancel-IsTame = record { handle = λ s. refl; id = λ s. refl; cancelled = λ s h. refl }

pub mark_notified-IsTame : IsTame mark_notified
mark_notified-IsTame = record { handle = λ s. refl; id = λ s. refl; cancelled = λ s h. h }

pub run_once-IsTame : (denied : Bool) (version : ℕ) → IsTame (run_once denied version)
unfolding run_once
run_once-IsTame denied version = record {
  handle = λ s. ground arith;
  id = λ s. ground arith;
  cancelled = λ s h. ground arith;
}

pub receive_notify-IsTame : IsTame receive_notify
unfolding receive_notify
receive_notify-IsTame = record {
  handle = λ s. ground arith;
  id = λ s. ground arith;
  cancelled = λ s h. ground arith;
}

-- The subscription that takes the next pointer leaves the others as they are.
pub fresh_entry :
    (fresh id : ℕ) (q : List ℕ) (r m : List (ℕ × ℕ)) (s : Subscription)
    → lookup id m ≡ none
    → IsEntered q r m s
    → IsOld fresh s
    → IsEntered q ((fresh, id) ∷ r) ((id, fresh) ∷ m) s
unfolding lookup
fresh_entry fresh id q r m s absent h lt = ground arith

-- What `remove` leaves of a subscription: its entry stays, or its pointer is to be cancelled.
pub removed-IsEntered :
    (id sub : ℕ) (q : List ℕ) (r m : List (ℕ × ℕ)) (s : Subscription)
    → lookup id m ≡ some sub
    → IsEntered q r m s
    → IsEntered (sub ∷ q) r (delete_rows (λ e. e.0 == id) m) s
removed-IsEntered id sub q r m s found h = elim h [
  | inl n ↦ inl n
  | inr (inl k) ↦ inr (inl k)
  | inr (inr (inl a)) ↦ inr (inr (inl (ground arith)))
  | inr (inr (inr l)) ↦ elim (Bool-cases (id == s.id)) [
    | inl same ↦ inr (inr (inl (ground arith)))
    | inr other ↦ inr (inr (inr (rw (lookup-delete_other id s.id m other) l)))
  ]
]

pub absent-IsEntered :
    (id : ℕ) (q : List ℕ) (r m : List (ℕ × ℕ)) (s : Subscription)
    → lookup id m ≡ none
    → IsEntered q r m s
    → IsEntered q r (delete_rows (λ e. e.0 == id) m) s
absent-IsEntered id q r m s absent h = elim h [
  | inl n ↦ inl n
  | inr (inl k) ↦ inr (inl k)
  | inr (inr (inl a)) ↦ inr (inr (inl a))
  | inr (inr (inr l)) ↦ elim (Bool-cases (id == s.id)) [
    | inl same ↦ absurd (ground arith)
    | inr other ↦ inr (inr (inr (rw (lookup-delete_other id s.id m other) l)))
  ]
]

is_awaited-delete :
    (sub other : ℕ) (q : List ℕ)
    → (other == sub) ≡ false
    → is_awaited other q ≡ true
    → is_awaited other (delete_rows (λ p. p == sub) q) ≡ true
unfolding delete_rows
is_awaited-delete sub other [] d h = h
is_awaited-delete sub other (p ∷ q) d h = let ih = is_awaited-delete sub other q d in ground arith

-- What the cancel after `remove` leaves of the other subscriptions.
pub spared-IsEntered :
    (sub : ℕ) (q : List ℕ) (r m : List (ℕ × ℕ)) (s : Subscription)
    → (s.handle == sub) ≡ false
    → IsEntered q r m s
    → IsEntered (delete_rows (λ p. p == sub) q) r m s
spared-IsEntered sub q r m s d h = elim h [
  | inl n ↦ inl n
  | inr (inl k) ↦ inr (inl k)
  | inr (inr (inl a)) ↦ inr (inr (inl (is_awaited-delete sub s.handle q d a)))
  | inr (inr (inr l)) ↦ inr (inr (inr l))
]

pub raised-IsOld : (fresh : ℕ) (s : Subscription) → IsOld fresh s → IsOld (fresh + 1) s
raised-IsOld fresh s h = omega arith

pub raised_running :
    (fresh : ℕ) (l : List (ℕ × ℕ)) → All (λ e. e.0 < fresh) l → All (λ e. e.0 < fresh + 1) l
raised_running fresh l h = All-pairs _ _ l (λ e k. omega arith) h

pub forget-running :
    (sub id : ℕ) (s : Session) → (forget sub id s).running ≡ delete_rows (λ e. e.0 == sub) s.running
unfolding forget
forget-running sub id s = ground arith

pub lookup-forget :
    (sub id : ℕ) (s : Session) (x : Subscription)
    → (x.handle == sub) ≡ false
    → lookup x.id s.subs ≡ some x.handle
    → lookup x.id (forget sub id s).subs ≡ some x.handle
unfolding forget
lookup-forget sub id s x d l = elim (Bool-cases (id == x.id)) [
  | inl e ↦ ground arith
  | inr e ↦ let other = lookup-delete_other id x.id s.subs e in ground arith
]

pub length-forget : (sub id : ℕ) (s : Session) → length (forget sub id s).subs ≤ length s.subs
unfolding forget
length-forget sub id s = let le = length-delete id s.subs in ground arith

-- What `forget` leaves: the subscription that stays registered is another one.
pub forgotten-IsEntered :
    (sub id : ℕ) (q : List ℕ) (s : Session) (x : Subscription)
    → (x.handle == sub) ≡ false
    → IsEntered q s.running s.subs x
    → IsEntered q (forget sub id s).running (forget sub id s).subs x
forgotten-IsEntered sub id q s x d h = elim h [
  | inl n ↦ inl (rw (forget-running sub id s) (is_running-delete sub x.handle s.running n))
  | inr (inl k) ↦ inr (inl k)
  | inr (inr (inl a)) ↦ inr (inr (inl a))
  | inr (inr (inr l)) ↦ inr (inr (inr (lookup-forget sub id s x d l)))
]
