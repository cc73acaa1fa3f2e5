-- ===== src/Realtime/Broadcaster/Limits.antt =====
-- backend/internal/realtime/realtime.go: the limits on streams, over any order of admissions and
-- releases.
use pbvex.Base.{
  ℕ, ◌+◌, ◌-◌, ◌≤◌, ◌<◌, ◌≡◌, refl, ◌==◌, leb, Bool, Bool-cases, true, false, inl, inr, List, [],
  ◌∷◌, length, arith, if◌then◌else◌,
}
use pbvex.Realtime.Broadcaster.{
  Config, Streams, per_ip_count, set_per_ip, delete_per_ip, acquire_conn_per_ip,
  release_conn_per_ip, Admitted, not_acceptable, limit_reached, per_ip_limit_reached, stream_open,
  admit_stream, release_stream,
}

-- The streams of one address among the open ones.
abbrev pub open_of : ℕ → List ℕ → ℕ
open_of ip [] = 0
open_of ip (a ∷ rest) = (if a == ip then 1 else 0) + open_of ip rest

-- The open streams without one of that address.
abbrev pub without_one : ℕ → List ℕ → List ℕ
without_one ip [] = []
without_one ip (a ∷ rest) = let kept = without_one ip rest in if a == ip then rest else a ∷ kept

-- The counters, with the addresses of the streams that are open.
pub record Gate : Type 0 where
  pub streams : Streams
  pub streaming : List ℕ

abbrev pub opened : Admitted → ℕ → List ℕ → List ℕ
opened stream_open ip streaming = ip ∷ streaming
opened not_acceptable ip streaming = streaming
opened limit_reached ip streaming = streaming
opened per_ip_limit_reached ip streaming = streaming

-- One request for a stream, or the end of one open stream.
pub data Move (c : Config) (g : Gate) : Gate → Type 0 where
  asks :
      (accepts : Bool) (ip : ℕ)
      → Move c g (record {
        streams = (admit_stream c accepts ip g.streams).0;
        streaming = opened (admit_stream c accepts ip g.streams).1 ip g.streaming;
      })
  ends :
      (ip : ℕ)
      → 0 < open_of ip g.streaming
      → Move c g
          (record { streams = release_stream ip g.streams; streaming = without_one ip g.streaming })

pub data Moves (c : Config) (g : Gate) : Gate → Type 0 where
  still : Moves c g g
  moves : {h k : Gate} → Moves c g h → Move c h k → Moves c g k

-- The counters count the open streams, within the limits.
pub record IsCounted (c : Config) (g : Gate) : Type 0 where
  pub conns : g.streams.conns ≡ length g.streaming
  pub bounded : length g.streaming ≤ c.max_connections
  pub per_ip : (ip : ℕ) → per_ip_count ip g.streams.per_ip ≡ open_of ip g.streaming
  pub per_ip_bounded : (ip : ℕ) → open_of ip g.streaming ≤ c.max_connections_per_ip

per_ip_count-set_self : (ip n : ℕ) (m : List (ℕ × ℕ)) → per_ip_count ip (set_per_ip ip n m) ≡ n
unfolding per_ip_count set_per_ip
per_ip_count-set_self ip n [] = ground arith
per_ip_count-set_self ip n ((a, k) ∷ m) = elim (Bool-cases (a == ip)) [
  | inl e ↦ rw (e, e) refl
  | inr e ↦ rw (e, e) (per_ip_count-set_self ip n m)
]

per_ip_count-set_other :
    (ip other n : ℕ) (m : List (ℕ × ℕ))
    → (ip == other) ≡ false
    → per_ip_count other (set_per_ip ip n m) ≡ per_ip_count other m
unfolding per_ip_count set_per_ip
per_ip_count-set_other ip other n [] d = rw d refl
per_ip_count-set_other ip other n ((a, k) ∷ m) d =
    let ih = per_ip_count-set_other ip other n m d in ground arith

per_ip_count-delete_self : (ip : ℕ) (m : List (ℕ × ℕ)) → per_ip_count ip (delete_per_ip ip m) ≡ 0
unfolding per_ip_count delete_per_ip
per_ip_count-delete_self ip [] = refl
per_ip_count-delete_self ip ((a, k) ∷ m) = let ih = per_ip_count-delete_self ip m in ground arith

per_ip_count-delete_other :
    (ip other : ℕ) (m : List (ℕ × ℕ))
    → (ip == other) ≡ false
    → per_ip_count other (delete_per_ip ip m) ≡ per_ip_count other m
unfolding per_ip_count delete_per_ip
per_ip_count-delete_other ip other [] d = refl
per_ip_count-delete_other ip other ((a, k) ∷ m) d =
    let ih = per_ip_count-delete_other ip other m d in ground arith

length-without_one :
    (ip : ℕ) (l : List ℕ) → 0 < open_of ip l → length (without_one ip l) + 1 ≡ length l
length-without_one ip [] h = ground arith
length-without_one ip (a ∷ rest) h = elim (Bool-cases (a == ip)) [
  | inl e ↦ rw e (omega arith)
  | inr e ↦ rw e (omega (arith, length-without_one ip rest (ground arith)))
]

open_of-without_self : (ip : ℕ) (l : List ℕ) → open_of ip (without_one ip l) ≡ open_of ip l - 1
open_of-without_self ip [] = refl
open_of-without_self ip (a ∷ rest) = let ih = open_of-without_self ip rest in ground arith

open_of-without_other :
    (ip other : ℕ) (l : List ℕ)
    → (ip == other) ≡ false
    → open_of other (without_one ip l) ≡ open_of other l
open_of-without_other ip other [] d = refl
open_of-without_other ip other (a ∷ rest) d =
    let ih = open_of-without_other ip other rest d in ground arith

-- A release lowers the count of its own address by one, and no other count.
release-count_self :
    (ip : ℕ) (m : List (ℕ × ℕ)) → per_ip_count ip (release_conn_per_ip ip m) ≡ per_ip_count ip m - 1
unfolding release_conn_per_ip
release-count_self ip m =
    let set = per_ip_count-set_self ip (per_ip_count ip m - 1) m in
    let gone = per_ip_count-delete_self ip m in
    let both = per_ip_count-delete_self ip (set_per_ip ip (per_ip_count ip m - 1) m) in ground arith

release-count_other :
    (ip other : ℕ) (m : List (ℕ × ℕ))
    → (ip == other) ≡ false
    → per_ip_count other (release_conn_per_ip ip m) ≡ per_ip_count other m
unfolding release_conn_per_ip
release-count_other ip other m d =
    let set = per_ip_count-set_other ip other (per_ip_count ip m - 1) m d in
    let gone = per_ip_count-delete_other ip other m d in
    let both = per_ip_count-delete_other ip other (set_per_ip ip (per_ip_count ip m - 1) m) d in
    ground arith

opens-IsCounted :
    (c : Config) (ip : ℕ) (g : Gate)
    → IsCounted c g
    → g.streams.conns < c.max_connections
    → per_ip_count ip g.streams.per_ip < c.max_connections_per_ip
    → IsCounted c (record {
      streams = record {
        conns = g.streams.conns + 1;
        per_ip = set_per_ip ip (per_ip_count ip g.streams.per_ip + 1) g.streams.per_ip;
      };
      streaming = ip ∷ g.streaming;
    })
opens-IsCounted c ip g h room room_ip =
    let conns = h.conns in
    let old = h.per_ip ip in
    record {
      conns = omega arith;
      bounded = omega arith;
      per_ip = λ other. elim (Bool-cases (ip == other)) [
        | inl e ↦
            let eq = h.per_ip other in
            let set =
              per_ip_count-set_self ip (per_ip_count ip g.streams.per_ip + 1) g.streams.per_ip in
            ground arith
        | inr e ↦
            let eq = h.per_ip other in
            let set =
              per_ip_count-set_other ip other (per_ip_count ip g.streams.per_ip + 1)
                g.streams.per_ip e in
            ground arith
      ];
      per_ip_bounded = λ other. let le = h.per_ip_bounded other in ground arith;
    }

ends-IsCounted :
    (c : Config) (ip : ℕ) (g : Gate)
    → IsCounted c g
    → 0 < open_of ip g.streaming
    → IsCounted c
        (record { streams = release_stream ip g.streams; streaming = without_one ip g.streaming })
unfolding release_stream
ends-IsCounted c ip g h some_open =
    let conns = h.conns in
    let bounded = h.bounded in
    let len = length-without_one ip g.streaming some_open in
    let self = open_of-without_self ip g.streaming in
    let count = release-count_self ip g.streams.per_ip in
    record {
      conns = omega arith;
      bounded = omega arith;
      per_ip = λ other. elim (Bool-cases (ip == other)) [
        | inl e ↦ let eq = h.per_ip other in ground arith
        | inr e ↦
            let eq = h.per_ip other in
            let one = open_of-without_other ip other g.streaming e in
            let two = release-count_other ip other g.streams.per_ip e in ground arith
      ];
      per_ip_bounded = λ other. elim (Bool-cases (ip == other)) [
        | inl e ↦ let le = h.per_ip_bounded other in ground arith
        | inr e ↦
            let le = h.per_ip_bounded other in
            let one = open_of-without_other ip other g.streaming e in ground arith
      ];
    }

Move-IsCounted : {c : Config} {g h : Gate} → Move c g h → IsCounted c g → IsCounted c h
unfolding admit_stream acquire_conn_per_ip
Move-IsCounted {c} {g} (ends ip some_open) k = ends-IsCounted c ip g k some_open
Move-IsCounted {c} {g} (asks false ip) k = record {
  conns = k.conns;
  bounded = k.bounded;
  per_ip = k.per_ip;
  per_ip_bounded = k.per_ip_bounded;
}
Move-IsCounted {c} {g} (asks true ip) k =
    elim (Bool-cases (leb c.max_connections g.streams.conns)) [
      | inl e ↦ rw e k
      | inr e ↦
          elim (Bool-cases (leb c.max_connections_per_ip (per_ip_count ip g.streams.per_ip))) [
            | inl f ↦ rw (e, f) k
            | inr f ↦ rw (e, f) (opens-IsCounted c ip g k (ground arith) (ground arith))
          ]
    ]

-- Over any admissions and ends of open streams from gates whose counters count the open streams,
-- the semaphore counts them all and the map counts those of each address, so that no more streams
-- are open than MaxConnections, and none of an address more than MaxConnectionsPerIP; a refused
-- request leaves no count behind.
pub Moves-IsCounted : {c : Config} {g h : Gate} → Moves c g h → IsCounted c g → IsCounted c h
Moves-IsCounted still k = k
Moves-IsCounted (moves run last) k = Move-IsCounted last (Moves-IsCounted run k)
