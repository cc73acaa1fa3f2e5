-- ===== src/Storage/NativeQuota/Credited.antt =====
-- backend/internal/storage/nativequota.go: the credits of updates against what was verified.
use pbvex.Base.{
  ℕ, ◌+◌, ◌≤◌, ◌<◌, ◌≡◌, refl, sym, ◌∙◌, ◌==◌, Bool, Bool-cases, Option-cases, true, false, not,
  ◌||◌, inl, inr, Option, none, some, List, [], ◌∷◌, ◌++◌, any, All, lt_i64, le_i64, sign_bit,
  arith, if◌then◌else◌,
}
use pbvex.Storage.NativeQuota.Reports.{every_upload}
use pbvex.Storage.NativeQuota.{
  NativeUpload, NativeRecord, FileField, no_uploads, credits, Filesystem, native_removal_of,
  removals_of, all_removals, plain_names, native_original_file_names, native_stash_delete_sizes,
  removal_verified, native_confirmed_removal_bytes, freed_bytes, native_credit_confirmed_deletes,
}

-- The bytes of the removals that pass, as a sum that does not wrap.
abbrev pub total_bytes : (NativeUpload → Bool) → List NativeUpload → ℕ
total_bytes p [] = 0
total_bytes p (u ∷ us) = (if p u then u.size + u.thumb_bytes else 0) + total_bytes p us

-- The filesystem answered that the removed file is there, with its size.
abbrev pub WasThere : Option Filesystem → NativeUpload → Type 0
WasThere open_fs u = (fs : Filesystem) × (open_fs ≡ some fs) × (fs.attributes u.name ≡ some u.size)

pub total_bytes-le :
    (p : NativeUpload → Bool) (us : List NativeUpload)
    → total_bytes p us ≤ total_bytes every_upload us
total_bytes-le p [] = omega arith
total_bytes-le p (u ∷ us) = let ih = total_bytes-le p us in ground arith

pub freed_bytes-eq :
    (open_fs : Option Filesystem) (us : List NativeUpload)
    → total_bytes every_upload us < sign_bit
    → freed_bytes open_fs us ≡ total_bytes (removal_verified open_fs) us
unfolding freed_bytes native_confirmed_removal_bytes
freed_bytes-eq open_fs [] h = refl
freed_bytes-eq open_fs (u ∷ us) h =
    let ih = freed_bytes-eq open_fs us (omega arith) in
    let le = total_bytes-le (removal_verified open_fs) us in
    elim (Bool-cases (removal_verified open_fs u)) [
      | inl e ↦ rw e (ground arith)
      | inr e ↦ rw e (ground arith)
    ]

pub native_removal_of-there :
    (open_fs : Option Filesystem) (field name : ℕ) {u : NativeUpload}
    → native_removal_of open_fs field name ≡ some u
    → WasThere open_fs u
unfolding native_removal_of
native_removal_of-there none field name h = absurd (ground arith)
native_removal_of-there (some fs) field name {u} h = elim (Option-cases (fs.attributes name)) [
  | inl e ↦ absurd (ground arith)
  | inr (size, e) ↦ elim (Bool-cases (lt_i64 size 0)) [
    | inl q ↦ absurd (ground arith)
    | inr q ↦ (fs, refl, ground arith)
  ]
]

pub removals_of-there :
    (open_fs : Option Filesystem) (field : ℕ) (kept names : List ℕ)
    → All (WasThere open_fs) (removals_of open_fs field kept names)
unfolding removals_of
removals_of-there open_fs field kept [] = tt
removals_of-there open_fs field kept (n ∷ ns) =
    let ih = removals_of-there open_fs field kept ns in
    elim (Bool-cases (any (λ m. m == n) kept)) [
      | inl e ↦ rw (e, removals_of) ih
      | inr e ↦ elim (Option-cases (native_removal_of open_fs field n)) [
        | inl missing ↦ rw (e, missing, removals_of) ih
        | inr (u, found) ↦
            rw (e, found, removals_of) (native_removal_of-there open_fs field n found, ih)
      ]
    ]

pub All-joined :
    (P : NativeUpload → Type 0) (us vs : List NativeUpload) → All P us → All P vs → All P (us ++ vs)
All-joined P [] vs h k = k
All-joined P (u ∷ us) vs h k = (h.0, All-joined P us vs h.1 k)

pub all_removals-there :
    (open_fs : Option Filesystem) (fields : List FileField)
    → All (WasThere open_fs) (all_removals open_fs fields)
unfolding all_removals
all_removals-there open_fs [] = tt
all_removals-there open_fs (f ∷ fs) =
    All-joined _ _ _
      (removals_of-there open_fs f.field (plain_names f.value) (native_original_file_names f))
      (all_removals-there open_fs fs)

pub credited-report :
    (attached : Bool) (open_fs : Option Filesystem) (r : NativeRecord) {n : ℕ}
    → (native_credit_confirmed_deletes attached open_fs r).1 ≡ credits n
    → (attached ≡ true) × (n ≡ freed_bytes open_fs r.removals) × (no_uploads r.removals ≡ false)
unfolding native_credit_confirmed_deletes
credited-report attached open_fs r {n} h =
    elim (Bool-cases (no_uploads r.removals || not attached)) [
      | inl e ↦ absurd (ground arith)
      | inr e ↦ elim (Bool-cases (le_i64 (freed_bytes open_fs r.removals) 0)) [
        | inl q ↦ absurd (ground arith)
        | inr q ↦ (ground arith, ground arith, ground arith)
      ]
    ]

pub stashed-removals :
    (open_fs : Option Filesystem) (r : NativeRecord)
    → r.removals ≡ []
    → (native_stash_delete_sizes open_fs r).removals ≡ all_removals open_fs r.fields
unfolding native_stash_delete_sizes
stashed-removals open_fs r h = elim (Bool-cases (no_uploads (all_removals open_fs r.fields))) [
  | inr e ↦ rw e refl
  | inl e ↦ rw e (h ∙ sym (empty (all_removals open_fs r.fields) e))
]
  where
    empty : (us : List NativeUpload) → no_uploads us ≡ true → us ≡ []
    empty [] k = refl
    empty (u ∷ us) k = absurd (ground arith)

-- The removal is verified: the filesystem opens and answers that the file does not exist, and, if
-- its variants had bytes, that they have none left.
abbrev pub IsVerified : Option Filesystem → NativeUpload → Type 0
IsVerified open_fs u =
    (fs : Filesystem) × (open_fs ≡ some fs)
    × (fs.exists u.name ≡ some false)
    × (lt_i64 0 u.thumb_bytes ≡ true → fs.thumbs u.name ≡ some [])
