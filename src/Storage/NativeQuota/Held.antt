-- ===== src/Storage/NativeQuota/Held.antt =====
-- backend/internal/storage/nativequota.go: the files and the names that the values of file fields
-- hold, described by the shape of the raw value.
use pbvex.Base.{
  ℕ, ◌+◌, ◌≡◌, ◌≢◌, refl, ap, ◌∙◌, ◌==◌, lt_i64, Bool, Bool-cases, true, ◌↔◌, ◌⊎◌, inl, inr, Option,
  none, some, List, [], ◌∷◌, ◌++◌, any, arith, if◌then◌else◌,
}
use pbvex.Storage.NativeQuota.{
  File, Item, file_item, name_item, other_item, RawValue, one_file, many_files, one_name,
  many_names, any_list, no_value, FileField, NativeUpload, present_files, files_of_items,
  uploadable_files, nonempty_names, names_of_items, plain_names, pending_of, pending_uploads,
  stored_names,
}

-- The sizes of the uploads that pass, as a sum that does not wrap.
abbrev pub total_size : (NativeUpload → Bool) → List NativeUpload → ℕ
total_size p [] = 0
total_size p (u ∷ us) = (if p u then u.size else 0) + total_size p us

-- The bytes of a file whose name passes; a size that is negative as int64 counts nothing.
abbrev pub file_bytes : (ℕ → Bool) → Option File → ℕ
file_bytes p none = 0
file_bytes p (some f) = if p f.name then (if lt_i64 f.size 0 then 0 else f.size) else 0

abbrev pub files_bytes : (ℕ → Bool) → List (Option File) → ℕ
files_bytes p [] = 0
files_bytes p (f ∷ fs) = file_bytes p f + files_bytes p fs

abbrev pub items_bytes : (ℕ → Bool) → List Item → ℕ
items_bytes p [] = 0
items_bytes p (file_item f ∷ xs) = file_bytes p f + items_bytes p xs
items_bytes p (name_item n ∷ xs) = items_bytes p xs
items_bytes p (other_item ∷ xs) = items_bytes p xs

-- The bytes of the files that a value holds, whichever of its shapes it has.
abbrev pub value_bytes : (ℕ → Bool) → RawValue → ℕ
value_bytes p (one_file f) = file_bytes p f
value_bytes p (many_files fs) = files_bytes p fs
value_bytes p (any_list xs) = items_bytes p xs
value_bytes p (one_name n) = 0
value_bytes p (many_names ns) = 0
value_bytes p no_value = 0

abbrev pub fields_bytes : (ℕ → Bool) → List FileField → ℕ
fields_bytes p [] = 0
fields_bytes p (f ∷ fs) = value_bytes p f.value + fields_bytes p fs

abbrev pub IsIn : {A : Type 0} → A → List A → Type 0
IsIn a [] = ⊥
IsIn a (x ∷ xs) = (x ≡ a) ⊎ IsIn a xs

-- A value holds a name: alone, in a list of names, or in a mixed list by itself or as that of a
-- file.
abbrev pub HoldsName : ℕ → RawValue → Type 0
HoldsName n (one_name m) = m ≡ n
HoldsName n (many_names ms) = IsIn n ms
HoldsName n (any_list xs) =
    IsIn (name_item n) xs ⊎ ((f : File) × (f.name ≡ n) × IsIn (file_item (some f)) xs)
HoldsName n (one_file f) = ⊥
HoldsName n (many_files fs) = ⊥
HoldsName n no_value = ⊥

-- Some field holds the name, which is not empty.
abbrev pub SomeHolds : ℕ → List FileField → Type 0
SomeHolds n [] = ⊥
SomeHolds n (f ∷ fs) = HoldsName n f.value ⊎ SomeHolds n fs

abbrev pub IsStored : List FileField → ℕ → Type 0
IsStored fields n = (n ≢ 0) × SomeHolds n fields

-- Sums over the files of one value.
abbrev list_bytes : (ℕ → Bool) → List File → ℕ
list_bytes p [] = 0
list_bytes p (f ∷ fs) = file_bytes p (some f) + list_bytes p fs

present_files-bytes :
    (p : ℕ → Bool) (fs : List (Option File)) → list_bytes p (present_files fs) ≡ files_bytes p fs
unfolding present_files
present_files-bytes p [] = refl
present_files-bytes p (none ∷ fs) = let ih = present_files-bytes p fs in omega arith
present_files-bytes p (some f ∷ fs) = ap (λ n. file_bytes p (some f) + n) (present_files-bytes p fs)

files_of_items-bytes :
    (p : ℕ → Bool) (xs : List Item) → list_bytes p (files_of_items xs) ≡ items_bytes p xs
unfolding files_of_items
files_of_items-bytes p [] = refl
files_of_items-bytes p (file_item none ∷ xs) = let ih = files_of_items-bytes p xs in omega arith
files_of_items-bytes p (file_item (some f) ∷ xs) =
    ap (λ n. file_bytes p (some f) + n) (files_of_items-bytes p xs)
files_of_items-bytes p (name_item n ∷ xs) = files_of_items-bytes p xs
files_of_items-bytes p (other_item ∷ xs) = files_of_items-bytes p xs

uploadable_files-bytes :
    (p : ℕ → Bool) (v : RawValue) → list_bytes p (uploadable_files v) ≡ value_bytes p v
unfolding uploadable_files
uploadable_files-bytes p (one_file f) = present_files-bytes p (f ∷ []) ∙ omega arith
uploadable_files-bytes p (many_files fs) = present_files-bytes p fs
uploadable_files-bytes p (any_list xs) = files_of_items-bytes p xs
uploadable_files-bytes p (one_name n) = refl
uploadable_files-bytes p (many_names ns) = refl
uploadable_files-bytes p no_value = refl

total_size-joined :
    (q : NativeUpload → Bool) (us vs : List NativeUpload)
    → total_size q (us ++ vs) ≡ total_size q us + total_size q vs
total_size-joined q [] vs = omega arith
total_size-joined q (u ∷ us) vs = let ih = total_size-joined q us vs in omega arith

pending_of-bytes :
    (p : ℕ → Bool) (field : ℕ) (fs : List File)
    → total_size (λ u. p u.name) (pending_of field fs) ≡ list_bytes p fs
unfolding pending_of
pending_of-bytes p field [] = refl
pending_of-bytes p field (f ∷ fs) =
    let ih = pending_of-bytes p field fs in
    elim (Bool-cases (lt_i64 f.size 0)) [
      | inl e ↦ simp e (elim (Bool-cases (p f.name)) [
        | inl q ↦ rw q (ih ∙ omega arith)
        | inr q ↦ rw q (ih ∙ omega arith)
      ])
      | inr e ↦ simp e (ap (λ n. (if p f.name then f.size else 0) + n) ih)
    ]

-- The pending uploads whose names pass have the bytes of the fields' files.
pub pending_uploads-bytes :
    (p : ℕ → Bool) (fields : List FileField)
    → total_size (λ u. p u.name) (pending_uploads fields) ≡ fields_bytes p fields
unfolding pending_uploads
pending_uploads-bytes p [] = refl
pending_uploads-bytes p (f ∷ fs) =
    let ih = pending_uploads-bytes p fs in
    let here = pending_of-bytes p f.field (uploadable_files f.value) in
    let there = uploadable_files-bytes p f.value in
    let sum =
      total_size-joined (λ u. p u.name) (pending_of f.field (uploadable_files f.value))
        (pending_uploads fs) in
    omega arith

abbrev pub is_listed : ℕ → List ℕ → Bool
is_listed m ns = any (λ n. n == m) ns

is_listed-found : (m : ℕ) (ns : List ℕ) → is_listed m ns ≡ true → IsIn m ns
is_listed-found m [] h = absurd (ground arith)
is_listed-found m (n ∷ ns) h = elim (Bool-cases (n == m)) [
  | inl e ↦ inl (ground arith)
  | inr e ↦ inr (is_listed-found m ns (ground arith))
]

listed : (m : ℕ) (ns : List ℕ) → IsIn m ns → is_listed m ns ≡ true
listed m [] h = absurd h
listed m (n ∷ ns) (inl e) = ground arith
listed m (n ∷ ns) (inr i) = let ih = listed m ns i in ground arith

module _ {A : Type 0} (a : A) where
  IsIn-left : (xs ys : List A) → IsIn a xs → IsIn a (xs ++ ys)
  IsIn-left [] ys h = absurd h
  IsIn-left (x ∷ xs) ys (inl e) = inl e
  IsIn-left (x ∷ xs) ys (inr i) = inr (IsIn-left xs ys i)

  IsIn-right : (xs ys : List A) → IsIn a ys → IsIn a (xs ++ ys)
  IsIn-right [] ys h = h
  IsIn-right (x ∷ xs) ys h = inr (IsIn-right xs ys h)

  IsIn-either : (xs ys : List A) → IsIn a (xs ++ ys) → IsIn a xs ⊎ IsIn a ys
  IsIn-either [] ys h = inr h
  IsIn-either (x ∷ xs) ys (inl e) = inl (inl e)
  IsIn-either (x ∷ xs) ys (inr i) = elim (IsIn-either xs ys i) [
    | inl k ↦ inl (inr k)
    | inr k ↦ inr k
  ]

-- A list that takes a name on where it is not empty.
abbrev kept : ℕ → List ℕ → List ℕ
kept n ns = if n == 0 then ns else n ∷ ns

kept-found : (m n : ℕ) (ns : List ℕ) → IsIn m (kept n ns) → ((m ≢ 0) × (n ≡ m)) ⊎ IsIn m ns
kept-found m n ns = elim (Bool-cases (n == 0)) [
  | inl e ↦ rw e (λ h. inr h)
  | inr e ↦ rw e (λ h. elim h [ inl q ↦ inl (λ z. ground arith, q) | inr i ↦ inr i ])
]

kept_own : (m n : ℕ) (ns : List ℕ) → m ≢ 0 → n ≡ m → IsIn m (kept n ns)
kept_own m n ns z q = elim (Bool-cases (n == 0)) [
  | inl e ↦ absurd (z (ground arith))
  | inr e ↦ rw e (inl q)
]

kept_other : (m n : ℕ) (ns : List ℕ) → IsIn m ns → IsIn m (kept n ns)
kept_other m n ns h = elim (Bool-cases (n == 0)) [ inl e ↦ rw e h | inr e ↦ rw e (inr h) ]

nonempty_names-found : (m : ℕ) (ns : List ℕ) → IsIn m (nonempty_names ns) → (m ≢ 0) × IsIn m ns
unfolding nonempty_names
nonempty_names-found m [] h = absurd h
nonempty_names-found m (n ∷ ns) h = elim (kept-found m n (nonempty_names ns) h) [
  | inl (z, e) ↦ (z, inl e)
  | inr i ↦ let (z, k) = nonempty_names-found m ns i in (z, inr k)
]

IsIn-nonempty_names : (m : ℕ) (ns : List ℕ) → m ≢ 0 → IsIn m ns → IsIn m (nonempty_names ns)
unfolding nonempty_names
IsIn-nonempty_names m [] z h = absurd h
IsIn-nonempty_names m (n ∷ ns) z (inl e) = kept_own m n (nonempty_names ns) z e
IsIn-nonempty_names m (n ∷ ns) z (inr i) =
    kept_other m n (nonempty_names ns) (IsIn-nonempty_names m ns z i)

-- A mixed list names it.
abbrev Named : ℕ → List Item → Type 0
Named m xs = IsIn (name_item m) xs ⊎ ((f : File) × (f.name ≡ m) × IsIn (file_item (some f)) xs)

Named-later : (m : ℕ) (x : Item) (xs : List Item) → Named m xs → Named m (x ∷ xs)
Named-later m x xs (inl i) = inl (inr i)
Named-later m x xs (inr (f, e, i)) = inr (f, e, inr i)

names_of_items-found : (m : ℕ) (xs : List Item) → IsIn m (names_of_items xs) → (m ≢ 0) × Named m xs
unfolding names_of_items
names_of_items-found m [] h = absurd h
names_of_items-found m (name_item n ∷ xs) h = elim (kept-found m n (names_of_items xs) h) [
  | inl (z, e) ↦ (z, inl (inl (ap name_item e)))
  | inr i ↦ let (z, k) = names_of_items-found m xs i in (z, Named-later m (name_item n) xs k)
]
names_of_items-found m (file_item (some f) ∷ xs) h =
    elim (kept-found m f.name (names_of_items xs) h) [
      | inl (z, e) ↦ (z, inr (f, e, inl refl))
      | inr i ↦
          let (z, k) = names_of_items-found m xs i in (z, Named-later m (file_item (some f)) xs k)
    ]
names_of_items-found m (file_item none ∷ xs) h =
    let (z, k) = names_of_items-found m xs h in (z, Named-later m (file_item none) xs k)
names_of_items-found m (other_item ∷ xs) h =
    let (z, k) = names_of_items-found m xs h in (z, Named-later m other_item xs k)

named_of : Item → ℕ
named_of (name_item n) = n
named_of (file_item none) = 0
named_of (file_item (some f)) = f.name
named_of other_item = 0

names_of_items-kept :
    (x : Item) (xs : List Item) → names_of_items (x ∷ xs) ≡ kept (named_of x) (names_of_items xs)
unfolding names_of_items named_of
names_of_items-kept (name_item n) xs = refl
names_of_items-kept (file_item none) xs = refl
names_of_items-kept (file_item (some f)) xs = refl
names_of_items-kept other_item xs = refl

IsIn-names :
    (m : ℕ) (x : Item) (xs : List Item) → m ≢ 0 → named_of x ≡ m → IsIn m (names_of_items (x ∷ xs))
IsIn-names m x xs z e =
    rw (names_of_items-kept x xs) (kept_own m (named_of x) (names_of_items xs) z e)

IsIn-names_later :
    (m : ℕ) (x : Item) (xs : List Item)
    → IsIn m (names_of_items xs)
    → IsIn m (names_of_items (x ∷ xs))
IsIn-names_later m x xs h =
    rw (names_of_items-kept x xs) (kept_other m (named_of x) (names_of_items xs) h)

IsIn-names_of_items : (m : ℕ) (xs : List Item) → m ≢ 0 → Named m xs → IsIn m (names_of_items xs)
unfolding named_of
IsIn-names_of_items m [] z (inl h) = absurd h
IsIn-names_of_items m [] z (inr (f, e, h)) = absurd h
IsIn-names_of_items m (x ∷ xs) z (inl (inl e)) = IsIn-names m x xs z (ap named_of e)
IsIn-names_of_items m (x ∷ xs) z (inl (inr i)) =
    IsIn-names_later m x xs (IsIn-names_of_items m xs z (inl i))
IsIn-names_of_items m (x ∷ xs) z (inr (f, e, inl q)) = IsIn-names m x xs z (ap named_of q ∙ e)
IsIn-names_of_items m (x ∷ xs) z (inr (f, e, inr i)) =
    IsIn-names_later m x xs (IsIn-names_of_items m xs z (inr (f, e, i)))

plain_names-found : (m : ℕ) (v : RawValue) → IsIn m (plain_names v) → (m ≢ 0) × HoldsName m v
unfolding plain_names
plain_names-found m (one_name n) h =
    let (z, i) = nonempty_names-found m (n ∷ []) h in elim i [ inl e ↦ (z, e) | inr k ↦ absurd k ]
plain_names-found m (many_names ns) h = nonempty_names-found m ns h
plain_names-found m (any_list xs) h = names_of_items-found m xs h
plain_names-found m (one_file f) h = absurd h
plain_names-found m (many_files fs) h = absurd h
plain_names-found m no_value h = absurd h

IsIn-plain_names : (m : ℕ) (v : RawValue) → m ≢ 0 → HoldsName m v → IsIn m (plain_names v)
unfolding plain_names
IsIn-plain_names m (one_name n) z h = IsIn-nonempty_names m (n ∷ []) z (inl h)
IsIn-plain_names m (many_names ns) z h = IsIn-nonempty_names m ns z h
IsIn-plain_names m (any_list xs) z h = IsIn-names_of_items m xs z h
IsIn-plain_names m (one_file f) z h = absurd h
IsIn-plain_names m (many_files fs) z h = absurd h
IsIn-plain_names m no_value z h = absurd h

stored_names-found :
    (m : ℕ) (fields : List FileField) → IsIn m (stored_names fields) → IsStored fields m
unfolding stored_names
stored_names-found m [] h = absurd h
stored_names-found m (f ∷ fs) h = elim (IsIn-either m (plain_names f.value) (stored_names fs) h) [
  | inl i ↦ let (z, k) = plain_names-found m f.value i in (z, inl k)
  | inr i ↦ let (z, k) = stored_names-found m fs i in (z, inr k)
]

IsIn-stored_names :
    (m : ℕ) (fields : List FileField) → m ≢ 0 → SomeHolds m fields → IsIn m (stored_names fields)
unfolding stored_names
IsIn-stored_names m [] z h = absurd h
IsIn-stored_names m (f ∷ fs) z (inl h) =
    IsIn-left m (plain_names f.value) (stored_names fs) (IsIn-plain_names m f.value z h)
IsIn-stored_names m (f ∷ fs) z (inr h) =
    IsIn-right m (plain_names f.value) (stored_names fs) (IsIn-stored_names m fs z h)

-- The names that nativePlainNames finds in the fields are those that they hold.
pub stored_names_iff :
    (m : ℕ) (fields : List FileField)
    → (is_listed m (stored_names fields) ≡ true) ↔ IsStored fields m
stored_names_iff m fields = (
  λ h. stored_names-found m fields (is_listed-found m (stored_names fields) h),
  λ h. listed m (stored_names fields) (IsIn-stored_names m fields h.0 h.1),
)
