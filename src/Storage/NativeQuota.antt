-- ===== src/Storage/NativeQuota.antt =====
-- backend/internal/storage/nativequota.go: what the hooks on record saves reserve, settle, release
-- and credit. A file's size is an int64 bit pattern, a name a number, 0 for the empty name. What
-- PocketBase's record and filesystem answer is an argument.
pub mod Credited
pub mod Held
pub mod Reports
use pbvex.Base.{
  ℕ, zero, suc, ◌+◌, ◌-◌, ◌^◌, ◌==◌, leb, ltb, Bool, true, false, not, ◌&&◌, ◌||◌, Option, none,
  some, List, [], ◌∷◌, ◌++◌, any, ℤ, pos, negsuc, Result, ok, err, wrap, lt_i64, le_i64, sign_bit,
  if◌then◌else◌,
}
use pbvex.Storage.Quota.{
  Observer, QuotaError, Reservation, nil_reservation, noop_reservation, held,
  QuotaReservationRequest, upload, quota_reserve, quota_settle, quota_release, quota_credit,
  Delivery, idle,
}

-- *filesystem.File
pub record File : Type 0 where
  pub name : ℕ
  pub size : ℕ

-- An element of a []any; `none` is a nil pointer.
pub data Item : Type 0 where
  file_item : Option File → Item
  name_item : ℕ → Item
  other_item : Item

-- The raw value of a file field.
pub data RawValue : Type 0 where
  one_file : Option File → RawValue
  many_files : List (Option File) → RawValue
  one_name : ℕ → RawValue
  many_names : List ℕ → RawValue
  any_list : List Item → RawValue
  no_value : RawValue

-- A field of the type file, by its value now and in the record's original state.
pub record FileField : Type 0 where
  pub field : ℕ
  pub value : RawValue
  pub original : RawValue

-- nativeUpload
pub record NativeUpload : Type 0 where
  pub field : ℕ
  pub name : ℕ
  pub size : ℕ
  pub thumb_bytes : ℕ

-- A record with its file fields and what is stashed in it.
pub record NativeRecord : Type 0 where
  pub base_files_path : List ℕ
  pub fields : List FileField
  pub uploads : List NativeUpload
  pub removals : List NativeUpload
  pub reservation : Reservation

unfoldable pub present_files : List (Option File) → List File
present_files [] = []
present_files (none ∷ fs) = present_files fs
present_files (some f ∷ fs) = f ∷ present_files fs

unfoldable pub files_of_items : List Item → List File
files_of_items [] = []
files_of_items (file_item (some f) ∷ xs) = f ∷ files_of_items xs
files_of_items (x ∷ xs) = files_of_items xs

-- nativeUploadableFiles
unfoldable pub uploadable_files : RawValue → List File
unfolding present_files files_of_items
uploadable_files (one_file f) = present_files (f ∷ [])
uploadable_files (many_files fs) = present_files fs
uploadable_files (any_list xs) = files_of_items xs
uploadable_files v = []

unfoldable pub nonempty_names : List ℕ → List ℕ
nonempty_names [] = []
nonempty_names (n ∷ ns) = let rest = nonempty_names ns in if n == 0 then rest else n ∷ rest

unfoldable pub names_of_items : List Item → List ℕ
names_of_items [] = []
names_of_items (name_item n ∷ xs) =
    let rest = names_of_items xs in if n == 0 then rest else n ∷ rest
names_of_items (file_item (some f) ∷ xs) =
    let rest = names_of_items xs in if f.name == 0 then rest else f.name ∷ rest
names_of_items (x ∷ xs) = names_of_items xs

-- nativePlainNames
unfoldable pub plain_names : RawValue → List ℕ
unfolding nonempty_names names_of_items
plain_names (one_name n) = nonempty_names (n ∷ [])
plain_names (many_names ns) = nonempty_names ns
plain_names (any_list xs) = names_of_items xs
plain_names v = []

-- The uploads of one field, those of a negative size left out.
unfoldable pub pending_of : ℕ → List File → List NativeUpload
pending_of field [] = []
pending_of field (f ∷ fs) =
    let rest = pending_of field fs in
    if lt_i64 f.size 0
    then rest
    else record { field = field; name = f.name; size = f.size; thumb_bytes = 0 } ∷ rest

unfoldable pub pending_uploads : List FileField → List NativeUpload
unfolding pending_of uploadable_files
pending_uploads [] = []
pending_uploads (f ∷ fs) = pending_of f.field (uploadable_files f.value) ++ pending_uploads fs

-- The sum of the sizes of the uploads that pass, as int64.
unfoldable pub sum_sizes : (NativeUpload → Bool) → List NativeUpload → ℕ
sum_sizes p [] = 0
sum_sizes p (u ∷ us) = let rest = sum_sizes p us in if p u then wrap (u.size + rest) else rest

-- nativeReserveUpload
unfoldable pub native_reserve_upload : Observer → ℕ → NativeRecord → Result QuotaError NativeRecord
unfolding pending_uploads sum_sizes quota_reserve
native_reserve_upload observer op r =
    let uploads = pending_uploads r.fields in
    let total = sum_sizes (λ u. true) uploads in
    if total == 0
    then ok r
    else elim (quota_reserve observer (record {
      op_id = op;
      purpose = upload;
      storage_id = 0;
      key = r.base_files_path ++ (b'/' ∷ []);
      worst_case = total;
    })) [ err e ↦ err e | ok res ↦ ok (record r { uploads = uploads; reservation = res }) ]

unfoldable pub stored_names : List FileField → List ℕ
unfolding plain_names
stored_names [] = []
stored_names (f ∷ fs) = plain_names f.value ++ stored_names fs

abbrev pub is_nil : Reservation → Bool
is_nil nil_reservation = true
is_nil res = false

abbrev pub no_uploads : List NativeUpload → Bool
no_uploads [] = true
no_uploads (u ∷ us) = false

-- A call of quotaSettle, quotaRelease or quotaCredit that a hook makes, if it makes one.
pub data Report : Type 0 where
  no_report : Report
  settles : Reservation → ℕ → Report
  releases : Reservation → Report
  credits : ℕ → Report

abbrev clear_upload : NativeRecord → NativeRecord
clear_upload r = record r { reservation = nil_reservation; uploads = [] }

-- nativeSettleUploads
unfoldable pub native_settle_uploads : NativeRecord → NativeRecord × Report
unfolding stored_names sum_sizes
native_settle_uploads r =
    let stored = stored_names r.fields in
    if is_nil r.reservation || no_uploads r.uploads then (clear_upload r, no_report) else (
      clear_upload r,
      settles r.reservation (sum_sizes (λ u. any (λ n. n == u.name) stored) r.uploads),
    )

-- What the filesystem answers for the name of a record's file; `none` is an error. `thumbs` lists
-- the sizes under the prefix of its variants, `none` for what is nil or a folder.
pub record Filesystem : Type 0 where
  pub exists : ℕ → Option Bool
  pub attributes : ℕ → Option ℕ
  pub thumbs : ℕ → Option (List (Option ℕ))

-- Every object that was uploaded is verified absent.
unfoldable pub all_absent : Filesystem → List NativeUpload → Bool
all_absent fs [] = true
all_absent fs (u ∷ us) = elim (fs.exists u.name) [
  | none ↦ false
  | some true ↦ false
  | some false ↦ all_absent fs us
]

-- nativeHandleSaveError; `none` is a filesystem that cannot be opened.
unfoldable pub native_handle_save_error : Option Filesystem → NativeRecord → NativeRecord × Report
unfolding all_absent
native_handle_save_error open_fs r =
    if is_nil r.reservation || no_uploads r.uploads
    then (clear_upload r, no_report)
    else elim open_fs [
      | none ↦ (clear_upload r, no_report)
      | some fs ↦
          if all_absent fs r.uploads
          then (clear_upload r, releases r.reservation)
          else (clear_upload r, no_report)
    ]

unfoldable pub sum_thumbs : List (Option ℕ) → ℕ
sum_thumbs [] = 0
sum_thumbs (none ∷ ts) = sum_thumbs ts
sum_thumbs (some n ∷ ts) = wrap (n + sum_thumbs ts)

-- nativeRemovalOf
unfoldable pub native_removal_of : Option Filesystem → ℕ → ℕ → Option NativeUpload
unfolding sum_thumbs
native_removal_of none field name = none
native_removal_of (some fs) field name = elim (fs.attributes name) [
  | none ↦ none
  | some size ↦
      if lt_i64 size 0
      then none
      else some (record {
        field = field;
        name = name;
        size = size;
        thumb_bytes = elim (fs.thumbs name) [ none ↦ 0 | some objects ↦ sum_thumbs objects ];
      })
]

unfoldable pub removals_of : Option Filesystem → ℕ → List ℕ → List ℕ → List NativeUpload
unfolding native_removal_of
removals_of open_fs field kept [] = []
removals_of open_fs field kept (n ∷ ns) =
    let rest = removals_of open_fs field kept ns in
    if any (λ m. m == n) kept
    then rest
    else elim (native_removal_of open_fs field n) [ none ↦ rest | some u ↦ u ∷ rest ]

abbrev no_names : List ℕ → Bool
no_names [] = true
no_names (n ∷ ns) = false

-- nativeOriginalFileNames
unfoldable pub native_original_file_names : FileField → List ℕ
unfolding plain_names
native_original_file_names f =
    if no_names (plain_names f.original) then plain_names f.value else plain_names f.original

unfoldable pub all_removals : Option Filesystem → List FileField → List NativeUpload
unfolding removals_of native_original_file_names plain_names
all_removals open_fs [] = []
all_removals open_fs (f ∷ fs) =
    removals_of open_fs f.field (plain_names f.value) (native_original_file_names f)
    ++ all_removals open_fs fs

-- nativeStashDeleteSizes
unfoldable pub native_stash_delete_sizes : Option Filesystem → NativeRecord → NativeRecord
unfolding all_removals
native_stash_delete_sizes open_fs r =
    let removals = all_removals open_fs r.fields in
    if no_uploads removals then r else record r { removals = removals }

-- The removal is verified: the object is absent, and so are its variants if it had any bytes there.
unfoldable pub removal_verified : Option Filesystem → NativeUpload → Bool
removal_verified none u = false
removal_verified (some fs) u = elim (fs.exists u.name) [
  | none ↦ false
  | some true ↦ false
  | some false ↦
      if lt_i64 0 u.thumb_bytes
      then elim (fs.thumbs u.name) [ none ↦ false | some [] ↦ true | some (t ∷ ts) ↦ false ]
      else true
]

-- nativeConfirmedRemovalBytes
unfoldable pub native_confirmed_removal_bytes : Option Filesystem → NativeUpload → ℕ
unfolding removal_verified
native_confirmed_removal_bytes open_fs u =
    if removal_verified open_fs u then wrap (u.size + u.thumb_bytes) else 0

unfoldable pub freed_bytes : Option Filesystem → List NativeUpload → ℕ
unfolding native_confirmed_removal_bytes
freed_bytes open_fs [] = 0
freed_bytes open_fs (u ∷ us) =
    let rest = freed_bytes open_fs us in
    if lt_i64 0 (native_confirmed_removal_bytes open_fs u)
    then wrap (wrap (u.size + u.thumb_bytes) + rest)
    else rest

-- nativeCreditConfirmedDeletes; `attached` is hasQuota.
unfoldable pub native_credit_confirmed_deletes :
    Bool → Option Filesystem → NativeRecord → NativeRecord × Report
unfolding freed_bytes
native_credit_confirmed_deletes attached open_fs r =
    let cleared = record r { removals = [] } in
    let freed = freed_bytes open_fs r.removals in
    if no_uploads r.removals || not attached
    then (cleared, no_report)
    else if le_i64 freed 0
    then (cleared, no_report)
    else (cleared, credits freed)

abbrev to_signed : ℕ → ℤ
to_signed n = if leb sign_bit n then negsuc (2 ^ 64 - 1 - n) else pos n

-- The delivery of a report; `answer k` is the provider's answer to the call of attempt k.
unfoldable pub deliver : Bool → (ℕ → Option QuotaError) → Report → Delivery
unfolding quota_settle quota_release quota_credit
deliver attached answer no_report = idle
deliver attached answer (settles res bytes) = quota_settle res (to_signed bytes) answer
deliver attached answer (releases res) = quota_release res answer
deliver attached answer (credits bytes) = quota_credit attached (to_signed bytes) answer
