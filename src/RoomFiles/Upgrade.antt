-- ===== src/RoomFiles/Upgrade.antt =====
-- frontend/src/utils/persistentFileHandle.ts: the object stores after an upgrade, and what a request leaves.
use syncwatch.Shared.{
  String, ◌≡◌, refl, sym, ap, subst, ◌∙◌, Bool, Bool-cases, inl, inr, true, false, ◌&&◌, ◌||◌, List,
  [], ◌∷◌, ◌++◌, any, str_eq, arith, eq_iff, eq_refl,
}
use syncwatch.RoomFiles.Database.{
  handle_store, blob_store, contains, create_missing, on_upgrade_needed, StoreEvent,
  request_success, request_error, transaction_complete, transaction_abort, transaction_error,
  StoreRequest, on_store_event, store_run,
}

contains-append :
    (name : String) (xs ys : List String)
    → contains name (xs ++ ys) ≡ (contains name xs || contains name ys)
contains-append name [] ys = refl
contains-append name (x ∷ xs) ys = ground (arith, contains-append name xs ys)

contains-same :
    (name other : String) (names : List String)
    → contains name names ≡ true
    → str_eq other name ≡ true
    → contains other names ≡ true
contains-same name other names there same =
    subst (λ n. contains n names ≡ true) (sym (ground (arith, eq_iff other name))) there

create_missing-there :
    (name : String) (names : List String)
    → contains name names ≡ true
    → create_missing name names ≡ names
create_missing-there name names there = rw there refl

contains-create_missing :
    (name other : String) (names : List String)
    → contains other (create_missing name names) ≡ (contains other names || str_eq other name)
contains-create_missing name other names = elim (Bool-cases (contains name names)) [
  | inl there ↦ rw there (ground (arith, contains-same name other names there))
  | inr missing ↦ rw missing (ground (arith, contains-append other names (name ∷ [])))
]

contains-upgrade :
    (names : List String) (name : String)
    → contains name (create_missing blob_store (create_missing handle_store names))
      ≡ (contains name names || str_eq name handle_store || str_eq name blob_store)
contains-upgrade names name = ground (
  arith,
  contains-create_missing blob_store name (create_missing handle_store names),
  contains-create_missing handle_store name names,
)

-- After the upgrade of a database of any earlier version, it has the stores that it had and the two that the
-- program uses, and no other; and a further upgrade changes nothing.
pub upgrade_lem :
    (names : List String) (name : String)
    → (contains name (on_upgrade_needed names)
        ≡ (contains name names || str_eq name handle_store || str_eq name blob_store))
      × (on_upgrade_needed (on_upgrade_needed names) ≡ on_upgrade_needed names)
unfolding on_upgrade_needed
upgrade_lem names name =
    let kept = contains-upgrade names in
    let upgraded = create_missing blob_store (create_missing handle_store names) in
    let handles : contains handle_store upgraded ≡ true =
      ground (arith, kept handle_store, eq_refl handle_store) in
    let blobs : contains blob_store upgraded ≡ true =
      ground (arith, kept blob_store, eq_refl blob_store) in
    (
      kept name,
      ap (create_missing blob_store) (create_missing-there handle_store upgraded handles)
          ∙ create_missing-there blob_store upgraded blobs,
    )

abbrev pub is_complete : StoreEvent → Bool
is_complete transaction_complete = true
is_complete _ = false

-- The cleanup of a request is called just if its transaction completes: after an abort or an error, it is not.
pub cleaned-store_run :
    (has_cleanup : Bool) (es : List StoreEvent) (r : StoreRequest)
    → (store_run has_cleanup es r).is_cleaned
      ≡ (r.is_cleaned || (has_cleanup && any is_complete es))
unfolding store_run on_store_event
cleaned-store_run h [] r = ground arith
cleaned-store_run h (request_success ∷ es) r = cleaned-store_run h es _
cleaned-store_run h (request_error ∷ es) r = cleaned-store_run h es _
cleaned-store_run h (transaction_complete ∷ es) r =
    ground (arith, cleaned-store_run h es (on_store_event h transaction_complete r))
cleaned-store_run h (transaction_abort ∷ es) r = cleaned-store_run h es _
cleaned-store_run h (transaction_error ∷ es) r = cleaned-store_run h es _
