-- ===== src/Cluster.antt =====
-- The operator's view of the cluster. The API server, the AWS SDK and controller-runtime are not
-- part of the repository: they are the fields of `Client`. A reconciler is a function of the state,
-- that is the world behind the client and the package variables; it returns, fails with an error,
-- or panics (a nil pointer is dereferenced).
pub mod Yields
pub mod Moves
pub mod Holds
pub mod Keeps
use oadp_operator.Prelude.{
  ℕ, String, Bool, true, false, List, [], ◌∷◌, Option, none, some, Dict, if◌then◌else◌,
}
use oadp_operator.Api.{
  DataProtectionApplication, CloudStorage, ObjectMeta, Secret, BackupStorageLocation,
  VolumeSnapshotLocation,
}

-- What `IsNotFound`, `IsAlreadyExists` and `IsConflict` distinguish.
pub data ApiError : Type 0 where
  not_found already_exists conflict : ApiError
  other : String → ApiError

-- The errors that the operator returns: those of the client, and its own messages, some with the
-- names that are formatted into them.
pub data Error : Type 0 where
  api : ApiError → Error
  message : String → Error
  about : String → List String → Error

-- A call of the API server may change the world also when it fails.
pub data Reply (W A : Type 0) : Type 0 where
  ok : A → W → Reply W A
  err : ApiError → W → Reply W A

abbrev pub Call : Type 0 → Type 0 → Type 0
Call W A = W → Reply W A

-- The world, and the package variable `wasRestic` of validator.go.
pub record State (W : Type 0) : Type 0 where
  pub world : W
  pub was_restic : Bool

pub data Outcome (W A : Type 0) : Type 0 where
  done : A → State W → Outcome W A
  fail : Error → State W → Outcome W A
  panic : Outcome W A

abbrev pub M : Type 0 → Type 0 → Type 0
M W A = State W → Outcome W A

unfoldable pub pure : {W A : Type 0} → A → M W A
pure a s = done a s

unfoldable pub raise : {W A : Type 0} → Error → M W A
raise e s = fail e s

unfoldable pub crash : {W A : Type 0} → M W A
crash s = panic

-- `if b { return err }`
unfoldable pub raise_if : {W : Type 0} → Bool → Error → M W (Unit {0})
raise_if b e s = if b then fail e s else done tt s

-- `if err := …; err != nil { return err }` on an error value
unfoldable pub check : {W : Type 0} → Option Error → M W (Unit {0})
check e s = elim e [ none ↦ done tt s | some x ↦ fail x s ]

-- A dereference of a pointer.
unfoldable pub deref : {W A : Type 0} → Option A → M W A
deref p s = elim p [ none ↦ panic | some a ↦ done a s ]

-- A call whose error is returned.
unfoldable pub call : {W A : Type 0} → Call W A → M W A
call k s = elim (k s.world) [
  | ok a w ↦ done a (record s { world = w })
  | err e w ↦ fail (api e) (record s { world = w })
]

-- A call whose error is looked at: `none` if there is none.
pub data Attempt (A : Type 0) : Type 0 where
  success : A → Attempt A
  failure : ApiError → Attempt A

unfoldable pub attempt : {W A : Type 0} → Call W A → M W (Attempt A)
attempt k s = elim (k s.world) [
  | ok a w ↦ done (success a) (record s { world = w })
  | err e w ↦ done (failure e) (record s { world = w })
]

-- `x, err := …` on a step: its value or its error.
pub data Tried (A : Type 0) : Type 0 where
  returned : A → Tried A
  failed : Error → Tried A

unfoldable pub tried : {W A : Type 0} → M W A → M W (Tried A)
tried m s = elim (m s) [
  | done a s' ↦ done (returned a) s'
  | fail e s' ↦ done (failed e) s'
  | panic ↦ panic
]

-- The error that a step returns, as a value.
unfoldable pub error_of : {W A : Type 0} → M W A → M W (Option Error)
error_of m s = elim (m s) [
  | done a s' ↦ done none s'
  | fail e s' ↦ done (some e) s'
  | panic ↦ panic
]

-- The value that a step returns, where its error is only a reason to have none.
unfoldable pub value_of : {W A : Type 0} → M W A → M W (Option A)
value_of m s = elim (m s) [
  | done a s' ↦ done (some a) s'
  | fail e s' ↦ done none s'
  | panic ↦ panic
]

-- To unfold this is to unfold every way to build a step.
infixl 5 ◌>>=◌ ◌>>◌
unfoldable pub ◌>>=◌ : {W A B : Type 0} → M W A → (A → M W B) → M W B
unfolding pure raise crash raise_if check deref call attempt tried error_of value_of
◌>>=◌ m f s = elim (m s) [ done a s' ↦ f a s' | fail e s' ↦ fail e s' | panic ↦ panic ]

abbrev pub ◌>>◌ : {W A B : Type 0} → M W A → M W B → M W B
m >> k = m >>= λ _. k

-- controllerutil.OperationResult
pub data Operation : Type 0 where
  op_none op_created op_updated op_other : Operation

pub record Client : Type 1 where
  pub World : Type 0
  -- namespace, name
  pub get_secret : String → String → Call World Secret
  -- Patch(new, MergeFrom(old)), which returns the object that the server answers with
  pub patch_secret : Secret → Secret → Call World Secret
  pub get_cloud_storage : String → String → Call World CloudStorage
  -- CreateOrPatch of the object with this namespace and name, by a function that changes it
  pub create_or_patch_bsl :
      String
      → String
      → (BackupStorageLocation → M World BackupStorageLocation)
      → M World (Operation × BackupStorageLocation)
  pub create_or_patch_vsl :
      String
      → String
      → (VolumeSnapshotLocation → M World VolumeSnapshotLocation)
      → M World (Operation × VolumeSnapshotLocation)
  -- here with the object that is created where none is there
  pub create_or_patch_secret : Secret → (Secret → M World Secret) → M World (Operation × Secret)
  -- namespace (none: every namespace), labels
  pub list_bsls : Option String → Dict → Call World (List BackupStorageLocation)
  pub list_vsls : Option String → Dict → Call World (List VolumeSnapshotLocation)
  pub list_dpas : Option String → Call World (List DataProtectionApplication)
  pub delete_bsl : BackupStorageLocation → Call World (Unit {0})
  pub delete_vsl : VolumeSnapshotLocation → Call World (Unit {0})
  -- kind, namespace, name
  pub get_object : String → String → String → Call World (Unit {0})
  pub delete_object : String → String → String → Call World (Unit {0})
  -- kind and name of the object, reason
  pub record_event : String → String → String → World → World
  -- controllerutil.SetControllerReference: owner, object
  pub set_controller_reference : String → ObjectMeta → Option ObjectMeta
  -- manager.GetBucketRegion of the AWS SDK, which returns a region and an error
  pub bucket_region : String → Call World (String × Option ApiError)
  -- resource.ParseQuantity: its error; and whether Value() of a quantity is 0
  pub quantity_error : String → Option ApiError
  pub is_zero_quantity : String → Bool
  -- StripDefaultPorts: url.Parse and the AWS SDK
  pub strip_default_ports : String → Option String

module _ (c : Client) where
  unfoldable pub event : String → String → String → M c.World (Unit {0})
  event kind name reason s = done tt (record s { world = c.record_event kind name reason s.world })

  unfoldable pub own : String → ObjectMeta → M c.World ObjectMeta
  own owner meta s = elim (c.set_controller_reference owner meta) [
    | none ↦ fail (message "already owned by another controller") s
    | some m ↦ done m s
  ]
