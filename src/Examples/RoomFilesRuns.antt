-- ===== src/Examples/RoomFilesRuns.antt =====
-- The stores of the runs of the kept files (frontend/src/utils/persistentFileHandle.ts), with a function as an object store.
use syncwatch.Shared.{String, refl, Option, none, some, str_eq, if◌then◌else◌}
use syncwatch.RoomFiles.{KeyStore}

abbrev pub functions : (V : Type 0) → KeyStore V
functions V = record {
  Store = String → Option V;
  get = λ k s. s k;
  put = λ k v s j. if str_eq k j then some v else s j;
  delete = λ k s j. if str_eq k j then none else s j;
  get-put = λ k j v s. refl;
  get-delete = λ k j s. refl;
}
