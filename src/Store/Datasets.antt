-- ===== src/Store/Datasets.antt =====
-- `utils/idb.js`: the database of datasets in the browser. The opening of the database, and the error
-- of each request on it, are parameters.
pub mod Kept
use vidhi_trading_platform.Prelude.{
  Bool, true, false, String, str_eq, List, [], ◌∷◌, Option, none, some, if◌then◌else◌,
}
use vidhi_trading_platform.Client.Http.{Result, value, thrown}

-- The object store, by its keys, and `dbPromise`: none before the first call, else what it settles to.
pub record Db : Type 0 where
  pub promise : Option (Result Bool)
  pub datasets : List (String × String)

-- `getDB`: the database is opened by the first call; every later one has the same promise.
unfoldable pub get_db : Result Bool → Db → Result Bool × Db
get_db opening db = elim db.promise [
  | none ↦ (opening, record db { promise = some opening })
  | some p ↦ (p, db)
]

-- `store.get(key)`, with nothing for `undefined`
unfoldable pub lookup : String → List (String × String) → Option String
lookup k [] = none
lookup k ((j, v) ∷ m) = if str_eq j k then some v else lookup k m

-- `store.put(value, key)`
unfoldable pub put : String → String → List (String × String) → List (String × String)
put k v [] = (k, v) ∷ []
put k v ((j, w) ∷ m) = if str_eq j k then (k, v) ∷ m else (j, w) ∷ put k v m

-- A request on the database, where it is open: its result, or its error.
abbrev pub with_db {ℓ} : {A : Type ℓ} → Result Bool → Option String → A → Result A
with_db (value b) none a = value a
with_db (value b) (some e) a = thrown e
with_db (thrown m) failed a = thrown m

-- `setDataset`; `failed` is the error of the write, or none.
unfoldable pub set_dataset : Result Bool → Option String → String → String → Db → Result Bool × Db
unfolding get_db put
set_dataset opening failed k v db =
    let (p, db1) = get_db opening db in
    (
      with_db p failed true,
      elim (with_db p failed true) [
        | thrown m ↦ db1
        | value b ↦ record db1 { datasets = put k v db1.datasets }
      ],
    )

-- `getDataset`; `failed` is the error of the read, or none.
unfoldable pub get_dataset : Result Bool → Option String → String → Db → Result (Option String) × Db
unfolding get_db lookup
get_dataset opening failed k db =
    let (p, db1) = get_db opening db in (with_db p failed (lookup k db1.datasets), db1)

abbrev pub is_there {ℓ} : {A : Type ℓ} → Option A → Bool
is_there none = false
is_there (some a) = true

-- `hasDataset`; `failed` is the error of the read, or none.
unfoldable pub has_dataset : Result Bool → Option String → String → Db → Result Bool × Db
unfolding get_db lookup
has_dataset opening failed k db =
    let (p, db1) = get_db opening db in (with_db p failed (is_there (lookup k db1.datasets)), db1)

-- What the pages ask of the database.
pub data Request : Type 0 where
  set_it : String → String → Request
  get_it has_it : String → Request

-- A request, what an opening of the database would come to by then, and the error of the request itself.
pub record Asked : Type 0 where
  pub request : Request
  pub opening : Result Bool
  pub failed : Option String

-- The error that a promise is rejected with.
abbrev pub error_of {ℓ} : {A : Type ℓ} → Result A → Option String
error_of (value a) = none
error_of (thrown m) = some m

-- The error of a request, and the database after it.
unfoldable pub ask : Request → Result Bool → Option String → Db → Option String × Db
unfolding set_dataset get_dataset has_dataset
ask (set_it k v) opening failed db =
    let (r, db1) = set_dataset opening failed k v db in (error_of r, db1)
ask (get_it k) opening failed db =
    let (r, db1) = get_dataset opening failed k db in (error_of r, db1)
ask (has_it k) opening failed db =
    let (r, db1) = has_dataset opening failed k db in (error_of r, db1)

-- Requests one after the other, with their errors.
unfoldable pub ask_all : List Asked → Db → List (Option String) × Db
unfolding ask
ask_all [] db = ([], db)
ask_all (q ∷ qs) db =
    let (e, db1) = ask q.request q.opening q.failed db in
    let (es, end) = ask_all qs db1 in (e ∷ es, end)
