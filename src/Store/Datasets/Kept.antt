-- ===== src/Store/Datasets/Kept.antt =====
-- The opening of the database is tried once, and decides over all the requests.
use vidhi_trading_platform.Prelude.{
  Bool, String, List, [], ◌∷◌, Option, none, some, map, ◌≡◌, refl, ap,
}
use vidhi_trading_platform.Client.Http.{Result, value, thrown}
use vidhi_trading_platform.Store.Datasets.{
  Db, get_db, put, set_dataset, get_dataset, has_dataset, Request, set_it, get_it, has_it, Asked,
  ask, ask_all,
}

abbrev db_of : Option (Result Bool) → List (String × String) → Db
db_of p ds = record { promise = p; datasets = ds }

-- What becomes of a request if the one opening came to this.
abbrev pub error_after : Result Bool → Asked → Option String
error_after (value b) q = q.failed
error_after (thrown m) q = some m

-- The datasets after a request, of which only a write that has no error changes any.
abbrev pub stored_by : Option String → Request → List (String × String) → List (String × String)
stored_by none (set_it k v) ds = put k v ds
stored_by _ r ds = ds

abbrev pub stored_after : Result Bool → List Asked → List (String × String) → List (String × String)
stored_after p [] ds = ds
stored_after p (q ∷ qs) ds = stored_after p qs (stored_by (error_after p q) q.request ds)

-- What a request leaves of a database for whose opening this came.
abbrev Leaves : Result Bool → Asked → List (String × String) → Option String × Db → Type 0
Leaves p q ds end =
    (end.0 ≡ error_after p q) × (end.1 ≡ db_of (some p) (stored_by (error_after p q) q.request ds))

ask-Leaves :
    (r : Request) (opening p : Result Bool) (failed : Option String) (ds : List (String × String))
    → let q : Asked = record { request = r; opening = opening; failed = failed } in
      Leaves p q ds (ask r opening failed (db_of (some p) ds))
unfolding ask set_dataset get_dataset has_dataset get_db
ask-Leaves (set_it k v) opening (value b) none ds = (refl, refl)
ask-Leaves (set_it k v) opening (value b) (some e) ds = (refl, refl)
ask-Leaves (set_it k v) opening (thrown m) failed ds = (refl, refl)
ask-Leaves (get_it k) opening (value b) none ds = (refl, refl)
ask-Leaves (get_it k) opening (value b) (some e) ds = (refl, refl)
ask-Leaves (get_it k) opening (thrown m) failed ds = (refl, refl)
ask-Leaves (has_it k) opening (value b) none ds = (refl, refl)
ask-Leaves (has_it k) opening (value b) (some e) ds = (refl, refl)
ask-Leaves (has_it k) opening (thrown m) failed ds = (refl, refl)

-- The same of the first request, which opens the database itself.
ask_first :
    (r : Request) (p : Result Bool) (failed : Option String) (ds : List (String × String))
    → ask r p failed (db_of none ds) ≡ ask r p failed (db_of (some p) ds)
unfolding ask set_dataset get_dataset has_dataset get_db
ask_first (set_it k v) p failed ds = refl
ask_first (get_it k) p failed ds = refl
ask_first (has_it k) p failed ds = refl

-- What a sequence of requests comes to.
abbrev pub Answers :
    Result Bool → List Asked → List (String × String) → List (Option String) × Db → Type 0
Answers p qs ds end = (end.0 ≡ map (error_after p) qs) × (end.1.datasets ≡ stored_after p qs ds)

ask_all-Answers :
    (qs : List Asked) (p : Result Bool) (ds : List (String × String))
    → Answers p qs ds (ask_all qs (db_of (some p) ds))
unfolding ask_all
ask_all-Answers [] p ds = (refl, refl)
ask_all-Answers (q ∷ qs) p ds =
    let (error, left) = ask-Leaves q.request q.opening p q.failed ds in
    let (errors, end) = ask_all-Answers qs p (stored_by (error_after p q) q.request ds) in
    rw left (rw error (ap (λ es. error_after p q ∷ es) errors, end))

-- The database is opened by the first request, and never again: if that fails, each later request fails with
-- the same error and no dataset is ever written, whatever another opening would come to; if it does not, each
-- request has its own error or none, and a write is stored exactly if it has none.
pub ask_all_opened_once :
    (q : Asked) (qs : List Asked) (ds : List (String × String))
    → let end = ask_all (q ∷ qs) (record { promise = none; datasets = ds }) in
      (end.0 ≡ map (error_after q.opening) (q ∷ qs))
      × (end.1.datasets ≡ stored_after q.opening (q ∷ qs) ds)
unfolding ask_all
ask_all_opened_once q qs ds =
    rw (ask_first q.request q.opening q.failed ds) (ask_all-Answers (q ∷ qs) q.opening ds)
