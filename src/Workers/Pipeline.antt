-- ===== src/Workers/Pipeline.antt =====
-- What a worker of pkg/resync/service.go or pkg/historical/service.go calls and logs.
use ipfs_blockchain_watcher.Prelude.{ℕ, ◌≡◌, refl, ◌++◌, String, Option, none, some, List, [], ◌∷◌}

-- The interfaces shared.PayloadFetcher, PayloadConverter, IPLDPublisher and CIDIndexer. Where Go
-- returns a value and an error both are here; a value may be nil.
pub record Pipeline : Type 1 where
  pub Payload : Type 0
  pub Converted : Type 0
  pub Cids : Type 0
  pub fetch_at : List ℕ → List Payload × Option String
  pub convert : Payload → Converted × Option String
  pub publish : Converted → Cids × Option String
  pub index : Cids → Option String

module _ (pipeline : Pipeline) where
  open pipeline use {Payload, Converted, Cids}

  -- The calls and the log lines of a worker, in order.
  pub data Event : Type 0 where
    fetcher_error converter_error publisher_error indexer_error : String → Event
    published : Converted → Event
    indexed : Cids → Event
    -- offered to ScreenAndServe, and taken or not
    forwarded : Converted → Event
    not_forwarded : Converted → Event

  -- `if err != nil { log }`
  abbrev pub logged : (String → Event) → Option String → List Event
  logged line none = []
  logged line (some e) = line e ∷ []

  -- What the worker gave to Publish, and to Index, in order.
  abbrev pub published_of : List Event → List Converted
  published_of [] = []
  published_of (published c ∷ es) = c ∷ published_of es
  published_of (fetcher_error e ∷ es) = published_of es
  published_of (converter_error e ∷ es) = published_of es
  published_of (publisher_error e ∷ es) = published_of es
  published_of (indexer_error e ∷ es) = published_of es
  published_of (indexed c ∷ es) = published_of es
  published_of (forwarded c ∷ es) = published_of es
  published_of (not_forwarded c ∷ es) = published_of es

  abbrev pub indexed_of : List Event → List Cids
  indexed_of [] = []
  indexed_of (indexed c ∷ es) = c ∷ indexed_of es
  indexed_of (fetcher_error e ∷ es) = indexed_of es
  indexed_of (converter_error e ∷ es) = indexed_of es
  indexed_of (publisher_error e ∷ es) = indexed_of es
  indexed_of (indexer_error e ∷ es) = indexed_of es
  indexed_of (published c ∷ es) = indexed_of es
  indexed_of (forwarded c ∷ es) = indexed_of es
  indexed_of (not_forwarded c ∷ es) = indexed_of es

  -- A log line is no call.
  pub fetcher_line :
      (fetch_err : Option String) (es : List Event)
      → (published_of (logged fetcher_error fetch_err ++ es) ≡ published_of es)
        × (indexed_of (logged fetcher_error fetch_err ++ es) ≡ indexed_of es)
  fetcher_line none es = (refl, refl)
  fetcher_line (some e) es = (refl, refl)
