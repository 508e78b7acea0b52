-- ===== src/Resync/Worker.antt =====
-- pkg/resync/service.go, resync: what a worker does with one batch.
use ipfs_blockchain_watcher.Prelude.{
  ℕ, ◌≡◌, refl, ap, ◌∙◌, String, Option, none, some, List, [], ◌∷◌, ◌++◌, map,
}
use ipfs_blockchain_watcher.Workers.Pipeline.{
  Pipeline, Event, fetcher_error, converter_error, publisher_error, indexer_error, published,
  indexed, logged, published_of, indexed_of, fetcher_line,
}

module _ (pipeline : Pipeline) where
  open pipeline use {Payload, Converted, Cids}

  -- The calls for one payload, by the values and errors that they return.
  abbrev pub resync_calls :
      Converted × Option String → Cids × Option String → Option String → List (Event pipeline)
  resync_calls (ipld_payload, convert_err) (cid_payload, publish_err) index_err =
      logged pipeline converter_error convert_err
      ++ published ipld_payload ∷ logged pipeline publisher_error publish_err
      ++ indexed cid_payload ∷ logged pipeline indexer_error index_err

  -- The body of `for _, payload := range payloads`
  unfoldable pub resync_payload : Payload → List (Event pipeline)
  resync_payload payload =
      let converted = pipeline.convert payload in
      let cids = pipeline.publish converted.0 in resync_calls converted cids (pipeline.index cids.0)

  unfoldable pub resync_payloads : List Payload → List (Event pipeline)
  resync_payloads [] = []
  resync_payloads (payload ∷ payloads) = resync_payload payload ++ resync_payloads payloads

  -- `case heights := <-heightChan` of resync
  unfoldable pub resync_section : List ℕ → List (Event pipeline)
  unfolding resync_payloads
  resync_section heights =
      let (payloads, fetch_err) = pipeline.fetch_at heights in
      logged pipeline fetcher_error fetch_err ++ resync_payloads payloads

  resync_calls-payload :
      (converted : Converted × Option String) (cids : Cids × Option String)
      (index_err : Option String) (es : List (Event pipeline))
      → (published_of pipeline (resync_calls converted cids index_err ++ es)
          ≡ converted.0 ∷ published_of pipeline es)
        × (indexed_of pipeline (resync_calls converted cids index_err ++ es)
            ≡ cids.0 ∷ indexed_of pipeline es)
  resync_calls-payload (c, none) (k, none) none es = (refl, refl)
  resync_calls-payload (c, none) (k, none) (some g) es = (refl, refl)
  resync_calls-payload (c, none) (k, some f) none es = (refl, refl)
  resync_calls-payload (c, none) (k, some f) (some g) es = (refl, refl)
  resync_calls-payload (c, some e) (k, none) none es = (refl, refl)
  resync_calls-payload (c, some e) (k, none) (some g) es = (refl, refl)
  resync_calls-payload (c, some e) (k, some f) none es = (refl, refl)
  resync_calls-payload (c, some e) (k, some f) (some g) es = (refl, refl)

  payloads-calls :
      (payloads : List Payload)
      → (published_of pipeline (resync_payloads payloads)
          ≡ map (λ p. (pipeline.convert p).0) payloads)
        × (indexed_of pipeline (resync_payloads payloads)
            ≡ map (λ p. (pipeline.publish (pipeline.convert p).0).0) payloads)
  unfolding resync_payloads resync_payload
  payloads-calls [] = (refl, refl)
  payloads-calls (p ∷ payloads) =
      let converted = pipeline.convert p in
      let cids = pipeline.publish converted.0 in
      let first =
        resync_calls-payload converted cids (pipeline.index cids.0) (resync_payloads payloads) in
      let rest = payloads-calls payloads in
      (first.0 ∙ ap (◌∷◌ converted.0) rest.0, first.1 ∙ ap (◌∷◌ cids.0) rest.1)

  -- For one batch, a worker of a resync publishes what the converter returned for every payload
  -- fetched, in order, and indexes what the publisher returned for every one, whichever of these calls
  -- return an error.
  pub resync_section-calls :
      (heights : List ℕ)
      → (published_of pipeline (resync_section heights)
          ≡ map (λ p. (pipeline.convert p).0) (pipeline.fetch_at heights).0)
        × (indexed_of pipeline (resync_section heights)
            ≡ map (λ p. (pipeline.publish (pipeline.convert p).0).0) (pipeline.fetch_at heights).0)
  unfolding resync_section
  resync_section-calls heights =
      let fetched = pipeline.fetch_at heights in
      let line = fetcher_line pipeline fetched.1 (resync_payloads fetched.0) in
      let calls = payloads-calls fetched.0 in (line.0 ∙ calls.0, line.1 ∙ calls.1)
