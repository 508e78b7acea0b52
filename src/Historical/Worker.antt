-- ===== src/Historical/Worker.antt =====
-- pkg/historical/service.go, backFill: what a worker does with one batch.
use ipfs_blockchain_watcher.Prelude.{
  ℕ, ◌+◌, ◌≡◌, refl, ap, ◌∙◌, Bool, true, false, Option, none, some, String, List, [], ◌∷◌, ◌++◌,
  map, flat_map, if◌then◌else◌,
}
use ipfs_blockchain_watcher.Workers.Pipeline.{
  Pipeline, Event, fetcher_error, converter_error, publisher_error, indexer_error, published,
  indexed, forwarded, not_forwarded, logged, published_of, indexed_of, fetcher_line,
}

module _ (pipeline : Pipeline) where
  open pipeline use {Payload, Converted, Cids}

  -- `continue` on a publisher's error, or else Index.
  abbrev pub index_published : Cids × Option String → Option String → List (Event pipeline)
  index_published (cid_payload, some e) index_err = publisher_error e ∷ []
  index_published (cid_payload, none) index_err =
      indexed cid_payload ∷ logged pipeline indexer_error index_err

  -- The calls for one payload, by the values and errors that they return, and whether ScreenAndServe
  -- receives.
  abbrev pub back_fill_calls :
      Bool
      → Converted × Option String
      → Cids × Option String
      → Option String
      → List (Event pipeline)
  back_fill_calls ready (ipld_payload, convert_err) cids index_err =
      logged pipeline converter_error convert_err
      ++ (if ready then forwarded ipld_payload else not_forwarded ipld_payload)
        ∷ published ipld_payload
        ∷ index_published cids index_err

  -- The body of `for _, payload := range payloads`
  unfoldable pub back_fill_payload : Bool → Payload → List (Event pipeline)
  back_fill_payload ready payload =
      let converted = pipeline.convert payload in
      let cids = pipeline.publish converted.0 in
      back_fill_calls ready converted cids (pipeline.index cids.0)

  unfoldable pub back_fill_payloads : (ℕ → Bool) → ℕ → List Payload → List (Event pipeline)
  back_fill_payloads ready i [] = []
  back_fill_payloads ready i (payload ∷ payloads) =
      back_fill_payload (ready i) payload ++ back_fill_payloads ready (i + 1) payloads

  -- `case heights := <-heightChan` of backFill
  unfoldable pub back_fill_section : (ℕ → Bool) → List ℕ → List (Event pipeline)
  unfolding back_fill_payloads
  back_fill_section ready heights =
      let (payloads, fetch_err) = pipeline.fetch_at heights in
      logged pipeline fetcher_error fetch_err ++ back_fill_payloads ready 0 payloads

  -- What is to be indexed of some payloads: those that the publisher accepts.
  abbrev pub accepted : Cids × Option String → List Cids
  accepted (cids, some e) = []
  accepted (cids, none) = cids ∷ []

  back_fill_calls-payload :
      (ready : Bool) (converted : Converted × Option String) (cids : Cids × Option String)
      (index_err : Option String) (es : List (Event pipeline))
      → (published_of pipeline (back_fill_calls ready converted cids index_err ++ es)
          ≡ converted.0 ∷ published_of pipeline es)
        × (indexed_of pipeline (back_fill_calls ready converted cids index_err ++ es)
            ≡ accepted cids ++ indexed_of pipeline es)
  back_fill_calls-payload true (c, none) (k, none) none es = (refl, refl)
  back_fill_calls-payload true (c, none) (k, none) (some g) es = (refl, refl)
  back_fill_calls-payload true (c, none) (k, some f) index_err es = (refl, refl)
  back_fill_calls-payload true (c, some e) (k, none) none es = (refl, refl)
  back_fill_calls-payload true (c, some e) (k, none) (some g) es = (refl, refl)
  back_fill_calls-payload true (c, some e) (k, some f) index_err es = (refl, refl)
  back_fill_calls-payload false (c, none) (k, none) none es = (refl, refl)
  back_fill_calls-payload false (c, none) (k, none) (some g) es = (refl, refl)
  back_fill_calls-payload false (c, none) (k, some f) index_err es = (refl, refl)
  back_fill_calls-payload false (c, some e) (k, none) none es = (refl, refl)
  back_fill_calls-payload false (c, some e) (k, none) (some g) es = (refl, refl)
  back_fill_calls-payload false (c, some e) (k, some f) index_err es = (refl, refl)

  payloads-calls :
      (ready : ℕ → Bool) (i : ℕ) (payloads : List Payload)
      → (published_of pipeline (back_fill_payloads ready i payloads)
          ≡ map (λ p. (pipeline.convert p).0) payloads)
        × (indexed_of pipeline (back_fill_payloads ready i payloads)
            ≡ flat_map (λ p. accepted (pipeline.publish (pipeline.convert p).0)) payloads)
  unfolding back_fill_payloads back_fill_payload
  payloads-calls ready i [] = (refl, refl)
  payloads-calls ready i (p ∷ payloads) =
      let converted = pipeline.convert p in
      let cids = pipeline.publish converted.0 in
      let first =
        back_fill_calls-payload (ready i) converted cids (pipeline.index cids.0)
          (back_fill_payloads ready (i + 1) payloads) in
      let rest = payloads-calls ready (i + 1) payloads in
      (first.0 ∙ ap (◌∷◌ converted.0) rest.0, first.1 ∙ ap (◌++◌ (accepted cids)) rest.1)

  -- For one batch, a worker of the backfill publishes what the converter returned for every payload
  -- fetched, in order, and indexes exactly what the publisher returned without an error; no error of a
  -- call ends the batch, and whether ScreenAndServe takes the payloads changes nothing.
  pub back_fill_section-calls :
      (ready : ℕ → Bool) (heights : List ℕ)
      → (published_of pipeline (back_fill_section ready heights)
          ≡ map (λ p. (pipeline.convert p).0) (pipeline.fetch_at heights).0)
        × (indexed_of pipeline (back_fill_section ready heights)
            ≡ flat_map
                (λ p. accepted (pipeline.publish (pipeline.convert p).0))
                (pipeline.fetch_at heights).0)
  unfolding back_fill_section
  back_fill_section-calls ready heights =
      let fetched = pipeline.fetch_at heights in
      let line = fetcher_line pipeline fetched.1 (back_fill_payloads ready 0 fetched.0) in
      let calls = payloads-calls ready 0 fetched.0 in (line.0 ∙ calls.0, line.1 ∙ calls.1)
