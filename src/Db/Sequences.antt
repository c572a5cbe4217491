-- ===== src/Db/Sequences.antt =====
-- db/db.go: what is put into the database, and what is found again.
use mathlib.Core.Bool.{Bool-discrete}
use mathlib.Core.List.{filter, map}
use telephonist_agent.Base.{
  Option-cases, ◌≡◌, ◌≢◌, refl, Bytes, List, [], ◌∷◌, true, false, none, some, inl, inr, arith,
}
use telephonist_agent.Errors.{Error}
use telephonist_agent.Db.{
  seq, empty_record, SequenceDbRecord, Bolt, RecordJson, get_json, get_sequence, update_sequence,
  map_records, each_record, iterate_sequences, local_only, find_local_only_sequences,
}

module _ {D T : Type 0} (bolt : Bolt D T) (json : RecordJson) where
  module _
      (read_only : (bucket : Bytes) (d : D)
        → (bolt.create_bucket_if_not_exists bucket (bolt.begin_view d)).1 ≢ none) where
    -- If the store refuses, as bbolt documents, to create a bucket in a transaction of `View`, then
    -- `GetSequence` and `UpdateSequence` fail for every identifier, whatever the database holds, and
    -- the latter changes nothing.
    pub get_sequence_fails :
        (id : Bytes) (update : SequenceDbRecord → SequenceDbRecord) (d : D)
        → (err : Error) × (get_sequence bolt json id d ≡ inr err)
          × (update_sequence bolt json id update d ≡ (d, false, some err))
    unfolding get_sequence get_json update_sequence
    get_sequence_fails id update d =
        elim (Option-cases (bolt.create_bucket_if_not_exists seq (bolt.begin_view d)).1) [
          | inl none_made ↦ absurd (read_only seq d none_made)
          | inr (err, e) ↦ (err, ground arith, ground arith)
        ]

  -- Each entry is the text of a record, under the record's key.
  pub data AllStored : List (Bytes × Bytes) → List (Bytes × SequenceDbRecord) → Type 0 where
    nil : AllStored [] []
    cons :
        (key text : Bytes) (r : SequenceDbRecord) (es : List (Bytes × Bytes))
        (rs : List (Bytes × SequenceDbRecord))
        → json.marshal r ≡ inl text
        → AllStored es rs
        → AllStored ((key, text) ∷ es) ((key, r) ∷ rs)

  module _
      (decodes : (r old : SequenceDbRecord) (text : Bytes)
        → json.marshal r ≡ inl text
        → json.unmarshal text old ≡ inl r) where
    each_record-stored :
        (old : SequenceDbRecord) (es : List (Bytes × Bytes)) (rs : List (Bytes × SequenceDbRecord))
        → AllStored es rs
        → each_record bolt json old es ≡ rs
    unfolding each_record
    each_record-stored old es rs nil = refl
    each_record-stored old es rs (cons key text r es' rs' m h) =
        ground (arith, decodes r old text m, each_record-stored r es' rs' h)

    local_only-filter :
        (rs : List (Bytes × SequenceDbRecord))
        → local_only bolt json rs
          ≡ map (λ x. x.1) (filter (λ x. Bool-discrete x.1.only_local true) rs)
    unfolding local_only
    local_only-filter [] = refl
    local_only-filter ((key, r) ∷ rs) = ground (arith, local_only-filter rs)

    -- If the text of a record decodes to it whatever it is decoded into, the bucket is there and holds
    -- the texts of records, then the iteration visits just these records with their keys, in order.
    pub iterate_sequences-stored :
        (d : D) (rs : List (Bytes × SequenceDbRecord))
        → bolt.has_bucket seq (bolt.begin_view d) ≡ true
        → AllStored (bolt.entries seq (bolt.begin_view d)) rs
        → iterate_sequences bolt json d ≡ rs
    unfolding iterate_sequences map_records
    iterate_sequences-stored d rs there h =
        ground (arith, each_record-stored empty_record (bolt.entries seq (bolt.begin_view d)) rs h)

    -- Under the same conditions the records that are found as local are just those that are stored and
    -- marked as local only, in order.
    pub find_local_only-stored :
        (d : D) (rs : List (Bytes × SequenceDbRecord))
        → bolt.has_bucket seq (bolt.begin_view d) ≡ true
        → AllStored (bolt.entries seq (bolt.begin_view d)) rs
        → find_local_only_sequences bolt json d
          ≡ map (λ x. x.1) (filter (λ x. Bool-discrete x.1.only_local true) rs)
    unfolding find_local_only_sequences
    find_local_only-stored d rs there h =
        rw (iterate_sequences-stored d rs there h) (local_only-filter rs)
